-- ===== src/Registrations/Registering/Enrolling.antt =====
-- Saving the new or the renewed registration keeps the tables consistent.
use uevent_backend.Base.{
  ◌≡◌, refl, ap, subst, sym, ◌∙◌, ℕ, ◌+◌, ◌≤◌, Option, none, some, true, false, List, arith, inl,
  inr, ◌&&◌, ◌==◌, Bool-cases, weight, not-eq-false,
}
use uevent_backend.Base.Texts.{Text}
use uevent_backend.Common.Errors.{ok, >>=-eq-ok, ok-injective}
use uevent_backend.Common.Host.{Host}
use uevent_backend.Orm.Table.{alive, exists, find, update, append}
use uevent_backend.Orm.Table.Laws.{
  IsKeyed-update, IsKeyed-append, find-first, first-eq-some, find-eq-none, find-update_self,
  find-append_self,
}
use uevent_backend.Events.Models.{Event}
use uevent_backend.Registrations.Models.{EventRegistration, RegistrationStatus, is_inactive}
use uevent_backend.Registrations.State.{
  Db, event_key, registration_key, takes_place_at, active_registration_count,
}
use uevent_backend.Registrations.Register.{
  is_full, existing_registration, blocks, renewed, new_registration, clashes_with,
  insert_registration, enrol, next_status,
}
use uevent_backend.Registrations.Linkage.{
  IsLinked, Linked-append_registration, Linked-update_registration, IsLinked-of_inactive,
}
use uevent_backend.Registrations.Capacity.{
  Fits, Fits-next, Fits-fewer, active-append, active-update,
}
use uevent_backend.Registrations.Invariant.{IsConsistent}

insert_registration-eq-ok :
    (new : EventRegistration) (rows rows' : List EventRegistration)
    → insert_registration new rows ≡ ok rows'
    → (exists (clashes_with new) rows ≡ false) × (rows' ≡ append rows new)
unfolding insert_registration
insert_registration-eq-ok new rows rows' e = elim (Bool-cases (exists (clashes_with new) rows)) [
  | inl clash ↦ ground arith
  | inr free ↦ (free, ground arith)
]

-- A registration with the next status leaves the event within its capacity.
Fits-next_status :
    (events : List Event) (rows rows' : List EventRegistration) (event : Event)
    (new : EventRegistration)
    → Fits events rows
    → find event_key event.id events ≡ some event
    → new.event_id ≡ event.id
    → new.status ≡ next_status event rows
    → ((i : ℕ)
        → active_registration_count i rows'
          ≤ active_registration_count i rows + weight (takes_place_at i new))
    → Fits events rows'
unfolding next_status
Fits-next_status events rows rows' event new fits found at status grows =
    elim (Bool-cases (is_full event.max_capacity (active_registration_count event.id rows))) [
      | inl full ↦ Fits-fewer events rows rows' fits (λ i. ground (arith, grows i))
      | inr room ↦ Fits-next events rows rows' event new fits found room at grows
    ]

module _ (h : Host) (event : Event) (user_id : ℕ) (answers : Option (List Text)) {db : Db}
    (c : IsConsistent db) (here : find event_key event.id db.events ≡ some event) where
  abbrev pub status : RegistrationStatus
  status = next_status event db.registrations

  -- What enrolling leaves: consistent tables that hold the saved registration.
  pub record IsEnrolled (saved : EventRegistration) (enrolled : Db) : Type 0 where
    pub consistent : IsConsistent enrolled
    pub row : find registration_key saved.id enrolled.registrations ≡ some saved
    pub at_event : saved.event_id ≡ event.id
    pub of_user : saved.user_id ≡ user_id
    pub status_is : saved.status ≡ status
    pub same_tickets : enrolled.tickets ≡ db.tickets

  renew-IsEnrolled :
      (r : EventRegistration)
      → find registration_key r.id db.registrations ≡ some r
      → is_inactive r.status ≡ true
      → r.event_id ≡ event.id
      → r.user_id ≡ user_id
      → IsEnrolled (renewed h status answers r) (record db {
        registrations = update registration_key r.id (renewed h status answers) db.registrations;
      })
  renew-IsEnrolled r found inactive at of = record {
    consistent = record {
      events_keyed = c.events_keyed;
      registrations_keyed =
          IsKeyed-update registration_key (renewed h status answers) (λ _. refl) r.id
            db.registrations c.registrations_keyed;
      tickets_keyed = c.tickets_keyed;
      linked =
          Linked-update_registration (renewed h status answers) (λ _. refl) r.id r db.registrations
            db.tickets c.linked found
            (λ j t e p. IsLinked-of_inactive t.status r _ inactive (
              subst (IsLinked t.status)
                (ap (λ (n : ℕ). find registration_key n db.registrations) p ∙ found)
                (c.linked j t e)));
      one_each = c.one_each;
      logged = c.logged;
      fits =
          Fits-next_status db.events db.registrations _ event (renewed h status answers r) c.fits
            here at refl (active-update (renewed h status answers) r.id r db.registrations found);
    };
    row =
        find-update_self registration_key (renewed h status answers) (λ _. refl) r.id
          db.registrations r found;
    at_event = at;
    of_user = of;
    status_is = refl;
    same_tickets = refl;
  }

  insert-IsEnrolled :
      (rows : List EventRegistration)
      → insert_registration (new_registration h event.id user_id status answers) db.registrations
        ≡ ok rows
      → IsEnrolled
          (new_registration h event.id user_id status answers)
          (record db { registrations = rows })
  insert-IsEnrolled rows e =
      let new = new_registration h event.id user_id status answers in
      let (free, is_append) = insert_registration-eq-ok new db.registrations rows e in
      let fresh =
        find-eq-none registration_key (clashes_with new) new.id db.registrations
          (λ r p. ground arith) free in
      subst (λ (rs : List EventRegistration). IsEnrolled new (record db { registrations = rs }))
        (sym is_append)
        (record {
          consistent = record {
            events_keyed = c.events_keyed;
            registrations_keyed =
                IsKeyed-append registration_key db.registrations new c.registrations_keyed fresh;
            tickets_keyed = c.tickets_keyed;
            linked = Linked-append_registration new db.registrations db.tickets c.linked;
            one_each = c.one_each;
            logged = c.logged;
            fits =
                Fits-next_status db.events db.registrations _ event new c.fits here refl refl
                  (λ i. active-append i db.registrations new);
          };
          row = find-append_self registration_key db.registrations new fresh;
          at_event = refl;
          of_user = refl;
          status_is = refl;
          same_tickets = refl;
        })

  pub enrol-IsEnrolled :
      (existing : Option EventRegistration) (saved : EventRegistration) (enrolled : Db)
      → existing_registration event.id user_id db.registrations ≡ existing
      → blocks existing ≡ false
      → enrol h event user_id status answers existing db ≡ ok (saved, enrolled)
      → IsEnrolled saved enrolled
  unfolding enrol existing_registration
  enrol-IsEnrolled (some r) saved enrolled s b e =
      subst (λ (d : EventRegistration × Db). IsEnrolled d.0 d.1)
        (ok-injective _ (saved, enrolled) e)
        (renew-IsEnrolled r
          (find-first registration_key _ db.registrations r c.registrations_keyed s)
          (not-eq-false _ b)
          (ground (
            arith,
            first-eq-some
                (λ (r' : EventRegistration).
                  alive r'.deleted_at && (r'.event_id == event.id && r'.user_id == user_id))
                db.registrations r s,
          ))
          (ground (
            arith,
            first-eq-some
                (λ (r' : EventRegistration).
                  alive r'.deleted_at && (r'.event_id == event.id && r'.user_id == user_id))
                db.registrations r s,
          )))
  enrol-IsEnrolled none saved enrolled s b e =
      let (rows, inserted, e₁) = >>=-eq-ok _ _ (saved, enrolled) e in
      subst (λ (d : EventRegistration × Db). IsEnrolled d.0 d.1)
        (ok-injective _ (saved, enrolled) e₁) (insert-IsEnrolled rows inserted)
