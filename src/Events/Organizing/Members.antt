-- ===== src/Events/Organizing/Members.antt =====
-- Who organizes an event after someone has been added or removed.
use uevent_backend.Base.{
  ℕ, ◌≡◌, refl, subst, Bool, true, false, ◌&&◌, some, List, [], ◌∷◌, arith, ◌==◌, inl, inr,
  Bool-cases,
}
use uevent_backend.Base.Texts.{Text}
use uevent_backend.Common.Errors.{
  ok, err, ◌>>=◌, raise_if, or_raise, or_raise-eq-ok, raise_if-eq-ok, >>=-eq-ok, ok-injective,
  not_found, forbidden, validation_error, owner_protected,
}
use uevent_backend.Common.Host.{Host}
use uevent_backend.Orm.Table.{alive, first, latest, exists, find, update}
use uevent_backend.Orm.Table.Laws.{
  IsKeyed, latest-eq-some, find-latest, exists-stronger, first-eq-none, first-of_exists,
}
use uevent_backend.Registrations.State.{Db, live_event}
use uevent_backend.Events.Models.{Event, EventOrganizer, is_owner_role}
use uevent_backend.Events.Access.{is_role_of, is_event_organizer, get_event}
use uevent_backend.Events.Editing.Updates.{get_event-live}
use uevent_backend.Events.Organizing.{
  organizer_key, assert_event_owner, is_protected, has_email, dismissed, remove_organizer_by_email,
}

-- No two rows, dead or not, are of one user at one event: `uq_event_organizers_event_user`.
abbrev pub IsPaired : List EventOrganizer → Type 0
IsPaired [] = Unit
IsPaired (o ∷ rows) = (exists (is_role_of o.event_id o.user_id) rows ≡ false) × IsPaired rows

-- A live row of the user at the event.
abbrev pub is_member : ℕ → ℕ → EventOrganizer → Bool
is_member event_id user_id o = alive o.deleted_at && is_role_of event_id user_id o

-- With unique pairs, a user whose row has been dismissed has no live row at the event.
member-dismissed :
    (now : ℕ) (rows : List EventOrganizer) (o : EventOrganizer)
    → IsPaired rows
    → find organizer_key o.id rows ≡ some o
    → exists (is_member o.event_id o.user_id) (update organizer_key o.id (dismissed now) rows)
      ≡ false
unfolding exists first find update
member-dismissed now [] o paired there = cc
member-dismissed now (c ∷ rows) o paired there = elim (Bool-cases (c.id == o.id)) [
  | inl e ↦
      let same : c ≡ o = ground arith in
      let none_else =
        exists-stronger (is_member c.event_id c.user_id) (is_role_of c.event_id c.user_id) rows
          (λ r. ground arith) paired.0 in
      rw e (
        subst
          (λ (r : EventOrganizer).
            exists (is_member r.event_id r.user_id) (dismissed now c ∷ rows) ≡ false)
          same none_else)
  | inr ne ↦
      let apart : is_role_of c.event_id c.user_id o ≡ false =
        first-eq-none organizer_key (is_role_of c.event_id c.user_id) o.id rows o
          (first-of_exists (is_role_of c.event_id c.user_id) rows paired.0) (ground arith) in
      ground (arith, member-dismissed now rows o paired.1)
]

stranger-is_event_organizer :
    (user_id : ℕ) (event : Event) (organizers : List EventOrganizer)
    → (user_id == event.created_by_id) ≡ false
    → exists (is_member event.id user_id) organizers ≡ false
    → is_event_organizer user_id event organizers ≡ false
unfolding is_event_organizer
stranger-is_event_organizer user_id event organizers ne gone = ground arith

-- The guards of `remove_organizer_by_email` that a removal has passed.
remove_organizer-eq-ok :
    (h : Host) (actor event_id : ℕ) (email : Text) (db db' : Db)
    → remove_organizer_by_email h actor event_id email db ≡ ok db'
    → (event : Event) × (role : EventOrganizer) × (live_event event_id db.events ≡ some event)
      × (latest
            (λ o. alive o.deleted_at && (o.event_id == event.id && has_email h db.users email o))
            db.organizers
          ≡ some role)
      × (is_protected event role ≡ false)
      × (record db { organizers = update organizer_key role.id (dismissed h.now) db.organizers }
          ≡ db')
unfolding remove_organizer_by_email
remove_organizer-eq-ok h actor event_id email db db' done =
    let (event, got, e₁) = >>=-eq-ok (get_event actor event_id db) _ db' done in
    let (_, _, e₂) = >>=-eq-ok (assert_event_owner actor event db.organizers) _ db' e₁ in
    let (role, found, e₃) =
      >>=-eq-ok
        (or_raise
          (latest
            (λ o. alive o.deleted_at && (o.event_id == event.id && has_email h db.users email o))
            db.organizers)
          not_found)
        _ db' e₂ in
    let (u, open_, e₄) =
      >>=-eq-ok (raise_if (is_protected event role) (validation_error owner_protected)) _ db' e₃ in
    (
      event,
      role,
      get_event-live actor event_id db event got,
      or_raise-eq-ok _ not_found role found,
      raise_if-eq-ok (is_protected event role) _ u open_,
      ok-injective
          (record db { organizers = update organizer_key role.id (dismissed h.now) db.organizers })
          db' e₄,
    )

-- Where every user has at most one row at an event, a removal takes the event from the user that
-- it removes: the row had the address, was neither an owner's nor the creator's, and its user does
-- not reach the event any more.
pub remove_organizer_by_email-revokes :
    (h : Host) (actor event_id : ℕ) (email : Text) (db db' : Db)
    → IsKeyed organizer_key db.organizers
    → IsPaired db.organizers
    → remove_organizer_by_email h actor event_id email db ≡ ok db'
    → (role : EventOrganizer) × (find organizer_key role.id db.organizers ≡ some role)
      × (has_email h db.users email role ≡ true)
      × (is_owner_role role.organizer_role ≡ false)
      × (get_event role.user_id event_id db' ≡ err forbidden)
unfolding get_event ◌>>=◌
remove_organizer_by_email-revokes h actor event_id email db db' keyed paired done =
    let (event, role, living, found, free, e) =
      remove_organizer-eq-ok h actor event_id email db db' done in
    let passes =
      latest-eq-some
        (λ o. alive o.deleted_at && (o.event_id == event.id && has_email h db.users email o))
        db.organizers role found in
    let there =
      find-latest organizer_key
        (λ o. alive o.deleted_at && (o.event_id == event.id && has_email h db.users email o))
        db.organizers role keyed found in
    let gone = member-dismissed h.now db.organizers role paired there in
    let at : role.event_id ≡ event.id = ground arith in
    (
      role,
      there,
      ground arith,
      ground arith,
      subst (λ (d : Db). get_event role.user_id event_id d ≡ err forbidden) e
          (rw
            (
              living,
              stranger-is_event_organizer role.user_id event
                  (update organizer_key role.id (dismissed h.now) db.organizers) (ground arith)
                  (rw at at gone),
            )
            refl),
    )
