-- ===== src/Registrations/Registering/Consistency.antt =====
-- Registering for an event keeps the tables consistent.
use uevent_backend.Base.{◌≡◌, refl, subst, ℕ, Option, some, List, inl, inr, Bool-cases}
use uevent_backend.Base.Texts.{Text}
use uevent_backend.Common.Errors.{
  ok, >>=-eq-ok, or_raise-eq-ok, ok-injective, raise_if-eq-ok, not_found,
}
use uevent_backend.Common.Host.{Host}
use uevent_backend.Orm.Table.{find}
use uevent_backend.Orm.Table.Laws.{find-first}
use uevent_backend.Events.Models.{Event}
use uevent_backend.Registrations.Models.{EventRegistration, is_registered}
use uevent_backend.Registrations.State.{Db, event_key, registration_key, live_event}
use uevent_backend.Registrations.Register.{
  existing_registration, blocks, restore_if_registered, create_event_registration,
}
use uevent_backend.Registrations.Invariant.{IsConsistent, IsConsistent-mailbox}
use uevent_backend.Registrations.Registering.Issuing.{
  registered-of_is, restore_ticket_for_registration-IsConsistent,
}
use uevent_backend.Registrations.Registering.Enrolling.{enrol-IsEnrolled}

restore_if_registered-IsConsistent :
    (h : Host) (saved : EventRegistration) (event : Event) (db db' : Db)
    → IsConsistent db
    → find registration_key saved.id db.registrations ≡ some saved
    → restore_if_registered h saved event db ≡ ok db'
    → IsConsistent db'
unfolding restore_if_registered
restore_if_registered-IsConsistent h saved event db db' c row e =
    elim (Bool-cases (is_registered saved.status)) [
      | inl is ↦
          let ((t, done), restores, e') = >>=-eq-ok _ _ db' (rw is at e) in
          subst IsConsistent (ok-injective done db' e') (
            restore_ticket_for_registration-IsConsistent h saved event c row
              (registered-of_is saved.status is) t done restores)
      | inr other ↦ subst IsConsistent (ok-injective db db' (rw other at e)) c
    ]

-- A registration that goes through leaves consistent tables: no event is overbooked by it, and no
-- used ticket becomes valid again.
pub create_event_registration-IsConsistent :
    (h : Host) (user_id event_id : ℕ) (answers : Option (List Text)) (db : Db)
    (r : EventRegistration) (db' : Db)
    → IsConsistent db
    → create_event_registration h user_id event_id answers db ≡ ok (r, db')
    → IsConsistent db'
unfolding create_event_registration live_event
create_event_registration-IsConsistent h user_id event_id answers db r db' c e =
    let (event, found, e₁) = >>=-eq-ok _ _ (r, db') e in
    let (_, _, e₂) = >>=-eq-ok _ _ (r, db') e₁ in
    let (u, blocked, e₃) = >>=-eq-ok _ _ (r, db') e₂ in
    let ((saved, enrolled), enrols, e₄) = >>=-eq-ok _ _ (r, db') e₃ in
    let (ticketed, restores, e₅) = >>=-eq-ok _ _ (r, db') e₄ in
    let (_, _, e₆) = >>=-eq-ok _ _ (r, db') e₅ in
    let (_, _, e₇) = >>=-eq-ok _ _ (r, db') e₆ in
    let here : find event_key event.id db.events ≡ some event =
      find-first event_key _ db.events event c.events_keyed
        (or_raise-eq-ok _ not_found event found) in
    let is_enrolled =
      enrol-IsEnrolled h event user_id answers c here
        (existing_registration event.id user_id db.registrations) saved enrolled refl
        (raise_if-eq-ok (blocks (existing_registration event.id user_id db.registrations)) _ u
          blocked)
        enrols in
    subst (λ (d : EventRegistration × Db). IsConsistent d.1) (ok-injective _ (r, db') e₇)
      (IsConsistent-mailbox _ (
        restore_if_registered-IsConsistent h saved event enrolled ticketed is_enrolled.consistent
          is_enrolled.row restores))
