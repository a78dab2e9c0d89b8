-- ===== src/Registrations/Registering/Outcome.antt =====
-- What a registration that goes through is.
use uevent_backend.Base.{
  ◌≡◌, refl, subst, ap, ℕ, Option, some, true, false, List, inl, inr, Bool-cases, arith, ◌&&◌, ◌==◌,
}
use uevent_backend.Base.Texts.{Text}
use uevent_backend.Common.Errors.{
  ok, or_raise, >>=-eq-ok, or_raise-eq-ok, ok-injective, raise_if-eq-ok, not_found, does_not_exist,
}
use uevent_backend.Common.Host.{Host}
use uevent_backend.Orm.Table.{alive, find}
use uevent_backend.Orm.Table.Laws.{IsKeyed, find-first, first-eq-some}
use uevent_backend.Events.Models.{Event}
use uevent_backend.Registrations.Models.{
  EventRegistration, RegistrationStatus, Ticket, is_registered,
}
use uevent_backend.Registrations.State.{
  Db, event_key, registration_key, live_event, live_registration,
}
use uevent_backend.Registrations.Register.{
  existing_registration, blocks, restore_if_registered, next_status, create_event_registration,
}
use uevent_backend.Notifications.Models.{Mailbox}
use uevent_backend.Registrations.Invariant.{IsConsistent}
use uevent_backend.Registrations.Registering.Enrolling.{IsEnrolled, enrol-IsEnrolled}
use uevent_backend.Registrations.Registering.Ticketing.{
  HasTicket, restore_ticket_for_registration-Ticketed,
}

-- What becomes of the tickets: a registered attendee has one, and a waiting one gets none.
abbrev TicketOutcome :
    RegistrationStatus → EventRegistration → Event → List Ticket → List Ticket → Type 0
TicketOutcome RegistrationStatus.registered r event old tickets =
    (t : Ticket) × HasTicket r event t tickets
TicketOutcome _ r event old tickets = tickets ≡ old

TicketOutcome-of_registered :
    (s : RegistrationStatus) (r : EventRegistration) (event : Event) (old tickets : List Ticket)
    (t : Ticket)
    → is_registered s ≡ true
    → HasTicket r event t tickets
    → TicketOutcome s r event old tickets
TicketOutcome-of_registered RegistrationStatus.registered r event old tickets t is has = (t, has)
TicketOutcome-of_registered _ r event old tickets t is has = cc

TicketOutcome-of_other :
    (s : RegistrationStatus) (r : EventRegistration) (event : Event) (old tickets : List Ticket)
    → is_registered s ≡ false
    → tickets ≡ old
    → TicketOutcome s r event old tickets
TicketOutcome-of_other RegistrationStatus.registered r event old tickets other same = cc
TicketOutcome-of_other _ r event old tickets other same = same

restore_if_registered-TicketOutcome :
    (h : Host) (saved : EventRegistration) (event : Event) (db db' : Db)
    → IsConsistent db
    → restore_if_registered h saved event db ≡ ok db'
    → TicketOutcome saved.status saved event db.tickets db'.tickets
      × (db'.registrations ≡ db.registrations)
unfolding restore_if_registered
restore_if_registered-TicketOutcome h saved event db db' c e =
    elim (Bool-cases (is_registered saved.status)) [
      | inl is ↦
          let ((t, done), restores, e') = >>=-eq-ok _ _ db' (rw is at e) in
          let (has, same) =
            restore_ticket_for_registration-Ticketed h saved event db c.tickets_keyed (t, done)
              restores in
          subst
            (λ (d : Db).
              TicketOutcome saved.status saved event db.tickets d.tickets
              × (d.registrations ≡ db.registrations))
            (ok-injective done db' e')
            (
              TicketOutcome-of_registered saved.status saved event db.tickets done.tickets t is has,
              same,
            )
      | inr other ↦
          subst
            (λ (d : Db).
              TicketOutcome saved.status saved event db.tickets d.tickets
              × (d.registrations ≡ db.registrations))
            (ok-injective db db' (rw other at e))
            (TicketOutcome-of_other saved.status saved event db.tickets db.tickets other refl, refl)
    ]

pub record IsOutcome (user_id : ℕ) (event : Event) (db : Db) (r : EventRegistration) (db' : Db)
    : Type 0 where
  pub of_user : r.user_id ≡ user_id
  pub at_event : r.event_id ≡ event.id
  pub status : r.status ≡ next_status event db.registrations
  pub row : find registration_key r.id db'.registrations ≡ some r
  pub ticket : TicketOutcome r.status r event db.tickets db'.tickets

-- The saved row is what is read back.
reread :
    (saved again : EventRegistration) (rows : List EventRegistration)
    → IsKeyed registration_key rows
    → find registration_key saved.id rows ≡ some saved
    → or_raise (live_registration saved.id rows) does_not_exist ≡ ok again
    → saved ≡ again
unfolding live_registration
reread saved again rows keyed row e =
    let read = or_raise-eq-ok _ does_not_exist again e in
    let found = find-first registration_key _ rows again keyed read in
    let same : again.id ≡ saved.id =
      ground (arith, first-eq-some (λ r. alive r.deleted_at && r.id == saved.id) rows again read) in
    cc (ap (λ (n : ℕ). find registration_key n rows) same)

-- What has been enrolled and ticketed is the outcome, once it has been read back.
module _ (h : Host) (event : Event) (user_id : ℕ) (answers : Option (List Text)) {db : Db}
    (c : IsConsistent db) (here : find event_key event.id db.events ≡ some event) where
  saved-IsOutcome :
      (saved again : EventRegistration) (enrolled ticketed : Db) (m : Mailbox)
      → IsEnrolled h event user_id answers c here saved enrolled
      → TicketOutcome saved.status saved event enrolled.tickets ticketed.tickets
      → ticketed.registrations ≡ enrolled.registrations
      → or_raise (live_registration saved.id ticketed.registrations) does_not_exist ≡ ok again
      → IsOutcome user_id event db again (record ticketed { mailbox = m })
  saved-IsOutcome saved again enrolled ticketed m en tickets same read =
      let row : find registration_key saved.id ticketed.registrations ≡ some saved =
        rw same en.row in
      subst
        (λ (r : EventRegistration). IsOutcome user_id event db r (record ticketed { mailbox = m }))
        (reread saved again ticketed.registrations (rw same en.consistent.registrations_keyed) row
          read)
        (record {
          of_user = en.of_user;
          at_event = en.at_event;
          status = en.status_is;
          row = row;
          ticket =
              subst
                (λ (old : List Ticket). TicketOutcome saved.status saved event old ticketed.tickets)
                en.same_tickets tickets;
        })

-- A registration that goes through is the user's at the live event with the key that was asked for;
-- it is saved, waitlisted if the event was full and registered otherwise; if registered, it has a
-- valid and unused ticket that expires with the event, and otherwise no ticket has been touched.
pub create_event_registration-IsOutcome :
    (h : Host) (user_id event_id : ℕ) (answers : Option (List Text)) (db : Db)
    (r : EventRegistration) (db' : Db)
    → IsConsistent db
    → create_event_registration h user_id event_id answers db ≡ ok (r, db')
    → (event : Event) × (live_event event_id db.events ≡ some event)
      × IsOutcome user_id event db r db'
unfolding create_event_registration live_event
create_event_registration-IsOutcome h user_id event_id answers db r db' c e =
    let (event, found, e₁) = >>=-eq-ok _ _ (r, db') e in
    let (_, _, e₂) = >>=-eq-ok _ _ (r, db') e₁ in
    let (u, blocked, e₃) = >>=-eq-ok _ _ (r, db') e₂ in
    let ((saved, enrolled), enrols, e₄) = >>=-eq-ok _ _ (r, db') e₃ in
    let (ticketed, restores, e₅) = >>=-eq-ok _ _ (r, db') e₄ in
    let (again, read, e₆) = >>=-eq-ok _ _ (r, db') e₅ in
    let (_, _, e₇) = >>=-eq-ok _ _ (r, db') e₆ in
    let live = or_raise-eq-ok _ not_found event found in
    let here : find event_key event.id db.events ≡ some event =
      find-first event_key _ db.events event c.events_keyed live in
    let en =
      enrol-IsEnrolled h event user_id answers c here
        (existing_registration event.id user_id db.registrations) saved enrolled refl
        (raise_if-eq-ok (blocks (existing_registration event.id user_id db.registrations)) _ u
          blocked)
        enrols in
    let (tickets, same) =
      restore_if_registered-TicketOutcome h saved event enrolled ticketed en.consistent restores in
    (
      event,
      live,
      subst (λ (d : EventRegistration × Db). IsOutcome user_id event db d.0 d.1)
          (ok-injective _ (r, db') e₇)
          (saved-IsOutcome h event user_id answers c here saved again enrolled ticketed _ en tickets
            same read),
    )
