-- ===== src/Registrations/Cancel.antt =====
-- `cancel_event_registration` and `grant_cohost_role_to_registration`
-- (apps/registrations/services.py).
use uevent_backend.Base.{ℕ, Bool, ◌&&◌, Option, none, some, List, ◌==◌, if◌then◌else◌}
use uevent_backend.Base.Texts.{Text, is_nonempty}
use uevent_backend.Common.Errors.{
  Result, ok, err, ◌>>=◌, ◌>>◌, raise_if, or_raise, validation_error, not_found, does_not_exist,
  integrity_error, already_cancelled, already_checked_in, inactive_registration,
}
use uevent_backend.Common.Host.{Host}
use uevent_backend.Orm.Table.{alive, first, exists, append, update}
use uevent_backend.Events.Models.{EventOrganizer, OrganizerRole}
use uevent_backend.Notifications.Registered.{notify_registration_cancelled}
use uevent_backend.Registrations.Models.{
  EventRegistration, RegistrationStatus, Ticket, TicketStatus, is_inactive, is_checked_in,
  is_cancelled_ticket,
}
use uevent_backend.Registrations.State.{
  Db, registration_key, ticket_key, live_registration, ticket_of,
}

-- A registration as a view has loaded it, with its ticket: the service takes no lock and reads
-- neither again, so that both may be older than the tables.
pub record Snapshot : Type 0 where
  pub registration : EventRegistration
  pub ticket : Option Ticket

-- `reason or None`
abbrev pub reason_or_none : Option Text → Option Text
reason_or_none none = none
reason_or_none (some reason) = if is_nonempty reason then some reason else none

abbrev pub cancelled : Host → Option Text → EventRegistration → EventRegistration
cancelled h reason r = record r {
  status = RegistrationStatus.cancelled;
  cancelled_at = some h.now;
  cancel_reason = reason_or_none reason;
}

abbrev pub cancelled_ticket : Ticket → Ticket
cancelled_ticket t = record t { status = TicketStatus.cancelled }

unfoldable pub cancel_ticket_of : Option Ticket → List Ticket → List Ticket
cancel_ticket_of none tickets = tickets
cancel_ticket_of (some t) tickets =
    if is_cancelled_ticket t.status
    then tickets
    else update ticket_key t.id cancelled_ticket tickets

unfoldable pub cancel_event_registration :
    Host → Snapshot → Option Text → Db → Result (EventRegistration × Db)
unfolding cancel_ticket_of live_registration
cancel_event_registration h seen reason db = do
  raise_if (is_inactive seen.registration.status) (validation_error already_cancelled)
  raise_if (is_checked_in seen.registration.status) (validation_error already_checked_in)
  let rows = update registration_key seen.registration.id (cancelled h reason) db.registrations
  registration ← or_raise (live_registration seen.registration.id rows) does_not_exist
  ok (
    registration,
    record db {
      registrations = rows;
      tickets = cancel_ticket_of seen.ticket db.tickets;
      mailbox = notify_registration_cancelled db.users registration db.mailbox;
    },
  )

-- `get_object_or_404(EventRegistration.objects.select_related("event", "user", "ticket"), ...)`
unfoldable pub load : (EventRegistration → Bool) → Db → Result Snapshot
unfolding ticket_of
load p db = do
  registration ← or_raise (first (λ r. alive r.deleted_at && p r) db.registrations) not_found
  ok (record { registration = registration; ticket = ticket_of registration.id db.tickets })

-- MyEventRegistrationCancelView.delete (apps/registrations/views.py), with no other request between
-- its two steps.
unfoldable pub cancel_mine : Host → ℕ → ℕ → Db → Result (EventRegistration × Db)
unfolding load cancel_event_registration
cancel_mine h event_id user_id db = do
  seen ← load (λ r. r.event_id == event_id && r.user_id == user_id) db
  cancel_event_registration h seen none db

-- The row that `update_or_create` finds is searched among the live ones, but a dead one still holds
-- the unique (event, user).
abbrev co_host : EventOrganizer → EventOrganizer
co_host o = record o { organizer_role = OrganizerRole.co_host }

unfoldable pub update_or_create_co_host :
    Host → ℕ → ℕ → List EventOrganizer → Result (List EventOrganizer)
update_or_create_co_host h event_id user_id organizers =
    elim (first (λ o. alive o.deleted_at && (o.event_id == event_id && o.user_id == user_id))
      organizers) [
        | some o ↦ ok (update (λ (o' : EventOrganizer). o'.id) o.id co_host organizers)
        | none ↦
            if exists (λ o. o.event_id == event_id && o.user_id == user_id) organizers
            then err integrity_error
            else ok (
                append organizers (record {
                  id = h.new_id 3;
                  deleted_at = none;
                  event_id = event_id;
                  user_id = user_id;
                  organizer_role = OrganizerRole.co_host;
                  joined_at = h.now;
                }))
      ]

unfoldable pub grant_cohost_role_to_registration : Host → ℕ → ℕ → Db → Result Db
unfolding update_or_create_co_host
grant_cohost_role_to_registration h event_id registration_id db = do
  registration ←
      or_raise
        (first (λ r. alive r.deleted_at && (r.id == registration_id && r.event_id == event_id))
          db.registrations)
        not_found
  raise_if (is_inactive registration.status) (validation_error inactive_registration)
  organizers ← update_or_create_co_host h event_id registration.user_id db.organizers
  ok (record db { organizers = organizers })
