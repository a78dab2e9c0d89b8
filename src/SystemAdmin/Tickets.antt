-- ===== src/SystemAdmin/Tickets.antt =====
-- AdminTicketService.cancel_ticket, restore_ticket and process_admin_checkin
-- (apps/system_admin/services/ticket_services.py).
pub mod Consistency
use uevent_backend.Base.{ℕ, not, ◌||◌, none, some, leb, is_some}
use uevent_backend.Base.Texts.{Text, codes}
use uevent_backend.Common.Errors.{
  Result, ok, ◌>>=◌, ◌>>◌, raise_if, or_raise, validation_error, not_found, does_not_exist,
  used_ticket, cancelled_ticket, not_cancelled_ticket, not_cancelled_registration, ticket_expired,
  event_unavailable, event_full,
}
use uevent_backend.Common.Host.{Host}
use uevent_backend.Orm.Table.{find, update}
use uevent_backend.Events.Models.{Event, is_available}
use uevent_backend.Registrations.Models.{
  EventRegistration, RegistrationStatus, Ticket, TicketStatus, CheckinLog, is_used,
  is_cancelled_ticket, is_cancelled,
}
use uevent_backend.Registrations.State.{
  Db, event_key, registration_key, ticket_key, live_ticket, live_event, active_registration_count,
}
use uevent_backend.Registrations.Register.{is_full}
use uevent_backend.Registrations.Cancel.{cancel_event_registration}
use uevent_backend.Registrations.Checkin.{Scan, process_checkin_scan}
use uevent_backend.SystemAdmin.Audit.{AuditEntry, entry}

-- The ticket and its registration are read under a lock on the ticket. The related ticket of the
-- registration is then the one that was locked.
unfoldable pub cancel_ticket : Host → ℕ → ℕ → Text → Db → Result (AuditEntry × Db)
cancel_ticket h actor ticket_id reason db = do
  ticket ← or_raise (live_ticket ticket_id db.tickets) not_found
  registration ←
      or_raise (find registration_key ticket.registration_id db.registrations) does_not_exist
  raise_if (is_used ticket.status) (validation_error used_ticket)
  raise_if (is_cancelled_ticket ticket.status) (validation_error cancelled_ticket)
  (_, db') ←
      cancel_event_registration h (record { registration = registration; ticket = some ticket })
        (some reason) db
  ok (entry "cancel_ticket" actor ticket.id, db')

-- What `restore_ticket` writes.
abbrev pub reinstated : EventRegistration → EventRegistration
reinstated r = record r {
  status = RegistrationStatus.registered;
  cancelled_at = none;
  cancel_reason = none;
}

abbrev pub revalidated : Ticket → Ticket
revalidated t = record t { status = TicketStatus.valid; used_at = none }

-- The guards of `restore_ticket`, in their order.
unfoldable pub check_restorable : ℕ → Ticket → EventRegistration → Event → ℕ → Result (Unit {0})
check_restorable now ticket registration event active = do
  raise_if (not (is_cancelled_ticket ticket.status)) (validation_error not_cancelled_ticket)
  raise_if (not (is_cancelled registration.status)) (validation_error not_cancelled_registration)
  raise_if (is_some ticket.used_at) (validation_error used_ticket)
  raise_if (leb ticket.expires_at now || leb event.end_at now) (validation_error ticket_expired)
  raise_if (not (is_available event.status)) (validation_error event_unavailable)
  raise_if (is_full event.max_capacity active) (validation_error event_full)

unfoldable pub restore_ticket : Host → ℕ → ℕ → Db → Result (AuditEntry × Db)
restore_ticket h actor ticket_id db = do
  ticket ← or_raise (live_ticket ticket_id db.tickets) not_found
  registration ←
      or_raise (find registration_key ticket.registration_id db.registrations) does_not_exist
  event ← or_raise (find event_key registration.event_id db.events) does_not_exist
  check_restorable h.now ticket registration event
      (active_registration_count event.id db.registrations)
  ok (
    entry "restore_ticket" actor ticket.id,
    record db {
      registrations = update registration_key registration.id reinstated db.registrations;
      tickets = update ticket_key ticket.id revalidated db.tickets;
    },
  )

-- `process_checkin_scan` with the missing event turned into `NotFound`, and an audit entry. Only
-- the event's `DoesNotExist` can come out of the scan.
unfoldable pub process_admin_checkin : Host → ℕ → Scan → Db → Result (CheckinLog × AuditEntry × Db)
process_admin_checkin h actor scan db = do
  _ ← or_raise (live_event scan.event_id db.events) not_found
  (log, db') ← process_checkin_scan h scan db
  ok (
    log,
    record {
      action = codes "admin_ticket_checkin_scan";
      actor_id = actor;
      target_id = log.ticket_id;
    },
    db',
  )
