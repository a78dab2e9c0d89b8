-- ===== src/Lifecycle.antt =====
-- The registration tables under any sequence of these requests: registering and
-- cancelling (apps/registrations/views.py), issuing tickets, scanning, and what administrators do
-- (apps/system_admin/services/ticket_services.py). Requests run one after the other; two that
-- overlap are the matter of `Lifecycle.Race`. The organizers' PATCH of a ticket and of an event
-- write a status and a capacity without a test, and are no steps here: see `Lifecycle.Override`.
pub mod Safety
pub mod Race
pub mod Override
use uevent_backend.Base.{ℕ, ◌≡◌, Bool, Option, List}
use uevent_backend.Base.Texts.{Text}
use uevent_backend.Common.Errors.{ok}
use uevent_backend.Common.Host.{Host}
use uevent_backend.Registrations.Models.{EventRegistration, Ticket, CheckinLog}
use uevent_backend.Registrations.State.{Db}
use uevent_backend.Registrations.Tickets.{create_ticket_for_registration}
use uevent_backend.Registrations.Register.{create_event_registration}
use uevent_backend.Registrations.Cancel.{
  Snapshot, load, cancel_event_registration, grant_cohost_role_to_registration,
}
use uevent_backend.Registrations.Checkin.{Scan, process_checkin_scan}
use uevent_backend.SystemAdmin.Audit.{AuditEntry}
use uevent_backend.SystemAdmin.Tickets.{cancel_ticket, restore_ticket, process_admin_checkin}

-- A request that has been answered without an error.
pub data Step (db db' : Db) : Type 0 where
  register :
      (h : Host) (user_id event_id : ℕ) (answers : Option (List Text)) (r : EventRegistration)
      → create_event_registration h user_id event_id answers db ≡ ok (r, db')
      → Step db db'
  cancel :
      (h : Host) (p : EventRegistration → Bool) (seen : Snapshot) (reason : Option Text)
      (r : EventRegistration)
      → load p db ≡ ok seen
      → cancel_event_registration h seen reason db ≡ ok (r, db')
      → Step db db'
  issue :
      (h : Host) (registration_id : ℕ) (t : Ticket)
      → create_ticket_for_registration h registration_id db ≡ ok (t, db')
      → Step db db'
  scan :
      (h : Host) (input : Scan) (log : CheckinLog)
      → process_checkin_scan h input db ≡ ok (log, db')
      → Step db db'
  grant_cohost :
      (h : Host) (event_id registration_id : ℕ)
      → grant_cohost_role_to_registration h event_id registration_id db ≡ ok db'
      → Step db db'
  admin_cancel :
      (h : Host) (actor ticket_id : ℕ) (reason : Text) (a : AuditEntry)
      → cancel_ticket h actor ticket_id reason db ≡ ok (a, db')
      → Step db db'
  admin_restore :
      (h : Host) (actor ticket_id : ℕ) (a : AuditEntry)
      → restore_ticket h actor ticket_id db ≡ ok (a, db')
      → Step db db'
  admin_scan :
      (h : Host) (actor : ℕ) (input : Scan) (log : CheckinLog) (a : AuditEntry)
      → process_admin_checkin h actor input db ≡ ok (log, a, db')
      → Step db db'

pub data Reach (start : Db) : Db → Type 0 where
  here : Reach start start
  next : {db db' : Db} → Reach start db → Step db db' → Reach start db'
