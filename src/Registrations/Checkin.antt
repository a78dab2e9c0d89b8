-- ===== src/Registrations/Checkin.antt =====
-- `process_checkin_scan` (apps/registrations/services.py).
use uevent_backend.Base.{
  true, false, ℕ, Bool, false, not, ◌&&◌, ◌||◌, Option, none, some, List, [], ◌∷◌, ◌==◌, ltb, leb,
  if◌then◌else◌,
}
use uevent_backend.Base.Texts.{Text, strip, is_nonempty}
use uevent_backend.Common.Errors.{
  Result, ok, err, ◌>>=◌, or_raise, does_not_exist, multiple_objects,
}
use uevent_backend.Common.Host.{Host}
use uevent_backend.Orm.Table.{alive, find, select, append, update}
use uevent_backend.Users.{User}
use uevent_backend.Events.Models.{Event, is_available}
use uevent_backend.Registrations.Models.{
  EventRegistration, RegistrationStatus, Ticket, TicketStatus, CheckinResult, CheckinLog,
  is_inactive, is_checked_in, is_used, is_void, is_valid,
}
use uevent_backend.Registrations.State.{Db, registration_key, ticket_key, live_event}
use uevent_backend.Registrations.Tickets.{verify_qr_signature}
use uevent_backend.Registrations.Qr.{lock_for_checkin, resolve_ticket_from_payload}

-- The arguments of a scan.
pub record Scan : Type 0 where
  pub event_id : ℕ
  pub ticket_code : Option Text
  pub email : Option Text
  pub qr_payload : Option Text
  pub qr_signature : Option Text
  pub scanner_user_id : Option ℕ
  pub note : Option Text

-- `get` on a filter that may match several rows
unfoldable pub only : List Ticket → Result Ticket
only [] = err does_not_exist
only (t ∷ []) = ok t
only (t ∷ u ∷ _) = err multiple_objects

-- The ticket's registration is at the event, and its user has the address but for case.
unfoldable pub is_ticket_of_email : Host → Db → ℕ → Text → Ticket → Bool
is_ticket_of_email h db event_id email t =
    elim (find registration_key t.registration_id db.registrations) [
      | none ↦ false
      | some r ↦ (r.event_id == event_id) && elim (find (λ (u : User). u.id) r.user_id db.users) [
        | none ↦ false
        | some u ↦ h.iexact u.email email
      ]
    ]

unfoldable pub resolve_ticket_from_email : Host → ℕ → Text → Db → Result Ticket
unfolding only is_ticket_of_email
resolve_ticket_from_email h event_id email db = only (
    select (λ t. alive t.deleted_at && is_ticket_of_email h db event_id (strip email) t) db.tickets)

-- `except Ticket.DoesNotExist: ticket = None`; any other exception goes on.
abbrev pub none_if_missing : Result Ticket → Result (Option Ticket)
none_if_missing (ok t) = ok (some t)
none_if_missing (err does_not_exist) = ok none
none_if_missing (err e) = err e

-- `value or ""`
abbrev pub or_blank : Option Text → Text
or_blank none = []
or_blank (some s) = s

-- What the input leads to: a ticket or none, or a payload with a wrong signature.
pub data Resolved : Type 0 where
  bad_signature : Resolved
  resolved : Option Ticket → Resolved

unfoldable pub resolve_code : Text → List Ticket → Result (Option Ticket)
unfolding lock_for_checkin
resolve_code code tickets =
    if is_nonempty (strip code)
    then none_if_missing (lock_for_checkin (strip code) tickets)
    else ok none

-- A payload whose signature has been compared.
unfoldable pub resolve_compared : Host → Bool → Text → List Ticket → Result Resolved
resolve_compared h false payload tickets = ok bad_signature
resolve_compared h true payload tickets = do
  ticket ← none_if_missing (resolve_ticket_from_payload h payload tickets)
  ok (resolved ticket)

unfoldable pub resolve_payload : Host → Text → Text → List Ticket → Result Resolved
resolve_payload h payload signature tickets = do
  genuine ← verify_qr_signature h payload signature
  resolve_compared h genuine payload tickets

-- What a scan is looked up by.
pub data Source : Type 0 where
  by_payload : Text → Text → Source
  by_code by_email : Text → Source
  by_nothing : Source

-- The payload goes before the code, and the code before the address.
unfoldable pub source_of : Scan → Source
source_of scan =
    if is_nonempty (or_blank scan.qr_payload)
    then by_payload (or_blank scan.qr_payload) (or_blank scan.qr_signature)
    else if is_nonempty (or_blank scan.ticket_code)
    then by_code (or_blank scan.ticket_code)
    else if is_nonempty (or_blank scan.email)
    then by_email (or_blank scan.email)
    else by_nothing

unfoldable pub look_up : Host → ℕ → Source → Db → Result Resolved
look_up h event_id (by_payload payload signature) db =
    resolve_payload h payload signature db.tickets
look_up h event_id (by_code code) db = do
  ticket ← resolve_code code db.tickets
  ok (resolved ticket)
look_up h event_id (by_email email) db = do
  ticket ← none_if_missing (resolve_ticket_from_email h event_id email db)
  ok (resolved ticket)
look_up h event_id by_nothing db = ok (resolved none)

unfoldable pub resolve : Host → ℕ → Scan → Db → Result Resolved
resolve h event_id scan db = look_up h event_id (source_of scan) db

-- What is to be done with a ticket that was found.
pub data Verdict : Type 0 where
  refuse : CheckinResult → Verdict
  expire : Verdict
  admit : Verdict

-- The tests of the scan, in their order.
unfoldable pub judge : ℕ → Event → Ticket → EventRegistration → Verdict
judge now event ticket registration =
    if not (registration.event_id == event.id)
    then refuse CheckinResult.invalid_ticket
    else if not (is_available event.status)
    then refuse CheckinResult.event_unavailable
    else if ltb now event.start_at
    then refuse CheckinResult.event_unavailable
    else if ltb event.end_at now
    then refuse CheckinResult.event_unavailable
    else if is_used ticket.status || is_checked_in registration.status
    then refuse CheckinResult.already_checked_in
    else if is_void ticket.status
    then refuse CheckinResult.invalid_ticket
    else if is_inactive registration.status
    then refuse CheckinResult.invalid_ticket
    else if leb ticket.expires_at now
    then (if is_valid ticket.status then expire else refuse CheckinResult.invalid_ticket)
    else admit

abbrev pub expired_ticket : Ticket → Ticket
expired_ticket t = record t { status = TicketStatus.expired }

abbrev pub used_ticket : ℕ → Ticket → Ticket
used_ticket now t = record t { status = TicketStatus.used; used_at = some now }

abbrev pub checked_in_registration : EventRegistration → EventRegistration
checked_in_registration r = record r { status = RegistrationStatus.checked_in }

-- The writes of a verdict, and the result that is logged.
unfoldable pub carry_out : ℕ → Verdict → Ticket → EventRegistration → Db → CheckinResult × Db
carry_out now (refuse result) ticket registration db = (result, db)
carry_out now expire ticket registration db = (
  CheckinResult.invalid_ticket,
  record db { tickets = update ticket_key ticket.id expired_ticket db.tickets },
)
carry_out now admit ticket registration db = (
  CheckinResult.success,
  record db {
    tickets = update ticket_key ticket.id (used_ticket now) db.tickets;
    registrations =
        if is_checked_in registration.status
        then db.registrations
        else update registration_key registration.id checked_in_registration db.registrations;
  },
)

unfoldable pub scan_ticket : Host → Event → Resolved → Db → Result (CheckinResult × Db)
unfolding judge carry_out
scan_ticket h event bad_signature db = ok (CheckinResult.invalid_format, db)
scan_ticket h event (resolved none) db = ok (CheckinResult.invalid_ticket, db)
scan_ticket h event (resolved (some ticket)) db = do
  registration ←
      or_raise (find registration_key ticket.registration_id db.registrations) does_not_exist
  ok (carry_out h.now (judge h.now event ticket registration) ticket registration db)

abbrev pub ticket_id : Resolved → Option ℕ
ticket_id bad_signature = none
ticket_id (resolved none) = none
ticket_id (resolved (some t)) = some t.id

abbrev pub log_entry : Host → Event → Resolved → Scan → CheckinResult → CheckinLog
log_entry h event found scan result = record {
  id = h.new_id 2;
  event_id = event.id;
  ticket_id = ticket_id found;
  scanner_user_id = scan.scanner_user_id;
  checked_in_at = h.now;
  result = result;
  note = scan.note;
}

-- The log entry carries the result and the ticket that the caller is given too.
unfoldable pub process_checkin_scan : Host → Scan → Db → Result (CheckinLog × Db)
process_checkin_scan h scan db = do
  event ← or_raise (live_event scan.event_id db.events) does_not_exist
  found ← resolve h event.id scan db
  (result, db') ← scan_ticket h event found db
  let log = log_entry h event found scan result
  ok (log, record db' { checkin_logs = append db'.checkin_logs log })
