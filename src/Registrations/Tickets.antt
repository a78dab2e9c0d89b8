-- ===== src/Registrations/Tickets.antt =====
-- Tickets (apps/registrations/services.py): codes, signatures, and how a ticket is issued.
pub mod Codes
use uevent_backend.Base.{
  ℕ, zero, suc, ◌+◌, Bool, false, not, ◌&&◌, ◌||◌, Option, none, some, List, ◌++◌, ◌==◌,
  if◌then◌else◌,
}
use uevent_backend.Base.Texts.{Text, codes, text_eq, is_nonempty, is_ascii}
use uevent_backend.Common.Errors.{
  Result, ok, err, ◌>>=◌, ◌>>◌, raise_if, or_raise, validation_error, conflict, does_not_exist,
  integrity_error, type_error, out_of_draws, ticket_exists, not_registered,
}
use uevent_backend.Common.Host.{Host}
use uevent_backend.Orm.Table.{alive, find, exists, append, update}
use uevent_backend.Events.Models.{Event}
use uevent_backend.Registrations.Models.{EventRegistration, Ticket, TicketStatus, is_registered}
use uevent_backend.Registrations.State.{Db, event_key, ticket_key, live_registration, ticket_of}

abbrev pub qr_payload_prefix : Text
qr_payload_prefix = codes "TICKET:"

-- `generate_ticket_code`: draws until no live ticket has the code. `k` counts the draws so far and
-- the fuel those that are left.
unfoldable pub generate_ticket_code : Host → List Ticket → ℕ → ℕ → Option Text
generate_ticket_code h tickets zero k = none
generate_ticket_code h tickets (suc fuel) k =
    let code : Text = codes "TK-" ++ h.token_hex k in
    let rest = generate_ticket_code h tickets fuel (k + 1) in
    if exists (λ t. alive t.deleted_at && text_eq t.ticket_code code) tickets
    then rest
    else some code

unfoldable pub build_qr_payload : Text → Text
build_qr_payload ticket_code = qr_payload_prefix ++ ticket_code

-- `hmac.compare_digest` of two texts, which must be ASCII.
unfoldable pub compare_digest : Text → Text → Result Bool
compare_digest a b = if is_ascii a && is_ascii b then ok (text_eq a b) else err type_error

unfoldable pub verify_qr_signature : Host → Text → Text → Result Bool
unfolding compare_digest
verify_qr_signature h payload signature =
    if not (is_nonempty signature) then ok false else compare_digest (h.hmac payload) signature

-- The row of `_issue_default_ticket`.
unfoldable pub default_ticket : Host → EventRegistration → Event → Text → Ticket
unfolding build_qr_payload
default_ticket h registration event code = record {
  id = h.new_id 1;
  deleted_at = none;
  registration_id = registration.id;
  ticket_code = code;
  qr_payload = build_qr_payload code;
  qr_signature = h.hmac (build_qr_payload code);
  status = TicketStatus.valid;
  issued_at = h.now;
  used_at = none;
  expires_at = event.end_at;
}

-- A row of the table, dead ones included, that shares a unique column with a new one.
abbrev pub clashes_with : Ticket → Ticket → Bool
clashes_with new t =
    (t.id == new.id)
    || (t.registration_id == new.registration_id)
    || text_eq t.ticket_code new.ticket_code
    || text_eq t.qr_payload new.qr_payload

-- `Ticket.objects.create` under the unique key, registration, code and payload.
unfoldable pub insert_ticket : Ticket → List Ticket → Result (List Ticket)
insert_ticket new tickets =
    if exists (clashes_with new) tickets then err integrity_error else ok (append tickets new)

unfoldable pub issue_default_ticket : Host → EventRegistration → Event → Db → Result (Ticket × Db)
unfolding generate_ticket_code default_ticket insert_ticket
issue_default_ticket h registration event db = do
  code ← or_raise (generate_ticket_code h db.tickets h.draws 0) out_of_draws
  tickets ← insert_ticket (default_ticket h registration event code) db.tickets
  ok (default_ticket h registration event code, record db { tickets = tickets })

-- What `_restore_ticket_for_registration` writes.
abbrev pub restored : Event → Ticket → Ticket
restored event t = record t {
  status = TicketStatus.valid;
  used_at = none;
  expires_at = event.end_at;
}

-- By the registration's ticket, if it has one.
unfoldable pub restore_or_issue :
    Host → EventRegistration → Event → Option Ticket → Db → Result (Ticket × Db)
restore_or_issue h registration event none db = issue_default_ticket h registration event db
restore_or_issue h registration event (some ticket) db = ok (
  restored event ticket,
  record db { tickets = update ticket_key ticket.id (restored event) db.tickets },
)

unfoldable pub restore_ticket_for_registration :
    Host → EventRegistration → Event → Db → Result (Ticket × Db)
restore_ticket_for_registration h registration event db =
    restore_or_issue h registration event (ticket_of registration.id db.tickets) db

unfoldable pub create_ticket_for_registration : Host → ℕ → Db → Result (Ticket × Db)
create_ticket_for_registration h registration_id db = do
  registration ← or_raise (live_registration registration_id db.registrations) does_not_exist
  raise_if (exists (λ t. alive t.deleted_at && t.registration_id == registration.id) db.tickets)
      (conflict ticket_exists)
  raise_if (not (is_registered registration.status)) (validation_error not_registered)
  event ← or_raise (find event_key registration.event_id db.events) does_not_exist
  issue_default_ticket h registration event db
