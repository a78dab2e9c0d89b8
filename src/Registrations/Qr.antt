-- ===== src/Registrations/Qr.antt =====
-- QR tokens (apps/registrations/services.py): `issue_registration_qr` and the way back from a
-- scanned payload to a ticket.
use uevent_backend.Base.{
  ℕ, ◌+◌, ◌/◌, Bool, true, false, not, ◌&&◌, Option, none, some, List, [], ◌∷◌, leb, if◌then◌else◌,
}
use uevent_backend.Base.Texts.{Text, codes, text_eq, remove_prefix}
use uevent_backend.Common.Errors.{
  Result, ok, ◌>>=◌, ◌>>◌, raise_if, or_raise, validation_error, does_not_exist, invalid_key,
  no_ticket, ticket_not_active,
}
use uevent_backend.Common.Host.{Host, JsonDict, JsonValue, json_nat, json_bool, json_str}
use uevent_backend.Orm.Table.{alive, first}
use uevent_backend.Registrations.Models.{EventRegistration, Ticket, is_valid}
use uevent_backend.Registrations.State.{Db, live_ticket, ticket_of}
use uevent_backend.Registrations.Tickets.{qr_payload_prefix, build_qr_payload}

-- Microseconds in a second, and QR_TOKEN_TTL_SECONDS in microseconds.
abbrev pub second : ℕ
second = 1_000_000

abbrev pub qr_token_ttl : ℕ
qr_token_ttl = 15_000_000

-- `int(t.timestamp())`
abbrev pub timestamp : ℕ → ℕ
timestamp t = t / second

-- The payload of `json.dumps(..., sort_keys=True)`.
abbrev pub qr_token : Host → Ticket → JsonDict
qr_token h ticket =
    (codes "exp", json_nat (timestamp (h.now + qr_token_ttl)))
    ∷ (codes "iat", json_nat (timestamp h.now))
    ∷ (codes "nonce", json_str h.nonce)
    ∷ (codes "ticket_id", json_str (h.show_key ticket.id))
    ∷ []

pub record RegistrationQr : Type 0 where
  pub registration_id : ℕ
  pub ticket_code : Text
  pub qr_payload : Text
  pub qr_signature : Text
  pub valid_from : ℕ
  pub valid_to : ℕ

unfoldable pub issue_registration_qr : Host → EventRegistration → Db → Result RegistrationQr
unfolding ticket_of build_qr_payload
issue_registration_qr h registration db = do
  ticket ← or_raise (ticket_of registration.id db.tickets) (validation_error no_ticket)
  raise_if (not (is_valid ticket.status)) (validation_error ticket_not_active)
  ok (record {
    registration_id = registration.id;
    ticket_code = ticket.ticket_code;
    qr_payload = build_qr_payload (h.encode_json (qr_token h ticket));
    qr_signature = h.hmac (build_qr_payload (h.encode_json (qr_token h ticket)));
    valid_from = h.now;
    valid_to = h.now + qr_token_ttl;
  })

-- `token_payload.get(name)`; of a name that occurs twice the parser keeps one, which is the host's
-- affair.
unfoldable pub get : Text → JsonDict → Option JsonValue
get name [] = none
get name ((n, v) ∷ d) = if text_eq n name then some v else get name d

-- `isinstance(v, int) and not v <= now`, for a `now` from the clock
unfoldable pub is_unexpired : Option JsonValue → ℕ → Bool
is_unexpired (some (json_nat exp)) now = not (leb exp now)
is_unexpired (some (json_bool true)) now = not (leb 1 now)
is_unexpired _ now = false

-- `token_payload["ticket_id"]` where it is a `str`
abbrev pub as_text : Option JsonValue → Option Text
as_text (some (json_str s)) = some s
as_text _ = none

-- `payload_value`: the payload without the prefix, if it has it.
unfoldable pub payload_value : Text → Text
payload_value qr_payload = elim (remove_prefix qr_payload_prefix qr_payload) [
  | some value ↦ value
  | none ↦ qr_payload
]

-- `Ticket.objects.get(ticket_code=...)`, of `Ticket.lock_for_checkin`
unfoldable pub lock_for_checkin : Text → List Ticket → Result Ticket
lock_for_checkin code tickets =
    or_raise (first (λ t. alive t.deleted_at && text_eq t.ticket_code code) tickets) does_not_exist

-- `.get(id=ticket_id)` with a text for the key
unfoldable pub ticket_by_key : Host → Text → List Ticket → Result Ticket
unfolding live_ticket
ticket_by_key h key tickets = do
  id ← or_raise (h.parse_key key) invalid_key
  or_raise (live_ticket id tickets) does_not_exist

unfoldable pub resolve_token : Host → JsonDict → List Ticket → Result Ticket
unfolding get is_unexpired ticket_by_key
resolve_token h token tickets = do
  ticket_id ← or_raise (as_text (get (codes "ticket_id") token)) does_not_exist
  raise_if (not (is_unexpired (get (codes "exp") token) (timestamp h.now))) does_not_exist
  ticket_by_key h ticket_id tickets

-- A token that is no object, or an empty one, is read as a ticket code.
unfoldable pub resolve_decoded : Host → Text → Option JsonDict → List Ticket → Result Ticket
unfolding resolve_token lock_for_checkin
resolve_decoded h value none tickets = lock_for_checkin value tickets
resolve_decoded h value (some []) tickets = lock_for_checkin value tickets
resolve_decoded h value (some (field ∷ fields)) tickets = resolve_token h (field ∷ fields) tickets

unfoldable pub resolve_ticket_from_payload : Host → Text → List Ticket → Result Ticket
unfolding payload_value
resolve_ticket_from_payload h qr_payload tickets =
    let value = payload_value qr_payload in resolve_decoded h value (h.decode_json value) tickets
