-- ===== src/Registrations/Scanning/Tokens.antt =====
-- From an issued QR token back to its ticket.
use uevent_backend.Base.{ℕ, ◌+◌, ◌≡◌, refl, none, some, List, arith, ltb, if◌then◌else◌}
use uevent_backend.Base.Texts.{text_eq, remove_prefix}
use uevent_backend.Common.Errors.{ok, ◌>>=◌}
use uevent_backend.Common.Host.{Host, IsFaithful, is_sorted, is_below, is_plain}
use uevent_backend.Registrations.Models.{EventRegistration, Ticket}
use uevent_backend.Registrations.State.{Db, live_ticket, ticket_of}
use uevent_backend.Registrations.Tickets.{build_qr_payload}
use uevent_backend.Registrations.Qr.{
  RegistrationQr, qr_token, qr_token_ttl, timestamp, issue_registration_qr, get, is_unexpired,
  payload_value, ticket_by_key, resolve_token, resolve_decoded, resolve_ticket_from_payload,
}
use uevent_backend.Registrations.Checkin.{
  resolved, none_if_missing, resolve_compared, resolve_payload,
}
use uevent_backend.Registrations.Scanning.Signatures.{verify_qr_signature_iff}

-- The same host at another time.
abbrev pub at : Host → ℕ → Host
at h time = record h { now = time }

module _ (h : Host) (f : IsFaithful h) where
  -- The token that a payload carries.
  resolve_token-qr_token :
      (later : ℕ) (t t' : Ticket) (tickets : List Ticket)
      → live_ticket t.id tickets ≡ some t'
      → none_if_missing (resolve_token (at h later) (qr_token h t) tickets)
        ≡ ok (if ltb (timestamp later) (timestamp (h.now + qr_token_ttl)) then some t' else none)
  unfolding resolve_token get is_unexpired ticket_by_key text_eq ◌>>=◌
  resolve_token-qr_token later t t' tickets found = rw (f.parse-show t.id, found) (ground arith)

  at-IsFaithful : (later : ℕ) → IsFaithful (at h later)
  at-IsFaithful later = record {
    decode-encode = f.decode-encode;
    parse-show = f.parse-show;
    is_ascii-hmac = f.is_ascii-hmac;
    is_nonempty-hmac = f.is_nonempty-hmac;
  }

  resolve_ticket_from_payload-token :
      (later : ℕ) (t : Ticket) (tickets : List Ticket)
      → resolve_ticket_from_payload
          (at h later)
          (build_qr_payload (h.encode_json (qr_token h t)))
          tickets
        ≡ resolve_token (at h later) (qr_token h t) tickets
  unfolding resolve_ticket_from_payload payload_value resolve_decoded build_qr_payload remove_prefix
      is_sorted is_below is_plain
  resolve_ticket_from_payload-token later t tickets =
      rw (f.decode-encode (qr_token h t) refl refl) refl

  pub resolve_payload-token :
      (later : ℕ) (t t' : Ticket) (tickets : List Ticket)
      → live_ticket t.id tickets ≡ some t'
      → resolve_payload
          (at h later)
          (build_qr_payload (h.encode_json (qr_token h t)))
          (h.hmac (build_qr_payload (h.encode_json (qr_token h t))))
          tickets
        ≡ ok (
            resolved
              (if ltb (timestamp later) (timestamp (h.now + qr_token_ttl)) then some t' else none))
  unfolding resolve_payload resolve_compared ◌>>=◌
  resolve_payload-token later t t' tickets found =
      rw
        (
          (verify_qr_signature_iff (at h later) (build_qr_payload (h.encode_json (qr_token h t))) _
                (at-IsFaithful later)).1
              refl,
          resolve_ticket_from_payload-token later t tickets,
          resolve_token-qr_token later t t' tickets found,
        )
        refl

issued-payload :
    (h : Host) (registration : EventRegistration) (db : Db) (t : Ticket) (qr : RegistrationQr)
    → ticket_of registration.id db.tickets ≡ some t
    → issue_registration_qr h registration db ≡ ok qr
    → qr.qr_payload ≡ build_qr_payload (h.encode_json (qr_token h t))
unfolding issue_registration_qr ◌>>=◌
issued-payload h registration db t qr has issued = ground (arith, has)

issued-signature :
    (h : Host) (registration : EventRegistration) (db : Db) (t : Ticket) (qr : RegistrationQr)
    → ticket_of registration.id db.tickets ≡ some t
    → issue_registration_qr h registration db ≡ ok qr
    → qr.qr_signature ≡ h.hmac (build_qr_payload (h.encode_json (qr_token h t)))
unfolding issue_registration_qr ◌>>=◌
issued-signature h registration db t qr has issued = ground (arith, has)

-- A QR code finds its ticket until it expires, and then nothing: whatever has been written since it
-- was issued, scanning it at a time whose second is below that of the expiry gives the ticket, as
-- it then stands, and at any other time no ticket.
pub resolve_payload-issue_registration_qr :
    (h : Host) (registration : EventRegistration) (db : Db) (t : Ticket) (qr : RegistrationQr)
    (later : ℕ) (t' : Ticket) (tickets : List Ticket)
    → IsFaithful h
    → ticket_of registration.id db.tickets ≡ some t
    → issue_registration_qr h registration db ≡ ok qr
    → live_ticket t.id tickets ≡ some t'
    → resolve_payload (at h later) qr.qr_payload qr.qr_signature tickets
      ≡ ok (
          resolved
            (if ltb (timestamp later) (timestamp (h.now + qr_token_ttl)) then some t' else none))
unfolding issue_registration_qr
resolve_payload-issue_registration_qr h registration db t qr later t' tickets f has issued found =
    rw
      (
        issued-payload h registration db t qr has issued,
        issued-signature h registration db t qr has issued,
      )
      (resolve_payload-token h f later t t' tickets found)
