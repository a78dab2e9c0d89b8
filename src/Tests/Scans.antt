-- ===== src/Tests/Scans.antt =====
-- Scans at the tables of `Tests.Data`.
use uevent_backend.Base.{◌+◌, ◌≡◌, ◌↔◌, refl, true, none, some, arith, ltb, if◌then◌else◌}
use uevent_backend.Base.Texts.{codes, is_ascii}
use uevent_backend.Common.Errors.{ok, err, ◌>>=◌, type_error}
use uevent_backend.Orm.Table.{first}
use uevent_backend.Registrations.State.{live_event, live_ticket, ticket_of}
use uevent_backend.Registrations.Tickets.{verify_qr_signature, build_qr_payload}
use uevent_backend.Registrations.Qr.{
  RegistrationQr, qr_token, qr_token_ttl, timestamp, issue_registration_qr,
}
use uevent_backend.Registrations.Checkin.{
  Scan, admit, judge, resolve_payload, resolved, process_checkin_scan,
}
use uevent_backend.Registrations.Scanning.Verdicts.{IsAdmissible, judge-admit_iff}
use uevent_backend.Registrations.Scanning.Outcome.{IsAdmission, process_checkin_scan-success}
use uevent_backend.Registrations.Scanning.Signatures.{
  verify_qr_signature_iff, process_checkin_scan-forged,
}
use uevent_backend.Registrations.Scanning.Tokens.{at, resolve_payload-issue_registration_qr}
use uevent_backend.Tests.Data.{host, host-IsFaithful, concert, seat, ticket, db}
use uevent_backend.Tests.Requests.{gate, admission, admitted, gate-admits}

admissible : IsAdmissible 150_000_000 concert ticket seat
admissible = record {
  here = refl;
  available = refl;
  started = omega arith;
  going_on = omega arith;
  valid = refl;
  unexpired = omega arith;
  coming = refl;
  active = refl;
}

judge-admit_iff_example :
    (judge 150_000_000 concert ticket seat ≡ admit) ↔ IsAdmissible 150_000_000 concert ticket seat
judge-admit_iff_example = judge-admit_iff 150_000_000 concert ticket seat

process_checkin_scan-success_example : IsAdmission host gate db admission admitted
process_checkin_scan-success_example =
    process_checkin_scan-success host gate db admission admitted gate-admits refl

-- A signature that no host makes, and one with a letter that is not ASCII.
abbrev forged : Scan
forged = record gate { qr_payload = some (codes "TICKET:TK-1"); qr_signature = some (codes "00") }

abbrev accented : Scan
accented = record gate { qr_payload = some (codes "TICKET:TK-1"); qr_signature = some (codes "é") }

process_checkin_scan-forged_example : process_checkin_scan host accented db ≡ err type_error
unfolding live_event first is_ascii
process_checkin_scan-forged_example =
    process_checkin_scan-forged host accented db concert host-IsFaithful refl refl (λ e. cc e)

verify_qr_signature_iff_example :
    (verify_qr_signature host (codes "TICKET:TK-1") (codes "5f") ≡ ok true)
    ↔ (codes "5f" ≡ host.hmac (codes "TICKET:TK-1"))
verify_qr_signature_iff_example =
    verify_qr_signature_iff host (codes "TICKET:TK-1") (codes "5f") host-IsFaithful

abbrev code : RegistrationQr
code = record {
  registration_id = 20;
  ticket_code = codes "TK-1";
  qr_payload = build_qr_payload (host.encode_json (qr_token host ticket));
  qr_signature = codes "5f";
  valid_from = 150_000_000;
  valid_to = 165_000_000;
}

-- The code is read five seconds after it was issued, and again after twenty.
resolve_payload-issue_registration_qr_example :
    resolve_payload (at host 155_000_000) code.qr_payload code.qr_signature db.tickets
    ≡ ok (
        resolved (
          if ltb (timestamp 155_000_000) (timestamp (150_000_000 + qr_token_ttl))
          then some ticket
          else none))
unfolding ticket_of issue_registration_qr live_ticket first ◌>>=◌
resolve_payload-issue_registration_qr_example =
    resolve_payload-issue_registration_qr host seat db ticket code 155_000_000 ticket db.tickets
      host-IsFaithful refl refl refl
