-- ===== src/Registrations/Scanning/Signatures.antt =====
-- What a signature is worth.
use uevent_backend.Base.{
  ◌≡◌, ◌≢◌, ◌↔◌, refl, true, false, some, [], ◌∷◌, arith, if◌then◌else◌, Bool-cases, inl, inr,
}
use uevent_backend.Base.Texts.{Text, text_eq_iff, is_ascii, is_nonempty}
use uevent_backend.Common.Errors.{ok, err, ◌>>=◌, type_error}
use uevent_backend.Common.Host.{Host, IsFaithful}
use uevent_backend.Orm.Table.{append}
use uevent_backend.Events.Models.{Event}
use uevent_backend.Registrations.Models.{CheckinResult}
use uevent_backend.Registrations.State.{Db, live_event}
use uevent_backend.Registrations.Tickets.{compare_digest, verify_qr_signature}
use uevent_backend.Registrations.Checkin.{
  Scan, or_blank, bad_signature, resolve_compared, resolve_payload, source_of, look_up, resolve,
  scan_ticket, log_entry, process_checkin_scan,
}

-- A signature is accepted exactly if it is the keyed hash of the payload.
pub verify_qr_signature_iff :
    (h : Host) (payload signature : Text)
    → IsFaithful h
    → (verify_qr_signature h payload signature ≡ ok true) ↔ (signature ≡ h.hmac payload)
unfolding verify_qr_signature compare_digest
verify_qr_signature_iff h payload signature f = (
  λ e. ground (arith, text_eq_iff (h.hmac payload) signature),
  λ e. rw (e) (
      ground (
        arith,
        text_eq_iff (h.hmac payload) (h.hmac payload),
        f.is_ascii-hmac payload,
        f.is_nonempty-hmac payload,
      )),
)

-- What a wrong signature comes to.
pub verify_qr_signature_wrong :
    (h : Host) (payload signature : Text)
    → IsFaithful h
    → signature ≢ h.hmac payload
    → verify_qr_signature h payload signature
      ≡ (if is_ascii signature then ok false else err type_error)
unfolding verify_qr_signature compare_digest is_ascii
verify_qr_signature_wrong h payload [] f ne = refl
verify_qr_signature_wrong h payload (c ∷ s) f ne =
    ground (arith, text_eq_iff (h.hmac payload) (c ∷ s), f.is_ascii-hmac payload)

-- A scan of a payload with a wrong signature is logged as malformed, names no ticket and changes
-- nothing else; but if the signature has a character that is not ASCII, the scan ends in a
-- `TypeError` and leaves no log entry.
pub process_checkin_scan-forged :
    (h : Host) (scan : Scan) (db : Db) (event : Event)
    → IsFaithful h
    → live_event scan.event_id db.events ≡ some event
    → is_nonempty (or_blank scan.qr_payload) ≡ true
    → or_blank scan.qr_signature ≢ h.hmac (or_blank scan.qr_payload)
    → process_checkin_scan h scan db ≡ (
        if is_ascii (or_blank scan.qr_signature)
        then ok (
          log_entry h event bad_signature scan CheckinResult.invalid_format,
          record db {
            checkin_logs =
                append db.checkin_logs
                  (log_entry h event bad_signature scan CheckinResult.invalid_format);
          },
        )
        else err type_error)
unfolding process_checkin_scan resolve source_of look_up resolve_payload resolve_compared
    scan_ticket ◌>>=◌
process_checkin_scan-forged h scan db event f found payload wrong =
    rw
      (
        found,
        payload,
        verify_qr_signature_wrong h (or_blank scan.qr_payload) (or_blank scan.qr_signature) f wrong,
      )
      (elim (Bool-cases (is_ascii (or_blank scan.qr_signature))) [
        | inl e ↦ rw e refl
        | inr e ↦ rw e refl
      ])
