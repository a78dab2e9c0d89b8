-- ===== src/Tests/Auditing.antt =====
-- Metadata with sensitive keys at two depths, masked for the audit log.
use uevent_backend.Base.{ℕ, ◌≡◌, refl, leb, ◌&&◌, ◌+◌, if◌then◌else◌, [], ◌∷◌}
use uevent_backend.Base.Texts.{Text, codes, text_eq}
use uevent_backend.SystemAdmin.Audit.Masking.{
  AuditData, text, scalar, mapping, items, nil, cons, end, field, mask_sensitive_data, is_key_of,
  is_sensitive, same, mappings, lists, none_left, both, no_fields, hidden, shown,
  mask_sensitive_data-Agree,
}

-- `str.lower` of ASCII texts.
abbrev lower_char : ℕ → ℕ
lower_char c = if leb 65 c && leb c 90 then c + 32 else c

abbrev lower : Text → Text
lower [] = []
lower (c ∷ s) = lower_char c ∷ lower s

abbrev request : Text → ℕ → AuditData
request password token = mapping (
    field (codes "Password") (text password) (
      field (codes "calls") (items (cons (mapping (field (codes "token") (scalar token) end)) nil))
        (field (codes "name") (text (codes "ann")) end)))

masks :
    mask_sensitive_data lower (request (codes "a") 1)
    ≡ mapping (
        field (codes "Password") (text (codes "***REDACTED***")) (
          field
            (codes "calls")
            (items (cons (mapping (field (codes "token") (text (codes "***REDACTED***")) end)) nil))
            (field (codes "name") (text (codes "ann")) end)))
unfolding mask_sensitive_data is_sensitive is_key_of text_eq
masks = refl

mask_sensitive_data-Agree_example :
    mask_sensitive_data lower (request (codes "a") 1)
    ≡ mask_sensitive_data lower (request (codes "b") 2)
unfolding is_sensitive is_key_of text_eq
mask_sensitive_data-Agree_example =
    mask_sensitive_data-Agree lower (request (codes "a") 1) (request (codes "b") 2) (
      mappings (
        hidden (codes "Password") (text (codes "a")) (text (codes "b")) refl (
          shown (codes "calls")
            (lists (
              both (mappings (hidden (codes "token") (scalar 1) (scalar 2) refl no_fields))
                none_left))
            (shown (codes "name") (same (text (codes "ann"))) no_fields))))
