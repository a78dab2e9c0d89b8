-- ===== src/SystemAdmin/Audit/Masking.antt =====
-- AdminAuditService.mask_sensitive_data (apps/system_admin/services/audit_service.py): what of the
-- metadata is kept out of the audit log. Keys are texts, and `str.lower` is a parameter.

use uevent_backend.Base.{ℕ, ◌≡◌, refl, ap, Bool, true, false, ◌||◌, List, [], ◌∷◌, if◌then◌else◌}
use uevent_backend.Base.Texts.{Text, codes, text_eq}

mutual
  pub data AuditData : Type 0 where
    text : Text → AuditData
    -- any other value that holds none, which is passed on as it is
    scalar : ℕ → AuditData
    mapping : Fields → AuditData
    items : Items → AuditData
    tuple : Items → AuditData

  pub data Items : Type 0 where
    nil : Items
    cons : AuditData → Items → Items

  pub data Fields : Type 0 where
    end : Fields
    field : Text → AuditData → Fields → Fields

abbrev pub sensitive_keys : List Text
sensitive_keys =
    codes "authorization"
    ∷ codes "access"
    ∷ codes "access_token"
    ∷ codes "refresh"
    ∷ codes "refresh_token"
    ∷ codes "token"
    ∷ codes "password"
    ∷ codes "secret"
    ∷ codes "api_key"
    ∷ []

abbrev pub mask_value : AuditData
mask_value = text (codes "***REDACTED***")

-- `key in keys`
unfoldable pub is_key_of : Text → List Text → Bool
is_key_of key [] = false
is_key_of key (k ∷ keys) = text_eq key k || is_key_of key keys

module _ (lower : Text → Text) where
  unfoldable pub is_sensitive : Text → Bool
  unfolding is_key_of
  is_sensitive key = is_key_of (lower key) sensitive_keys

  unfoldable mutual
    pub mask_sensitive_data : AuditData → AuditData
    mask_sensitive_data (text s) = text s
    mask_sensitive_data (scalar n) = scalar n
    mask_sensitive_data (mapping fs) = mapping (mask_fields fs)
    mask_sensitive_data (items xs) = items (mask_items xs)
    mask_sensitive_data (tuple xs) = tuple (mask_items xs)

    pub mask_items : Items → Items
    mask_items nil = nil
    mask_items (cons x xs) = cons (mask_sensitive_data x) (mask_items xs)

    pub mask_fields : Fields → Fields
    mask_fields end = end
    mask_fields (field key item fs) =
        field key (if is_sensitive key then mask_value else mask_sensitive_data item)
          (mask_fields fs)

  -- Metadata that differ only in what sensitive keys hold.
  mutual
    pub data Agree : AuditData → AuditData → Type 0 where
      same : (v : AuditData) → Agree v v
      mappings : {fs gs : Fields} → AgreeFields fs gs → Agree (mapping fs) (mapping gs)
      lists : {xs ys : Items} → AgreeItems xs ys → Agree (items xs) (items ys)
      tuples : {xs ys : Items} → AgreeItems xs ys → Agree (tuple xs) (tuple ys)

    pub data AgreeItems : Items → Items → Type 0 where
      none_left : AgreeItems nil nil
      both :
          {x y : AuditData} {xs ys : Items}
          → Agree x y
          → AgreeItems xs ys
          → AgreeItems (cons x xs) (cons y ys)

    pub data AgreeFields : Fields → Fields → Type 0 where
      no_fields : AgreeFields end end
      hidden :
          (key : Text) (v w : AuditData) {fs gs : Fields}
          → is_sensitive key ≡ true
          → AgreeFields fs gs
          → AgreeFields (field key v fs) (field key w gs)
      shown :
          (key : Text) {v w : AuditData} {fs gs : Fields}
          → Agree v w
          → AgreeFields fs gs
          → AgreeFields (field key v fs) (field key w gs)

  mutual
    unfolding mask_sensitive_data

    same_masked : {v w : AuditData} → Agree v w → mask_sensitive_data v ≡ mask_sensitive_data w
    same_masked (same v) = refl
    same_masked (mappings h) = ap mapping (same_fields h)
    same_masked (lists h) = ap items (same_items h)
    same_masked (tuples h) = ap tuple (same_items h)

    same_items : {xs ys : Items} → AgreeItems xs ys → mask_items xs ≡ mask_items ys
    same_items none_left = refl
    same_items (both x xs) = rw (same_masked x, same_items xs) refl

    same_fields : {fs gs : Fields} → AgreeFields fs gs → mask_fields fs ≡ mask_fields gs
    same_fields no_fields = refl
    same_fields (hidden key v w h fs) = rw (h, same_fields fs) refl
    same_fields (shown key x fs) = rw (same_masked x, same_fields fs) refl

  -- The audit log does not depend on what sensitive keys hold, at any depth: metadata that differ
  -- only there are masked to the same.
  pub mask_sensitive_data-Agree :
      (v w : AuditData) → Agree v w → mask_sensitive_data v ≡ mask_sensitive_data w
  mask_sensitive_data-Agree v w h = same_masked h
