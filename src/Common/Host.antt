-- ===== src/Common/Host.antt =====
-- What the services take from outside the repository, as one value for each call: the clock, which
-- every `timezone.now()` of the call reads alike, fresh primary keys (uuid4) and random texts, the
-- keyed hash, time zones, the database's `iexact`, Django's `slugify`, the JSON and base64 codecs, and keys as texts.
use uevent_backend.Base.{
  ℕ, ◌≡◌, Bool, true, false, ◌&&◌, ◌||◌, Option, some, List, [], ◌∷◌, ltb, ◌==◌,
}
use uevent_backend.Base.Texts.{Text, is_ascii, is_nonempty}

-- A value of a JSON object, as `json.loads` returns it. Python's `bool` is an `int`.
pub data JsonValue : Type 0 where
  json_nat : ℕ → JsonValue
  -- a negative integer, by its absolute value
  json_neg : ℕ → JsonValue
  json_bool : Bool → JsonValue
  json_str : Text → JsonValue
  -- null, a number with a fraction, an array or an object
  json_other : JsonValue

abbrev pub JsonDict : Type 0
JsonDict = List (Text × JsonValue)

-- The order of code points, in which `sort_keys=True` writes the keys.
unfoldable pub is_below : Text → Text → Bool
is_below s [] = false
is_below [] (b ∷ t) = true
is_below (a ∷ s) (b ∷ t) = ltb a b || (a == b && is_below s t)

unfoldable pub is_sorted : JsonDict → Bool
unfolding is_below
is_sorted [] = true
is_sorted (_ ∷ []) = true
is_sorted ((a, _) ∷ (b, v) ∷ d) = is_below a b && is_sorted ((b, v) ∷ d)

-- Numbers that are not negative, Booleans and texts.
unfoldable pub is_plain : JsonDict → Bool
is_plain [] = true
is_plain ((_, json_neg _) ∷ d) = false
is_plain ((_, json_other) ∷ d) = false
is_plain ((_, _) ∷ d) = is_plain d

pub record Host : Type 0 where
  pub now : ℕ
  pub new_id : ℕ → ℕ
  -- `secrets.token_hex(5).upper()`, draw by draw, and how many draws are followed
  pub token_hex : ℕ → Text
  pub draws : ℕ
  -- `secrets.token_urlsafe(8)`
  pub nonce : Text
  -- `hmac.new(secret, payload, sha256).hexdigest()`
  pub hmac : Text → Text
  -- `hashlib.sha256(text).hexdigest()`
  pub sha256 : Text → Text
  -- `base64.urlsafe_b64encode(json.dumps(payload))` without its padding, and the way back: `none`
  -- where it raises or gives no `dict`
  pub encode_json : JsonDict → Text
  pub decode_json : Text → Option JsonDict
  -- `str(uuid)` and `uuid.UUID(text)`
  pub show_key : ℕ → Text
  pub parse_key : Text → Option ℕ
  -- the time of day in a named zone, `none` where the zone is not found
  pub wall_clock : Text → ℕ → Option ℕ
  pub iexact : Text → Text → Bool
  -- `django.utils.text.slugify`, and `uuid.uuid4().hex[:8]`
  pub slugify : Text → Text
  pub hex8 : Text

-- The documented behaviour of these that the theorems use.
pub record IsFaithful (h : Host) : Type 0 where
  pub decode-encode :
      (d : JsonDict)
      → is_sorted d ≡ true
      → is_plain d ≡ true
      → h.decode_json (h.encode_json d) ≡ some d
  pub parse-show : (i : ℕ) → h.parse_key (h.show_key i) ≡ some i
  -- a hexdigest is ASCII, and not empty
  pub is_ascii-hmac : (s : Text) → is_ascii (h.hmac s) ≡ true
  pub is_nonempty-hmac : (s : Text) → is_nonempty (h.hmac s) ≡ true
