-- ===== src/Tests/Caches.antt =====
-- A cache as a list of entries, and one-time passwords over it.
use uevent_backend.Base.{
  ℕ, ◌+◌, ◌-◌, ◌≤◌, ◌≡◌, refl, true, false, Option, none, some, List, [], ◌∷◌, arith, ltb,
  if◌then◌else◌,
}
use uevent_backend.Base.Texts.{Text, codes, strip, text_eq, text_eq_iff, text_eq_refl}
use uevent_backend.Common.Cache.{Cache, IsCache, CacheValue}
use uevent_backend.Common.Otp.{OtpSettings, send_otp, verify_otp, verified, expired}
use uevent_backend.Common.Otp.Attempts.{verify_otp-send_otp}
use uevent_backend.Common.Otp.Machine.{answers, armed, verdicts, verdicts-send_otp}
use uevent_backend.Common.Otp.Lockout.{Guess, wrong_guesses, wrong_guesses-send_otp}

record Entry : Type 0 where
  pub key : Text
  pub value : CacheValue
  pub deadline : ℕ

unfoldable lookup : ℕ → Text → List Entry → Option CacheValue
lookup now key [] = none
lookup now key (e ∷ entries) =
    let rest = lookup now key entries in
    if text_eq e.key key then (if ltb now e.deadline then some e.value else none) else rest

unfoldable lifetime : ℕ → Text → List Entry → ℕ
lifetime now key [] = 0
lifetime now key (e ∷ entries) =
    let rest = lifetime now key entries in if text_eq e.key key then e.deadline - now else rest

unfoldable without : Text → List Entry → List Entry
without key [] = []
without key (e ∷ entries) =
    let rest = without key entries in if text_eq e.key key then rest else e ∷ rest

-- The newest entry of a key counts.
abbrev entries : Cache
entries = record {
  State = List Entry;
  get = lookup;
  ttl = lifetime;
  set = λ now key v timeout s. record { key = key; value = v; deadline = now + timeout } ∷ s;
  delete = without;
}

lookup-without : (now : ℕ) (key : Text) (s : List Entry) → lookup now key (without key s) ≡ none
unfolding lookup without
lookup-without now key [] = refl
lookup-without now key (e ∷ s) = ground (arith, lookup-without now key s)

lookup-without_ne :
    (now : ℕ) (key other : Text) (s : List Entry)
    → text_eq key other ≡ false
    → lookup now other (without key s) ≡ lookup now other s
unfolding lookup without
lookup-without_ne now key other [] ne = refl
lookup-without_ne now key other (e ∷ s) ne = ground (
  arith,
  lookup-without_ne now key other s,
  text_eq_iff e.key key,
  text_eq_iff e.key other,
  text_eq_iff key other,
)

entries-IsCache : IsCache entries
unfolding lookup lifetime
entries-IsCache = record {
  get-set = λ now later key v timeout s l. rw (text_eq_refl key) refl;
  get-set_ne = λ now later key other v timeout s ne. rw ne refl;
  get-delete = lookup-without;
  get-delete_ne = lookup-without_ne;
  ttl-set = λ now later key v timeout s l. rw (text_eq_refl key) refl;
}

abbrev settings : OtpSettings
settings = record { ttl_seconds = 180; cooldown_seconds = 60; max_attempts = 5; lower = λ s. s }

verify_otp-send_otp_example :
    ((verify_otp entries settings 100
        (codes "a@x.vn")
        (codes "123456")
        true
        (send_otp entries settings 0 (codes "123456") (codes "a@x.vn") []).1).0
      ≡ verified)
    × ((verify_otp entries settings 120
          (codes "a@x.vn")
          (codes "123456")
          true
          (verify_otp entries settings 100
            (codes "a@x.vn")
            (codes "123456")
            true
            (send_otp entries settings 0 (codes "123456") (codes "a@x.vn") []).1).1).0
        ≡ expired)
unfolding lifetime strip
verify_otp-send_otp_example =
    verify_otp-send_otp entries settings entries-IsCache 0 100 120 (codes "123456") (codes "123456")
      (codes "a@x.vn") true [] refl refl (omega arith) (omega arith) (omega arith)

abbrev guesses : List Guess
guesses =
    record { at = 5; code = codes "000000"; consume = true }
    ∷ record { at = 9; code = codes "111111"; consume = true }
    ∷ []

wrong_guesses-send_otp_example :
    wrong_guesses entries settings
      (codes "a@x.vn")
      guesses
      (send_otp entries settings 0 (codes "123456") (codes "a@x.vn") []).1
    ≤ 5
unfolding lifetime
wrong_guesses-send_otp_example =
    wrong_guesses-send_otp entries settings entries-IsCache 0 (codes "123456") (codes "a@x.vn")
      guesses [] refl (omega arith, (omega arith, tt))

verdicts-send_otp_example :
    verdicts entries settings
      (codes "a@x.vn")
      guesses
      (send_otp entries settings 0 (codes "123456") (codes "a@x.vn") []).1
    ≡ answers settings guesses (armed (codes "123456") 180 0)
unfolding lifetime
verdicts-send_otp_example =
    verdicts-send_otp entries settings entries-IsCache 0 (codes "123456") (codes "a@x.vn") guesses
      [] refl (omega arith, (omega arith, tt))
