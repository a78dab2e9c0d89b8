-- ===== src/Common/Otp/Keys.antt =====
-- The three keys of an address are different.
use uevent_backend.Base.{ℕ, ◌≡◌, refl, false, [], ◌∷◌, ◌++◌, arith, ◌==◌, Bool-cases, inl, inr}
use uevent_backend.Base.Texts.{Text, codes, text_eq, text_eq_iff}
use uevent_backend.Common.Otp.{OtpSettings, key_code, key_attempts, key_cooldown}

-- The last character, or 0.
unfoldable last : ℕ → Text → ℕ
last d [] = d
last d (c ∷ s) = last c s

last-append : (d : ℕ) (s : Text) (c : ℕ) (t : Text) → last d (s ++ c ∷ t) ≡ last c t
unfolding last
last-append d [] c t = refl
last-append d (b ∷ s) c t = last-append b s c t

-- Texts that end differently are different.
text_eq-last : (s t : Text) → (last 0 s == last 0 t) ≡ false → text_eq s t ≡ false
text_eq-last s t ne = elim (Bool-cases (text_eq s t)) [
  | inl e ↦ ground (arith, (text_eq_iff s t).0 e)
  | inr e ↦ e
]

last-of_key :
    (settings : OtpSettings) (email : Text) (c : ℕ) (t : Text)
    → last 0 (codes "otp:" ++ settings.lower email ++ c ∷ t) ≡ last c t
unfolding last
last-of_key settings email c t = last-append 58 (settings.lower email) c t

pub key_code-key_attempts :
    (settings : OtpSettings) (email other : Text)
    → text_eq (key_code settings email) (key_attempts settings other) ≡ false
unfolding key_code key_attempts last
key_code-key_attempts settings email other =
    text_eq-last (key_code settings email) (key_attempts settings other) (
      rw
        (
          last-of_key settings email 58 (codes "code"),
          last-of_key settings other 58 (codes "attempts"),
        )
        refl)

pub key_attempts-key_code :
    (settings : OtpSettings) (email other : Text)
    → text_eq (key_attempts settings email) (key_code settings other) ≡ false
unfolding key_code key_attempts last
key_attempts-key_code settings email other =
    text_eq-last (key_attempts settings email) (key_code settings other) (
      rw
        (
          last-of_key settings email 58 (codes "attempts"),
          last-of_key settings other 58 (codes "code"),
        )
        refl)

pub key_cooldown-key_code :
    (settings : OtpSettings) (email other : Text)
    → text_eq (key_cooldown settings email) (key_code settings other) ≡ false
unfolding key_code key_cooldown last
key_cooldown-key_code settings email other =
    text_eq-last (key_cooldown settings email) (key_code settings other) (
      rw
        (
          last-of_key settings email 58 (codes "cooldown"),
          last-of_key settings other 58 (codes "code"),
        )
        refl)

pub key_cooldown-key_attempts :
    (settings : OtpSettings) (email other : Text)
    → text_eq (key_cooldown settings email) (key_attempts settings other) ≡ false
unfolding key_attempts key_cooldown last
key_cooldown-key_attempts settings email other =
    text_eq-last (key_cooldown settings email) (key_attempts settings other) (
      rw
        (
          last-of_key settings email 58 (codes "cooldown"),
          last-of_key settings other 58 (codes "attempts"),
        )
        refl)
