-- ===== src/Common/Otp/Lockout.antt =====
-- A code cannot be guessed more often than the settings allow.
use uevent_backend.Base.{
  ℕ, ◌+◌, ◌≡◌, ◌≤◌, ◌<◌, refl, ◌∙◌, Bool, true, false, none, some, List, [], ◌∷◌, arith, ltb, leb,
  weight, Bool-cases, Option-cases, ◌⊎◌, inl, inr,
}
use uevent_backend.Base.Texts.{Text}
use uevent_backend.Common.Cache.{Cache, IsCache, CacheValue, int_value}
use uevent_backend.Common.Otp.{
  OtpSettings, Verdict, invalid, key_code, key_attempts, send_otp, consume_otp, verify_otp,
  judge_otp, is_code, number_or_zero, key_cooldown,
}
use uevent_backend.Common.Otp.Keys.{key_attempts-key_code}
use uevent_backend.Common.Otp.Attempts.{IsArmed, get-consume_otp, verify_otp-gone, send_otp-IsArmed}

-- A call of `verify_otp` for one address.
pub record Guess : Type 0 where
  pub at : ℕ
  pub code : Text
  pub consume : Bool

-- The calls are made one after the other, from this time on.
abbrev pub IsSince : ℕ → List Guess → Type 0
IsSince now [] = Unit
IsSince now (g ∷ guesses) = (now ≤ g.at) × IsSince g.at guesses

-- OtpInvalidError: the code was compared, and was wrong.
abbrev pub is_invalid : Verdict → Bool
is_invalid (invalid _) = true
is_invalid _ = false

module _ (cache : Cache) (settings : OtpSettings) where
  -- How many of the calls find a wrong code.
  unfoldable pub wrong_guesses : Text → List Guess → cache.State → ℕ
  unfolding verify_otp
  wrong_guesses email [] s = 0
  wrong_guesses email (g ∷ guesses) s =
      let done = verify_otp cache settings g.at email g.code g.consume s in
      weight (is_invalid done.0) + wrong_guesses email guesses done.1

  wrong_guesses-step :
      (email : Text) (g : Guess) (guesses : List Guess) (s s' : cache.State) (v : Verdict)
      → verify_otp cache settings g.at email g.code g.consume s ≡ (v, s')
      → wrong_guesses email (g ∷ guesses) s ≡ weight (is_invalid v) + wrong_guesses email guesses s'
  unfolding wrong_guesses
  wrong_guesses-step email g guesses s s' v e = rw e refl

  module _ (laws : IsCache cache) where
    -- No code, no wrong guess.
    wrong_guesses-gone :
        (email : Text) (guesses : List Guess) (s : cache.State)
        → ((now : ℕ) → cache.get now (key_code settings email) s ≡ none)
        → wrong_guesses email guesses s ≡ 0
    unfolding wrong_guesses
    wrong_guesses-gone email [] s gone = refl
    wrong_guesses-gone email (g ∷ guesses) s gone =
        rw (verify_otp-gone cache settings laws g.at g.code email g.consume s (gone g.at))
          (omega (arith, wrong_guesses-gone email guesses s gone))

    -- A wrong guess before the deadline adds one to the attempts.
    pub IsArmed-invalid :
        (now at deadline spent : ℕ) (email : Text) (s : cache.State)
        → IsArmed cache settings now deadline spent email s
        → now ≤ at
        → IsArmed cache settings at deadline (spent + 1) email (
            cache.set at
              (key_attempts settings email)
              (int_value (spent + 1))
              settings.ttl_seconds
              s)
    IsArmed-invalid now at deadline spent email s armed l = record {
      counted = λ later m before. ground (
        arith,
        laws.get-set at later (key_attempts settings email) (int_value (spent + 1))
            settings.ttl_seconds s m,
        armed.refreshed,
      );
      gone = λ later m after.
          laws.get-set_ne at later (key_attempts settings email) (key_code settings email)
            (int_value (spent + 1)) settings.ttl_seconds s
            (key_attempts-key_code settings email email)
          ∙ armed.gone later (omega arith) after;
      refreshed = ground (arith, armed.refreshed);
    }

    pub IsArmed-later :
        (now at deadline spent : ℕ) (email : Text) (s : cache.State)
        → IsArmed cache settings now deadline spent email s
        → now ≤ at
        → IsArmed cache settings at deadline spent email s
    IsArmed-later now at deadline spent email s armed l = record {
      counted = λ later m before. armed.counted later (omega arith) before;
      gone = λ later m after. armed.gone later (omega arith) after;
      refreshed = ground (arith, armed.refreshed);
    }

    -- What one call does while the attempts are counted: it leaves the cache alone, or it consumes
    -- the code, or it counts a wrong guess that was still allowed.
    abbrev IsStep : ℕ → ℕ → Text → cache.State → Verdict → cache.State → Type 0
    IsStep at spent email s v s' =
        ((is_invalid v ≡ false) × ((s' ≡ s) ⊎ (s' ≡ consume_otp cache settings email s)))
        ⊎ ((spent < settings.max_attempts)
            × (is_invalid v ≡ true)
            × (s'
                ≡ cache.set at (key_attempts settings email) (int_value (spent + 1))
                    settings.ttl_seconds s))

    judge_otp-IsStep :
        (at spent : ℕ) (email code : Text) (consume : Bool) (stored : CacheValue) (s : cache.State)
        → IsStep at spent email s
            (judge_otp cache settings at email code consume (some stored) (some spent) s).0
            (judge_otp cache settings at email code consume (some stored) (some spent) s).1
    unfolding judge_otp
    judge_otp-IsStep at spent email code consume stored s =
        elim (Bool-cases (leb settings.max_attempts spent)) [
          | inl full ↦ rw full (inl (refl, inl refl))
          | inr few ↦ elim (Bool-cases (is_code cache settings code stored)) [
            | inl right ↦ elim (Bool-cases consume) [
              | inl spend ↦ rw (few, right, spend) (inl (refl, inr refl))
              | inr keep ↦ rw (few, right, keep) (inl (refl, inl refl))
            ]
            | inr wrong ↦ rw (few, wrong) (inr (ground arith, refl, refl))
          ]
        ]

    verify_otp-IsStep :
        (now at deadline spent : ℕ) (email code : Text) (consume : Bool) (s : cache.State)
        → IsArmed cache settings now deadline spent email s
        → now ≤ at
        → IsStep at spent email s
            (verify_otp cache settings at email code consume s).0
            (verify_otp cache settings at email code consume s).1
    unfolding verify_otp number_or_zero judge_otp
    verify_otp-IsStep now at deadline spent email code consume s armed l =
        elim (Option-cases (cache.get at (key_code settings email) s)) [
          | inl gone ↦ rw gone (inl (refl, inl refl))
          | inr (stored, there) ↦ elim (Bool-cases (ltb at deadline)) [
            | inl before ↦
                rw (there, armed.counted at l (ground arith))
                  (judge_otp-IsStep at spent email code consume stored s)
            | inr after ↦ absurd (ground (arith, armed.gone at l))
          ]
        ]

    wrong_guesses-IsArmed :
        (now deadline spent : ℕ) (email : Text) (guesses : List Guess) (s : cache.State)
        → IsArmed cache settings now deadline spent email s
        → IsSince now guesses
        → spent ≤ settings.max_attempts
        → wrong_guesses email guesses s + spent ≤ settings.max_attempts
    unfolding wrong_guesses
    wrong_guesses-IsArmed now deadline spent email [] s armed since few = omega arith
    wrong_guesses-IsArmed now deadline spent email (g ∷ guesses) s armed since few =
        let done = verify_otp cache settings g.at email g.code g.consume s in
        elim (verify_otp-IsStep now g.at deadline spent email g.code g.consume s armed since.0) [
          | inl (right, inl same) ↦
              let rest =
                wrong_guesses-IsArmed g.at deadline spent email guesses s
                  (IsArmed-later now g.at deadline spent email s armed since.0) since.1 few in
              rw (right, same) (omega arith)
          | inl (right, inr used) ↦
              let rest =
                wrong_guesses-gone email guesses (consume_otp cache settings email s)
                  (λ later. get-consume_otp cache settings laws later email s) in
              rw (right, used) (omega arith)
          | inr (allowed, wrong, counted) ↦
              let rest =
                wrong_guesses-IsArmed g.at deadline (spent + 1) email guesses
                  (cache.set g.at (key_attempts settings email) (int_value (spent + 1))
                    settings.ttl_seconds s)
                  (IsArmed-invalid now g.at deadline spent email s armed since.0) since.1
                  (omega arith) in
              rw (wrong, counted) (omega arith)
        ]

    -- After a code has been mailed, and until the next one is, at most as many wrong codes are
    -- compared with it as there are attempts, however the calls of `verify_otp` for the address are
    -- spread over time.
    pub wrong_guesses-send_otp :
        (now : ℕ) (code email : Text) (guesses : List Guess) (s : cache.State)
        → cache.ttl now (key_cooldown settings email) s ≡ 0
        → IsSince now guesses
        → wrong_guesses email guesses (send_otp cache settings now code email s).1
          ≤ settings.max_attempts
    wrong_guesses-send_otp now code email guesses s ready since = omega (
      arith,
      wrong_guesses-IsArmed now (now + settings.ttl_seconds) 0 email guesses
          (send_otp cache settings now code email s).1
          (send_otp-IsArmed cache settings laws now code email s ready) since (omega arith),
    )
