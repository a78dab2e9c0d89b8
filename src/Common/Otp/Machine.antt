-- ===== src/Common/Otp/Machine.antt =====
-- What `send_otp` and `verify_otp` promise, without a cache: a code with its deadline and the number
-- of wrong guesses, and the verdicts of a machine over that.
use uevent_backend.Base.{
  ℕ, ◌+◌, ◌-◌, ◌≡◌, ◌≤◌, ◌<◌, refl, ◌∙◌, Bool, true, not, none, some, List, [], ◌∷◌, arith, ltb,
  leb, if◌then◌else◌, Bool-cases, inl, inr,
}
use uevent_backend.Base.Texts.{Text, text_eq, strip}
use uevent_backend.Common.Cache.{Cache, IsCache, text_value, int_value}
use uevent_backend.Common.Otp.{
  OtpSettings, Verdict, verified, expired, locked, invalid, key_code, key_attempts, key_cooldown,
  send_otp, verify_otp, judge_otp, is_code, number_or_zero,
}
use uevent_backend.Common.Otp.Keys.{key_attempts-key_code}
use uevent_backend.Common.Otp.Attempts.{
  IsArmed, get-consume_otp, get-send_otp, verify_otp-gone, send_otp-IsArmed,
}
use uevent_backend.Common.Otp.Lockout.{Guess, IsSince, IsArmed-invalid, IsArmed-later}

-- No code, or a code until a deadline, with the wrong guesses so far.
pub data Machine : Type 0 where
  idle : Machine
  armed : Text → ℕ → ℕ → Machine

module _ (settings : OtpSettings) where
  abbrev pub answer : Guess → Machine → Verdict × Machine
  answer g idle = (expired, idle)
  answer g (armed code deadline wrong) =
      if not (ltb g.at deadline)
      then (expired, armed code deadline wrong)
      else if leb settings.max_attempts wrong
      then (locked, armed code deadline wrong)
      else if text_eq (strip g.code) code
      then (verified, if g.consume then idle else armed code deadline wrong)
      else (invalid (settings.max_attempts - wrong - 1), armed code deadline (wrong + 1))

  -- The verdicts on the guesses, one after the other.
  unfoldable pub answers : List Guess → Machine → List Verdict
  answers [] m = []
  answers (g ∷ guesses) m = (answer g m).0 ∷ answers guesses (answer g m).1

module _ (cache : Cache) (settings : OtpSettings) where
  unfoldable pub verdicts : Text → List Guess → cache.State → List Verdict
  unfolding verify_otp
  verdicts email [] s = []
  verdicts email (g ∷ guesses) s =
      let done = verify_otp cache settings g.at email g.code g.consume s in
      done.0 ∷ verdicts email guesses done.1

  -- From this time on the cache holds what the machine does.
  abbrev Holds : ℕ → Text → Machine → cache.State → Type 0
  Holds now email idle s = (later : ℕ) → cache.get later (key_code settings email) s ≡ none
  Holds now email (armed code deadline wrong) s =
      IsArmed cache settings now deadline wrong email s
      × ((later : ℕ)
          → now ≤ later
          → later < deadline
          → cache.get later (key_code settings email) s ≡ some (text_value code))

  module _ (laws : IsCache cache) where
    held_later :
        (now at : ℕ) (email code : Text) (deadline wrong : ℕ) (s : cache.State)
        → Holds now email (armed code deadline wrong) s
        → now ≤ at
        → Holds at email (armed code deadline wrong) s
    held_later now at email code deadline wrong s holds l = (
      IsArmed-later cache settings laws now at deadline wrong email s holds.0 l,
      (λ later m before. holds.1 later (omega arith) before),
    )

    verify_otp-judge :
        (at wrong : ℕ) (email code given : Text) (consume : Bool) (s : cache.State)
        → cache.get at (key_code settings email) s ≡ some (text_value code)
        → cache.get at (key_attempts settings email) s ≡ some (int_value wrong)
        → verify_otp cache settings at email given consume s
          ≡ judge_otp cache settings at email given consume (some (text_value code)) (some wrong) s
    unfolding verify_otp number_or_zero
    verify_otp-judge at wrong email code given consume s there counted = rw (there, counted) refl

    -- A call before the deadline.
    judge_otp-answer :
        (now : ℕ) (email : Text) (g : Guess) (code : Text) (deadline wrong : ℕ) (s : cache.State)
        → Holds now email (armed code deadline wrong) s
        → now ≤ g.at
        → ltb g.at deadline ≡ true
        → ((judge_otp cache settings g.at email g.code g.consume
              (some (text_value code))
              (some wrong)
              s).0
            ≡ (answer settings g (armed code deadline wrong)).0)
          × Holds g.at email
              (answer settings g (armed code deadline wrong)).1
              (judge_otp cache settings g.at email g.code g.consume
                (some (text_value code))
                (some wrong)
                s).1
    unfolding judge_otp is_code
    judge_otp-answer now email g code deadline wrong s holds l before =
        let held = held_later now g.at email code deadline wrong s holds l in
        elim (Bool-cases (leb settings.max_attempts wrong)) [
          | inl full ↦ rw (before, full) (refl, held)
          | inr few ↦ elim (Bool-cases (text_eq (strip g.code) code)) [
            | inl right ↦ elim (Bool-cases g.consume) [
              | inl spend ↦
                  rw (before, few, right, spend)
                    (refl, (λ later. get-consume_otp cache settings laws later email s))
              | inr keep ↦ rw (before, few, right, keep) (refl, held)
            ]
            | inr other ↦
                rw (before, few, other)
                  (
                    refl,
                    (
                      IsArmed-invalid cache settings laws now g.at deadline wrong email s holds.0 l,
                      (λ later m in_time.
                          laws.get-set_ne g.at later (key_attempts settings email)
                            (key_code settings email) (int_value (wrong + 1)) settings.ttl_seconds s
                            (key_attempts-key_code settings email email)
                          ∙ held.1 later m in_time),
                    ),
                  )
          ]
        ]

    -- One call agrees with the machine, and keeps the cache in step with it.
    verify_otp-answer :
        (now : ℕ) (email : Text) (g : Guess) (m : Machine) (s : cache.State)
        → Holds now email m s
        → now ≤ g.at
        → ((verify_otp cache settings g.at email g.code g.consume s).0 ≡ (answer settings g m).0)
          × Holds g.at email
              (answer settings g m).1
              (verify_otp cache settings g.at email g.code g.consume s).1
    verify_otp-answer now email g idle s holds l =
        rw (verify_otp-gone cache settings laws g.at g.code email g.consume s (holds g.at))
          (refl, holds)
    verify_otp-answer now email g (armed code deadline wrong) s holds l =
        elim (Bool-cases (ltb g.at deadline)) [
          | inl before ↦
              rw
                (verify_otp-judge g.at wrong email code g.code g.consume s
                  (holds.1 g.at l (ground arith)) (holds.0.counted g.at l (ground arith)))
                (judge_otp-answer now email g code deadline wrong s holds l before)
          | inr after ↦
              rw
                (
                  after,
                  verify_otp-gone cache settings laws g.at g.code email g.consume s
                      (holds.0.gone g.at l (ground arith)),
                )
                (refl, held_later now g.at email code deadline wrong s holds l)
        ]

    verdicts-answers :
        (now : ℕ) (email : Text) (guesses : List Guess) (m : Machine) (s : cache.State)
        → Holds now email m s
        → IsSince now guesses
        → verdicts email guesses s ≡ answers settings guesses m
    unfolding verdicts answers
    verdicts-answers now email [] m s holds since = refl
    verdicts-answers now email (g ∷ guesses) m s holds since =
        let (same, next) = verify_otp-answer now email g m s holds since.0 in
        rw
          (
            same,
            verdicts-answers g.at email guesses (answer settings g m).1
                (verify_otp cache settings g.at email g.code g.consume s).1 next since.1,
          )
          refl

    -- Over any cache that keeps its promises, once a code has been mailed to an address the calls of
    -- `verify_otp` for it, one after the other, give the verdicts of the machine that holds the code
    -- until its time has passed, whatever else the cache held.
    pub verdicts-send_otp :
        (now : ℕ) (code email : Text) (guesses : List Guess) (s : cache.State)
        → cache.ttl now (key_cooldown settings email) s ≡ 0
        → IsSince now guesses
        → verdicts email guesses (send_otp cache settings now code email s).1
          ≡ answers settings guesses (armed code (now + settings.ttl_seconds) 0)
    verdicts-send_otp now code email guesses s ready since =
        verdicts-answers now email guesses (armed code (now + settings.ttl_seconds) 0)
          (send_otp cache settings now code email s).1
          (
            send_otp-IsArmed cache settings laws now code email s ready,
            (λ later l before.
                ground
                  (arith, (get-send_otp cache settings laws now later code email s l ready).0)),
          )
          since
