-- ===== src/Common/Otp/Attempts.antt =====
-- How often a one-time password can be tried.
use uevent_backend.Base.{
  ℕ, ◌+◌, ◌≡◌, ◌≤◌, ◌<◌, refl, ◌∙◌, Bool, true, false, none, some, arith, ltb, leb, if◌then◌else◌,
}
use uevent_backend.Base.Texts.{Text, codes, text_eq, text_eq_refl, strip}
use uevent_backend.Common.Cache.{Cache, IsCache, CacheValue, text_value, int_value}
use uevent_backend.Common.Otp.{
  OtpSettings, verified, expired, key_code, key_attempts, key_cooldown, send_otp, consume_otp,
  verify_otp, judge_otp, is_code, number_or_zero,
}
use uevent_backend.Common.Otp.Keys.{
  key_attempts-key_code, key_cooldown-key_code, key_cooldown-key_attempts,
}

module _ (cache : Cache) (settings : OtpSettings) where
  -- From this time on there is no code after the deadline, and before it the number of attempts is
  -- kept. `spent` is the number of the attempts so far.
  pub record IsArmed (now deadline spent : ℕ) (email : Text) (s : cache.State) : Type 0 where
    pub counted :
        (later : ℕ)
        → now ≤ later
        → later < deadline
        → cache.get later (key_attempts settings email) s ≡ some (int_value spent)
    pub gone :
        (later : ℕ)
        → now ≤ later
        → deadline ≤ later
        → cache.get later (key_code settings email) s ≡ none
    pub refreshed : deadline ≤ now + settings.ttl_seconds

  module _ (laws : IsCache cache) where
    -- What three writes under different keys leave under the first two.
    stored :
        (now later ttl cooldown : ℕ) (kc ka kd : Text) (v w u : CacheValue) (s : cache.State)
        → now ≤ later
        → text_eq ka kc ≡ false
        → text_eq kd kc ≡ false
        → text_eq kd ka ≡ false
        → let sent =
            cache.set now kd u cooldown (cache.set now ka w ttl (cache.set now kc v ttl s)) in
          (cache.get later kc sent ≡ (if ltb later (now + ttl) then some v else none))
          × (cache.get later ka sent ≡ (if ltb later (now + ttl) then some w else none))
    stored now later ttl cooldown kc ka kd v w u s l ac dc da = (
      laws.get-set_ne now later kd kc u cooldown (cache.set now ka w ttl (cache.set now kc v ttl s))
            dc
          ∙ laws.get-set_ne now later ka kc w ttl (cache.set now kc v ttl s) ac
          ∙ laws.get-set now later kc v ttl s l,
      laws.get-set_ne now later kd ka u cooldown (cache.set now ka w ttl (cache.set now kc v ttl s))
            da
          ∙ laws.get-set now later ka w ttl (cache.set now kc v ttl s) l,
    )

    -- What is there after a code has been mailed.
    pub get-send_otp :
        (now later : ℕ) (code email : Text) (s : cache.State)
        → now ≤ later
        → cache.ttl now (key_cooldown settings email) s ≡ 0
        → (cache.get later (key_code settings email) (send_otp cache settings now code email s).1
            ≡ (if ltb later (now + settings.ttl_seconds) then some (text_value code) else none))
          × (cache.get later
                (key_attempts settings email)
                (send_otp cache settings now code email s).1
              ≡ (if ltb later (now + settings.ttl_seconds) then some (int_value 0) else none))
    unfolding send_otp
    get-send_otp now later code email s l ready = rw ready (
        stored now later settings.ttl_seconds settings.cooldown_seconds (key_code settings email)
          (key_attempts settings email) (key_cooldown settings email) (text_value code)
          (int_value 0) (text_value (codes "1")) s l (key_attempts-key_code settings email email)
          (key_cooldown-key_code settings email email)
          (key_cooldown-key_attempts settings email email))

    pub send_otp-IsArmed :
        (now : ℕ) (code email : Text) (s : cache.State)
        → cache.ttl now (key_cooldown settings email) s ≡ 0
        → IsArmed now
            (now + settings.ttl_seconds)
            0
            email
            (send_otp cache settings now code email s).1
    send_otp-IsArmed now code email s ready = record {
      counted = λ later l before. ground (arith, (get-send_otp now later code email s l ready).1);
      gone = λ later l after. ground (arith, (get-send_otp now later code email s l ready).0);
      refreshed = omega arith;
    }

    -- Once consumed, a code is gone.
    pub get-consume_otp :
        (now : ℕ) (email : Text) (s : cache.State)
        → cache.get now (key_code settings email) (consume_otp cache settings email s) ≡ none
    unfolding consume_otp
    get-consume_otp now email s =
        laws.get-delete_ne now (key_cooldown settings email) (key_code settings email)
          (cache.delete (key_attempts settings email) (cache.delete (key_code settings email) s))
          (key_cooldown-key_code settings email email)
        ∙ laws.get-delete_ne now (key_attempts settings email) (key_code settings email)
            (cache.delete (key_code settings email) s) (key_attempts-key_code settings email email)
        ∙ laws.get-delete now (key_code settings email) s

    verify_otp-right :
        (now n : ℕ) (code email : Text) (s : cache.State)
        → cache.get now (key_code settings email) s ≡ some (text_value code)
        → cache.get now (key_attempts settings email) s ≡ some (int_value n)
        → n < settings.max_attempts
        → strip code ≡ code
        → verify_otp cache settings now email code true s
          ≡ (verified, consume_otp cache settings email s)
    unfolding verify_otp judge_otp number_or_zero is_code
    verify_otp-right now n code email s there tried few clean =
        let open_ : leb settings.max_attempts n ≡ false = ground arith in
        rw (there, tried, open_, clean, text_eq_refl code) refl

    pub verify_otp-gone :
        (now : ℕ) (code email : Text) (consume : Bool) (s : cache.State)
        → cache.get now (key_code settings email) s ≡ none
        → verify_otp cache settings now email code consume s ≡ (expired, s)
    unfolding verify_otp judge_otp
    verify_otp-gone now code email consume s gone = rw gone refl

    -- A code that has been mailed is good for its time, and only once: where an attempt is allowed, no
    -- cooldown holds the mail back and the code has no space at its ends, and where the first verification
    -- after the mail is with it, with `consume=True` and before it expires, it succeeds, and the next
    -- verification of the address is refused, with any code and whether it consumes or not.
    pub verify_otp-send_otp :
        (now later again : ℕ) (code other email : Text) (consume : Bool) (s : cache.State)
        → cache.ttl now (key_cooldown settings email) s ≡ 0
        → strip code ≡ code
        → 0 < settings.max_attempts
        → now ≤ later
        → later < now + settings.ttl_seconds
        → (verify_otp cache settings later email code true
              (send_otp cache settings now code email s).1).0
            ≡ verified
          × ((verify_otp cache settings again email other consume
                (verify_otp cache settings later email code true
                  (send_otp cache settings now code email s).1).1).0
              ≡ expired)
    verify_otp-send_otp now later again code other email consume s ready clean allowed l before =
        let sent : cache.State = (send_otp cache settings now code email s).1 in
        let (there, fresh) = get-send_otp now later code email s l ready in
        let right =
          verify_otp-right later 0 code email sent (ground arith) (ground arith) allowed clean in
        (
          rw right refl,
          rw right (
              rw
                (verify_otp-gone again other email consume (consume_otp cache settings email sent)
                  (get-consume_otp again email sent))
                refl),
        )
