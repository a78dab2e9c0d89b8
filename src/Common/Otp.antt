-- ===== src/Common/Otp.antt =====
-- One-time passwords: common/otp.py, over the cache. The cache keeps what a call has written even if
-- the call raises, so every operation returns a state.
pub mod Keys
pub mod Attempts
pub mod Lockout
pub mod Machine
use uevent_backend.Base.{
  ℕ, suc, ◌+◌, ◌-◌, Bool, true, false, not, Option, none, some, List, ◌++◌, ltb, leb, if◌then◌else◌,
}
use uevent_backend.Base.Texts.{Text, codes, text_eq, strip}
use uevent_backend.Common.Cache.{Cache, CacheValue, text_value, int_value}

pub record OtpSettings : Type 0 where
  pub ttl_seconds : ℕ
  pub cooldown_seconds : ℕ
  pub max_attempts : ℕ
  -- `str.lower`
  pub lower : Text → Text

unfoldable pub key_code : OtpSettings → Text → Text
key_code settings email = codes "otp:" ++ settings.lower email ++ codes ":code"

unfoldable pub key_attempts : OtpSettings → Text → Text
key_attempts settings email = codes "otp:" ++ settings.lower email ++ codes ":attempts"

unfoldable pub key_cooldown : OtpSettings → Text → Text
key_cooldown settings email = codes "otp:" ++ settings.lower email ++ codes ":cooldown"

-- What `send_otp` does: OtpCooldownError, or the mail with the code.
pub data Sending : Type 0 where
  cooling_down : ℕ → Sending
  mailed : Text → Sending

-- What `verify_otp` does: it returns, or it raises OtpExpiredError, OtpMaxAttemptsError,
-- OtpInvalidError with the attempts that remain, or TypeError for attempts that are no number.
pub data Verdict : Type 0 where
  verified expired locked broken : Verdict
  invalid : ℕ → Verdict

module _ (cache : Cache) (settings : OtpSettings) where
  -- By the code that is drawn.
  unfoldable pub send_otp : ℕ → Text → Text → cache.State → Sending × cache.State
  unfolding key_code key_attempts key_cooldown
  send_otp now code email s =
      if ltb 0 (cache.ttl now (key_cooldown settings email) s)
      then (cooling_down (cache.ttl now (key_cooldown settings email) s), s)
      else (
        mailed code,
        cache.set now (key_cooldown settings email) (text_value (codes "1"))
            settings.cooldown_seconds
            (cache.set now (key_attempts settings email) (int_value 0) settings.ttl_seconds
              (cache.set now (key_code settings email) (text_value code) settings.ttl_seconds s)),
      )

  unfoldable pub consume_otp : Text → cache.State → cache.State
  unfolding key_code key_attempts key_cooldown
  consume_otp email s =
      cache.delete (key_cooldown settings email)
        (cache.delete (key_attempts settings email) (cache.delete (key_code settings email) s))

  -- `code.strip() == stored_code`
  unfoldable pub is_code : Text → CacheValue → Bool
  is_code code (text_value stored) = text_eq (strip code) stored
  is_code code (int_value n) = false

  -- `cache.get(key, 0)`, if it is a number
  unfoldable pub number_or_zero : Option CacheValue → Option ℕ
  number_or_zero none = some 0
  number_or_zero (some (int_value n)) = some n
  number_or_zero (some (text_value t)) = none

  -- The tests of `verify_otp`, by the stored code and the attempts.
  unfoldable pub judge_otp :
      ℕ → Text → Text → Bool → Option CacheValue → Option ℕ → cache.State → Verdict × cache.State
  unfolding key_attempts consume_otp is_code
  judge_otp now email code consume none attempts s = (expired, s)
  judge_otp now email code consume (some stored) none s = (broken, s)
  judge_otp now email code consume (some stored) (some attempts) s =
      if leb settings.max_attempts attempts
      then (locked, s)
      else if not (is_code code stored)
      then (
        invalid (settings.max_attempts - attempts - 1),
        cache.set now (key_attempts settings email) (int_value (attempts + 1)) settings.ttl_seconds
            s,
      )
      else (verified, if consume then consume_otp email s else s)

  unfoldable pub verify_otp : ℕ → Text → Text → Bool → cache.State → Verdict × cache.State
  unfolding judge_otp number_or_zero key_code key_attempts
  verify_otp now email code consume s =
      judge_otp now email code consume (cache.get now (key_code settings email) s)
        (number_or_zero (cache.get now (key_attempts settings email) s)) s
