-- ===== src/Common/Cache.antt =====
-- Django's cache over Redis, as the code uses it: an interface, with what it promises. Times and
-- timeouts are in seconds.
use uevent_backend.Base.{ℕ, ◌+◌, ◌-◌, ◌≤◌, ◌≡◌, false, Option, none, some, ltb, if◌then◌else◌}
use uevent_backend.Base.Texts.{Text, text_eq}

-- A text or an integer.
pub data CacheValue : Type 0 where
  text_value : Text → CacheValue
  int_value : ℕ → CacheValue

-- Each call takes the time at which it is made. `ttl` is 0 for a key that is not there.
pub record Cache : Type 1 where
  pub State : Type 0
  pub get : ℕ → Text → State → Option CacheValue
  pub ttl : ℕ → Text → State → ℕ
  pub set : ℕ → Text → CacheValue → ℕ → State → State
  pub delete : Text → State → State

-- A value is there until its timeout has passed or it is deleted or set again; keys are independent.
pub record IsCache (c : Cache) : Type 0 where
  pub get-set :
      (now later : ℕ) (key : Text) (v : CacheValue) (timeout : ℕ) (s : c.State)
      → now ≤ later
      → c.get later key (c.set now key v timeout s)
        ≡ (if ltb later (now + timeout) then some v else none)
  pub get-set_ne :
      (now later : ℕ) (key other : Text) (v : CacheValue) (timeout : ℕ) (s : c.State)
      → text_eq key other ≡ false
      → c.get later other (c.set now key v timeout s) ≡ c.get later other s
  pub get-delete : (now : ℕ) (key : Text) (s : c.State) → c.get now key (c.delete key s) ≡ none
  pub get-delete_ne :
      (now : ℕ) (key other : Text) (s : c.State)
      → text_eq key other ≡ false
      → c.get now other (c.delete key s) ≡ c.get now other s
  pub ttl-set :
      (now later : ℕ) (key : Text) (v : CacheValue) (timeout : ℕ) (s : c.State)
      → now ≤ later
      → c.ttl later key (c.set now key v timeout s) ≡ (now + timeout) - later
