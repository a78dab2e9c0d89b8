-- ===== src/Base/Decimal.antt =====
-- Decimal numerals, as Python formats a natural number.
use uevent_backend.Base.Lists.{length, length-append}
use uevent_backend.Base.Texts.{Text}
use uevent_backend.Base.Tests.{◌==◌, ltb, if◌then◌else◌}
use Prim.Native.Nat.{ℕ, zero, suc, ◌+◌, ◌*◌, ◌/◌, ◌%◌, ◌<◌, ◌≤◌, ◌-◌}
use mathlib.Core.Path.{◌≡◌, refl, sym, ap, ◌∙◌}
use mathlib.Core.Bool.{Bool, false, ◌||◌}
use mathlib.Core.List.{[], ◌∷◌, ◌++◌}
use native.Mathlib.Omega.{arith}

-- The digits of a number below the fuel.
unfoldable pub digits : ℕ → ℕ → Text
digits zero n = []
digits (suc fuel) n =
    let rest = digits fuel (n / 10) in
    if ltb n 10 then (48 + n) ∷ [] else rest ++ (48 + n % 10) ∷ []

-- `str(n)`
unfoldable pub decimal : ℕ → Text
unfolding digits
decimal n = digits (suc n) n

-- `int(text)`, on digits.
abbrev value_from : ℕ → Text → ℕ
value_from a [] = a
value_from a (c ∷ s) = value_from (a * 10 + (c - 48)) s

value_from-append :
    (a : ℕ) (s : Text) (c : ℕ) → value_from a (s ++ c ∷ []) ≡ value_from a s * 10 + (c - 48)
value_from-append a [] c = refl
value_from-append a (d ∷ s) c = value_from-append (a * 10 + (d - 48)) s c

value_from-digits : (fuel n : ℕ) → n < fuel → value_from 0 (digits fuel n) ≡ n
unfolding digits
value_from-digits zero n small = absurd (omega arith)
value_from-digits (suc fuel) n small = ground (
  arith,
  value_from-append 0 (digits fuel (n / 10)) (48 + n % 10),
  value_from-digits fuel (n / 10),
)

-- Different numbers have different numerals.
pub decimal-injective : (m n : ℕ) → decimal m ≡ decimal n → m ≡ n
unfolding decimal
decimal-injective m n same =
    sym (value_from-digits (suc m) m (omega arith))
    ∙ ap (value_from 0) same
    ∙ value_from-digits (suc n) n (omega arith)

-- The text has this character.
unfoldable pub has_char : ℕ → Text → Bool
has_char c [] = false
has_char c (d ∷ s) = (d == c) || has_char c s

pub has_char-append : (c : ℕ) (s t : Text) → has_char c (s ++ t) ≡ (has_char c s || has_char c t)
unfolding has_char
has_char-append c [] t = refl
has_char-append c (d ∷ s) t = ground (arith, has_char-append c s t)

has_char-digits : (fuel n : ℕ) → has_char 45 (digits fuel n) ≡ false
unfolding digits has_char
has_char-digits zero n = refl
has_char-digits (suc fuel) n = ground (
  arith,
  has_char-append 45 (digits fuel (n / 10)) ((48 + n % 10) ∷ []),
  has_char-digits fuel (n / 10),
)

-- A numeral has no dash.
pub has_char-decimal : (n : ℕ) → has_char 45 (decimal n) ≡ false
unfolding decimal
has_char-decimal n = has_char-digits (suc n) n

-- `10 ** d`
unfoldable pub power_of_ten : ℕ → ℕ
power_of_ten zero = 1
power_of_ten (suc d) = 10 * power_of_ten d

length-digits : (fuel n d : ℕ) → n < power_of_ten (suc d) → length (digits fuel n) ≤ suc d
unfolding digits power_of_ten
length-digits zero n d small = omega arith
length-digits (suc fuel) n zero small = ground arith
length-digits (suc fuel) n (suc d) small = ground (
  arith,
  length-append (digits fuel (n / 10)) ((48 + n % 10) ∷ []),
  length-digits fuel (n / 10) d,
)

-- A number below 10^d has at most d digits.
pub length-decimal : (n d : ℕ) → n < power_of_ten (suc d) → length (decimal n) ≤ suc d
unfolding decimal
length-decimal n d small = length-digits (suc n) n d small
