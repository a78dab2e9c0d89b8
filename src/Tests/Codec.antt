-- ===== src/Tests/Codec.antt =====
-- A concrete codec for the objects of a token: two numbers for each piece, the first of which says
-- what the second adds to what follows.
use uevent_backend.Base.{ℕ, zero, suc, ◌≡◌, refl, ap, true, false, Option, some, [], ◌∷◌, ◌++◌}
use uevent_backend.Base.Texts.{Text}
use uevent_backend.Common.Host.{
  JsonDict, JsonValue, json_nat, json_neg, json_bool, json_str, json_other,
}

unfoldable characters : ℕ → Text → Text → Text
characters tag [] rest = rest
characters tag (c ∷ s) rest = tag ∷ c ∷ characters tag s rest

unfoldable value : JsonValue → Text → Text
unfolding characters
value (json_nat n) rest = 0 ∷ n ∷ rest
value (json_neg n) rest = 1 ∷ n ∷ rest
value (json_bool true) rest = 2 ∷ 1 ∷ rest
value (json_bool false) rest = 2 ∷ 0 ∷ rest
value (json_str s) rest = characters 4 s (3 ∷ 0 ∷ rest)
value json_other rest = 6 ∷ 0 ∷ rest

unfoldable pub encode : JsonDict → Text
unfolding value characters
encode [] = []
encode ((name, v) ∷ d) = characters 5 name (value v (encode d))

unfoldable step : ℕ → ℕ → JsonDict → JsonDict
step zero n d = ([], json_nat n) ∷ d
step (suc zero) n d = ([], json_neg n) ∷ d
step (suc (suc zero)) zero d = ([], json_bool false) ∷ d
step (suc (suc zero)) n d = ([], json_bool true) ∷ d
step (suc (suc (suc zero))) n d = ([], json_str []) ∷ d
step (suc (suc (suc (suc zero)))) n ((name, json_str s) ∷ d) = (name, json_str (n ∷ s)) ∷ d
step (suc (suc (suc (suc (suc zero))))) n ((name, v) ∷ d) = (n ∷ name, v) ∷ d
step (suc (suc (suc (suc (suc (suc zero)))))) n d = ([], json_other) ∷ d
step _ n d = d

unfoldable read : Text → JsonDict
unfolding step
read [] = []
read (_ ∷ []) = []
read (tag ∷ n ∷ rest) = step tag n (read rest)

unfoldable pub decode : Text → Option JsonDict
unfolding read
decode s = some (read s)

read-characters_str :
    (s t : Text) (rest : Text) (d : JsonDict)
    → read rest ≡ ([], json_str t) ∷ d
    → read (characters 4 s rest) ≡ ([], json_str (s ++ t)) ∷ d
unfolding characters read step
read-characters_str [] t rest d h = h
read-characters_str (c ∷ s) t rest d h = rw (read-characters_str s t rest d h) refl

read-characters_name :
    (s name : Text) (v : JsonValue) (rest : Text) (d : JsonDict)
    → read rest ≡ (name, v) ∷ d
    → read (characters 5 s rest) ≡ (s ++ name, v) ∷ d
unfolding characters read step
read-characters_name [] name v rest d h = h
read-characters_name (c ∷ s) name v rest d h = rw (read-characters_name s name v rest d h) refl

append_nil : (s : Text) → s ++ [] ≡ s
append_nil [] = refl
append_nil (c ∷ s) = ap (λ (t : Text). c ∷ t) (append_nil s)

read-value : (v : JsonValue) (rest : Text) → read (value v rest) ≡ ([], v) ∷ read rest
unfolding value read step
read-value (json_nat n) rest = refl
read-value (json_neg n) rest = refl
read-value (json_bool true) rest = refl
read-value (json_bool false) rest = refl
read-value (json_str s) rest =
    rw (read-characters_str s [] (3 ∷ 0 ∷ rest) (read rest) refl, append_nil s) refl
read-value json_other rest = refl

read-encode : (d : JsonDict) → read (encode d) ≡ d
unfolding encode read
read-encode [] = refl
read-encode ((name, v) ∷ d) =
    rw
      (
        read-characters_name name [] v (value v (encode d)) (read (encode d))
            (read-value v (encode d)),
        append_nil name,
        read-encode d,
      )
      refl

pub decode-encode : (d : JsonDict) → decode (encode d) ≡ some d
unfolding decode
decode-encode d = ap some (read-encode d)
