-- ===== src/Common/Slugs/Free.antt =====
-- The loop for a unique slug ends with a slug that is free and fits the column.
use uevent_backend.Base.{
  ℕ, zero, suc, ◌+◌, ◌-◌, ◌≤◌, ◌<◌, ◌≡◌, ◌≢◌, refl, sym, ap, ◌∙◌, Bool, true, false, not, some,
  List, [], ◌∷◌, ◌++◌, arith, Bool-cases, inl, inr, length, length-append, if◌then◌else◌,
}
use uevent_backend.Base.Texts.{Text, text_eq, text_eq_iff}
use uevent_backend.Base.Decimal.{
  decimal, decimal-injective, has_char, has_char-append, has_char-decimal, length-decimal,
  power_of_ten,
}
use uevent_backend.Orm.Table.{exists, first, select}
use uevent_backend.Common.Slugs.{take, slice_to, suffix_text, with_suffix, next_free, unique_slug}

-- What follows the last dash.
unfoldable after_dash : Text → Text
unfolding has_char
after_dash [] = []
after_dash (c ∷ s) = let rest = after_dash s in if has_char 45 s then rest else s

after_dash-append : (s d : Text) → has_char 45 d ≡ false → after_dash (s ++ 45 ∷ d) ≡ d
unfolding after_dash has_char
after_dash-append [] d none_in = ground arith
after_dash-append (c ∷ s) d none_in =
    ground (arith, after_dash-append s d none_in, has_char-append 45 s (45 ∷ d))

after_dash-with_suffix :
    (limit : ℕ) (base_slug : Text) (k : ℕ) → after_dash (with_suffix limit base_slug k) ≡ decimal k
unfolding with_suffix suffix_text
after_dash-with_suffix limit base_slug k =
    after_dash-append (slice_to limit (length (suffix_text k)) base_slug) (decimal k)
      (has_char-decimal k)

-- Different suffixes make different slugs, cut off or not.
pub with_suffix-injective :
    (limit : ℕ) (base_slug : Text) (j k : ℕ)
    → with_suffix limit base_slug j ≡ with_suffix limit base_slug k
    → j ≡ k
with_suffix-injective limit base_slug j k same = decimal-injective j k (
    sym (after_dash-with_suffix limit base_slug j)
    ∙ ap after_dash same
    ∙ after_dash-with_suffix limit base_slug k)

length-take : (n : ℕ) (s : Text) → length (take n s) ≤ n
unfolding take
length-take zero s = omega arith
length-take (suc n) [] = omega arith
length-take (suc n) (c ∷ s) = omega (arith, length-take n s)

length-slice_to : (limit n : ℕ) (s : Text) → n ≤ limit → length (slice_to limit n s) ≤ limit - n
unfolding slice_to
length-slice_to limit n s l = ground (arith, length-take (limit - n) s)

-- A slug with a suffix fits, if the suffix does.
length-with_suffix :
    (limit : ℕ) (base_slug : Text) (k : ℕ)
    → length (suffix_text k) ≤ limit
    → length (with_suffix limit base_slug k) ≤ limit
unfolding with_suffix
length-with_suffix limit base_slug k fits = omega (
  arith,
  length-append (slice_to limit (length (suffix_text k)) base_slug) (suffix_text k),
  length-slice_to limit (length (suffix_text k)) base_slug fits,
)

length-suffix_text : (d k : ℕ) → k < power_of_ten (suc d) → length (suffix_text k) ≤ suc (suc d)
unfolding suffix_text
length-suffix_text d k small = omega (arith, length-decimal k d small)

module _ {ℓ} {A : Type ℓ} (slug_of : A → Text) where
  -- A row has the slug.
  abbrev pub is_taken : List A → Text → Bool
  is_taken rows slug = exists (λ a. text_eq (slug_of a) slug) rows

  -- The rows with other slugs.
  abbrev others : Text → List A → List A
  others slug = select (λ a. not (text_eq (slug_of a) slug))

  length-others : (slug : Text) (rows : List A) → length (others slug rows) ≤ length rows
  unfolding select
  length-others slug [] = omega arith
  length-others slug (a ∷ rows) = ground (arith, length-others slug rows)

  length-others_taken :
      (slug : Text) (rows : List A)
      → is_taken rows slug ≡ true
      → length (others slug rows) < length rows
  unfolding select exists first
  length-others_taken slug [] taken = cc
  length-others_taken slug (a ∷ rows) taken =
      ground (arith, length-others slug rows, length-others_taken slug rows)

  -- Rows with one slug do not matter to another.
  is_taken-others :
      (slug other : Text) (rows : List A)
      → other ≢ slug
      → is_taken (others slug rows) other ≡ is_taken rows other
  unfolding select exists first
  is_taken-others slug other [] ne = refl
  is_taken-others slug other (a ∷ rows) ne = ground (
    arith,
    is_taken-others slug other rows ne,
    text_eq_iff (slug_of a) slug,
    text_eq_iff (slug_of a) other,
  )

  module _ (limit : ℕ) (base_slug : Text) where
    next_free-others :
        (slug : Text) (rows : List A) (fuel k : ℕ)
        → ((i : ℕ) → k ≤ i → with_suffix limit base_slug i ≢ slug)
        → next_free
            (is_taken (others slug rows))
            limit
            base_slug
            fuel
            (with_suffix limit base_slug k)
            k
          ≡ next_free (is_taken rows) limit base_slug fuel (with_suffix limit base_slug k) k
    unfolding next_free
    next_free-others slug rows zero k ne = refl
    next_free-others slug rows (suc fuel) k ne =
        rw
          (
            is_taken-others slug (with_suffix limit base_slug k) rows (ne k (omega arith)),
            next_free-others slug rows fuel (k + 1) (λ i l. ne i (omega arith)),
          )
          refl

    -- From a suffix on, more rounds than there are rows find a slug.
    next_free-some :
        (fuel k : ℕ) (rows : List A)
        → length rows < fuel
        → (slug : Text) × (next_free
              (is_taken rows)
              limit
              base_slug
              fuel
              (with_suffix limit base_slug k)
              k
            ≡ some slug)
    unfolding next_free
    next_free-some zero k rows enough = absurd (omega arith)
    next_free-some (suc fuel) k rows enough =
        let mine : Text = with_suffix limit base_slug k in
        elim (Bool-cases (is_taken rows mine)) [
          | inl taken ↦
              let (slug, e) =
                next_free-some fuel (k + 1) (others mine rows)
                  (omega (arith, length-others_taken mine rows taken)) in
              (
                slug,
                rw taken (
                    sym (
                      next_free-others mine rows fuel (k + 1) (λ i l same.
                        absurd (omega (arith, with_suffix-injective limit base_slug i k same))))
                    ∙ e),
              )
          | inr free ↦ (mine, rw free refl)
        ]

    -- What the loop returns is free, and fits if its candidates do.
    next_free-fits :
        (d : ℕ) (rows : List A) (fuel k : ℕ) (slug result : Text)
        → suc (suc d) ≤ limit
        → k + fuel < power_of_ten (suc d)
        → length slug ≤ limit
        → next_free (is_taken rows) limit base_slug fuel slug k ≡ some result
        → (is_taken rows result ≡ false) × (length result ≤ limit)
    unfolding next_free
    next_free-fits d rows zero k slug result wide small fits e = cc
    next_free-fits d rows (suc fuel) k slug result wide small fits e =
        elim (Bool-cases (is_taken rows slug)) [
          | inl taken ↦
              next_free-fits d rows fuel (k + 1) (with_suffix limit base_slug (k + 1)) result wide
                (omega arith)
                (length-with_suffix limit base_slug (k + 1)
                  (omega (arith, length-suffix_text d (k + 1) (omega arith))))
                (rw taken at e)
          | inr free ↦ ground arith
        ]

    -- More rounds than there are rows and one yield a slug that no row has and that fits, unless
    -- the suffix itself would not fit.
    pub unique_slug-total :
        (d : ℕ) (rows : List A) (fuel : ℕ)
        → suc (suc d) ≤ limit
        → suc (length rows) < fuel
        → 1 + fuel < power_of_ten (suc d)
        → (slug : Text) × (unique_slug (is_taken rows) limit fuel base_slug ≡ some slug)
          × (is_taken rows slug ≡ false)
          × (length slug ≤ limit)
    unfolding unique_slug next_free
    unique_slug-total d rows zero wide enough small = absurd (omega arith)
    unique_slug-total d rows (suc fuel) wide enough small =
        let start : Text = slice_to limit 0 base_slug in
        let (slug, e) : (slug : Text) × (next_free (is_taken rows) limit base_slug (suc fuel) start
                1
              ≡ some slug) =
          elim (Bool-cases (is_taken rows start)) [
            | inl taken ↦
                let (slug, e) = next_free-some fuel 2 rows (omega arith) in (slug, rw taken e)
            | inr free ↦ (start, rw free refl)
          ] in
        let (free, fits) =
          next_free-fits d rows (suc fuel) 1 start slug wide small
            (omega (arith, length-slice_to limit 0 base_slug (omega arith))) e in
        (slug, e, free, fits)
