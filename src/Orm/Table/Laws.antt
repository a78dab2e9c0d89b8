-- ===== src/Orm/Table/Laws.antt =====
-- The laws of reading a table after a write.
use uevent_backend.Base.{
  ℕ, ◌+◌, ◌≡◌, refl, Bool, true, false, none, some, List, [], ◌∷◌, arith, ◌==◌, if◌then◌else◌, ◌||◌,
  weight, ◌≢◌, ◌⊎◌, inl, inr, eq-cases, Option-cases,
}
use uevent_backend.Orm.Table.{first, latest, exists, count, append, find, update}

module _ {ℓ} {A : Type ℓ} where
  -- What `first` finds passes the test.
  pub first-eq-some : (p : A → Bool) (rows : List A) (a : A) → first p rows ≡ some a → p a ≡ true
  unfolding first
  first-eq-some p [] a h = ground arith
  first-eq-some p (b ∷ rows) a h = ground (arith, first-eq-some p rows a)

  pub first-of_exists : (p : A → Bool) (rows : List A) → exists p rows ≡ false → first p rows ≡ none
  unfolding exists
  first-of_exists p rows h = ground arith

  pub latest-eq-some : (p : A → Bool) (rows : List A) (a : A) → latest p rows ≡ some a → p a ≡ true
  unfolding latest
  latest-eq-some p [] a h = ground arith
  latest-eq-some p (b ∷ rows) a h = elim (Option-cases (latest p rows)) [
    | inl n ↦ ground arith
    | inr (c, s) ↦ ground (arith, latest-eq-some p rows c s)
  ]

  -- A test that is no weaker finds nothing either.
  pub exists-stronger :
      (p q : A → Bool) (rows : List A)
      → ((a : A) → p a ≡ true → q a ≡ true)
      → exists q rows ≡ false
      → exists p rows ≡ false
  unfolding exists first
  exists-stronger p q [] stronger h = refl
  exists-stronger p q (a ∷ rows) stronger h =
      ground (arith, stronger a, exists-stronger p q rows stronger)

  pub exists-or :
      (p q : A → Bool) (rows : List A)
      → exists (λ a. p a || q a) rows ≡ (exists p rows || exists q rows)
  unfolding exists first
  exists-or p q [] = refl
  exists-or p q (a ∷ rows) = ground (arith, exists-or p q rows)

  pub first-append :
      (p : A → Bool) (rows : List A) (a : A)
      → first p (append rows a)
        ≡ elim (first p rows) [ some b ↦ some b | none ↦ if p a then some a else none ]
  unfolding append first
  first-append p [] a = refl
  first-append p (b ∷ rows) a = ground (arith, first-append p rows a)

  -- A row that alone passes a test, once it is in.
  pub first-append_new :
      (p : A → Bool) (rows : List A) (a : A)
      → exists p rows ≡ false
      → p a ≡ true
      → first p (append rows a) ≡ some a
  first-append_new p rows a none_in new =
      ground (arith, first-append p rows a, first-of_exists p rows none_in)

  -- A row that is found stays.
  pub first-append_old :
      (p : A → Bool) (rows : List A) (a b : A)
      → first p rows ≡ some b
      → first p (append rows a) ≡ some b
  first-append_old p rows a b h = ground (arith, first-append p rows a)

  pub exists-of_first :
      (p : A → Bool) (rows : List A) (a : A) → first p rows ≡ some a → exists p rows ≡ true
  unfolding exists
  exists-of_first p rows a h = ground arith

  pub count-append :
      (p : A → Bool) (rows : List A) (a : A) → count p (append rows a) ≡ count p rows + weight (p a)
  unfolding count append
  count-append p [] a = omega arith
  count-append p (b ∷ rows) a = omega (arith, count-append p rows a)

module _ {ℓ} {A : Type ℓ} (key : A → ℕ) where
  -- No primary key occurs twice.
  abbrev pub IsKeyed : List A → Type ℓ
  IsKeyed [] = Unit
  IsKeyed (a ∷ rows) = (find key (key a) rows ≡ none) × IsKeyed rows

  -- A row that is found has the key.
  pub key-find : (i : ℕ) (rows : List A) (a : A) → find key i rows ≡ some a → key a ≡ i
  unfolding find
  key-find i [] a h = ground arith
  key-find i (b ∷ rows) a h = ground (arith, key-find i rows a)

  -- Among rows with distinct keys, what `first` finds is the row of its key.
  pub find-first :
      (p : A → Bool) (rows : List A) (a : A)
      → IsKeyed rows
      → first p rows ≡ some a
      → find key (key a) rows ≡ some a
  unfolding find first
  find-first p [] a k h = ground arith
  find-first p (b ∷ rows) a k h = ground (arith, find-first p rows a k.1)

  -- A row that `first` has passed over fails the test.
  pub first-eq-none :
      (p : A → Bool) (i : ℕ) (rows : List A) (a : A)
      → first p rows ≡ none
      → find key i rows ≡ some a
      → p a ≡ false
  unfolding find first
  first-eq-none p i [] a n h = ground arith
  first-eq-none p i (b ∷ rows) a n h = ground (arith, first-eq-none p i rows a)

  -- A test that every row with a key fails, and that no row passes: the key is free.
  pub find-eq-none :
      (p : A → Bool) (i : ℕ) (rows : List A)
      → ((a : A) → key a ≡ i → p a ≡ true)
      → exists p rows ≡ false
      → find key i rows ≡ none
  find-eq-none p i rows passes h = elim (Option-cases (find key i rows)) [
    | inl n ↦ n
    | inr (a, s) ↦
        cc (passes a (key-find i rows a s), first-eq-none p i rows a (first-of_exists p rows h) s)
  ]

  pub exists-of_find :
      (p : A → Bool) (i : ℕ) (rows : List A) (a : A)
      → find key i rows ≡ some a
      → p a ≡ true
      → exists p rows ≡ true
  unfolding exists
  exists-of_find p i rows a h passes = elim (Option-cases (first p rows)) [
    | inl n ↦ absurd (ground (arith, first-eq-none p i rows a n h))
    | inr (b, s) ↦ ground arith
  ]

  -- The same of what `latest` finds.
  pub find-latest :
      (p : A → Bool) (rows : List A) (a : A)
      → IsKeyed rows
      → latest p rows ≡ some a
      → find key (key a) rows ≡ some a
  unfolding find latest
  find-latest p [] a k h = ground arith
  find-latest p (b ∷ rows) a k h = elim (Option-cases (latest p rows)) [
    | inl n ↦ ground arith
    | inr (c, s) ↦ ground (arith, find-latest p rows c k.1 s)
  ]

  pub find-append :
      (i : ℕ) (rows : List A) (a : A)
      → find key i (append rows a)
        ≡ elim (find key i rows) [ some b ↦ some b | none ↦ if key a == i then some a else none ]
  unfolding find append
  find-append i [] a = refl
  find-append i (b ∷ rows) a = ground (arith, find-append i rows a)

  pub IsKeyed-append :
      (rows : List A) (a : A)
      → IsKeyed rows
      → find key (key a) rows ≡ none
      → IsKeyed (append rows a)
  unfolding find append
  IsKeyed-append [] a k h = (refl, tt)
  IsKeyed-append (b ∷ rows) a k h =
      (ground (arith, find-append (key b) rows a), IsKeyed-append rows a k.1 (ground arith))

  -- Where a row that is found after an INSERT comes from.
  pub find-append-inv :
      (j : ℕ) (rows : List A) (a b : A)
      → find key j (append rows a) ≡ some b
      → (find key j rows ≡ some b) ⊎ ((find key j rows ≡ none) × (key a ≡ j) × (b ≡ a))
  find-append-inv j rows a b h = ground (arith, find-append j rows a)

  pub find-append_old :
      (j : ℕ) (rows : List A) (a b : A)
      → find key j rows ≡ some b
      → find key j (append rows a) ≡ some b
  find-append_old j rows a b h = ground (arith, find-append j rows a)

  pub find-append_ne :
      (j : ℕ) (rows : List A) (a : A) → key a ≢ j → find key j (append rows a) ≡ find key j rows
  find-append_ne j rows a h = ground (arith, find-append j rows a)

  pub find-append_self :
      (rows : List A) (a : A)
      → find key (key a) rows ≡ none
      → find key (key a) (append rows a) ≡ some a
  find-append_self rows a h = ground (arith, find-append (key a) rows a)

  module _ (f : A → A) (keeps : (a : A) → key (f a) ≡ key a) where
    pub find-update :
        (i j : ℕ) (rows : List A)
        → find key j (update key i f rows)
          ≡ elim (find key j rows) [ some a ↦ if i == j then some (f a) else some a | none ↦ none ]
    unfolding find update
    find-update i j [] = refl
    find-update i j (a ∷ rows) = ground (arith, keeps a, find-update i j rows)

    pub find-update_self :
        (i : ℕ) (rows : List A) (a : A)
        → find key i rows ≡ some a
        → find key i (update key i f rows) ≡ some (f a)
    find-update_self i rows a h = ground (arith, find-update i i rows)

    pub find-update_ne :
        (i j : ℕ) (rows : List A) → i ≢ j → find key j (update key i f rows) ≡ find key j rows
    find-update_ne i j rows h = ground (arith, find-update i j rows)

    -- Where a row that is found after a write comes from.
    pub find-update-inv :
        (i j : ℕ) (rows : List A) (b : A)
        → find key j (update key i f rows) ≡ some b
        → ((a : A) × (i ≡ j) × (find key j rows ≡ some a) × (b ≡ f a))
          ⊎ ((i ≢ j) × (find key j rows ≡ some b))
    find-update-inv i j rows b h = elim (eq-cases i j) [
      | inl e ↦ elim (Option-cases (find key j rows)) [
        | inl n ↦ ground (arith, find-update i j rows)
        | inr (a, s) ↦ inl (a, e, s, ground (arith, find-update i j rows))
      ]
      | inr ne ↦ inr (ne, ground (arith, find-update i j rows))
    ]

    pub IsKeyed-update : (i : ℕ) (rows : List A) → IsKeyed rows → IsKeyed (update key i f rows)
    unfolding find update
    IsKeyed-update i [] k = tt
    IsKeyed-update i (a ∷ rows) k =
        ground (arith, keeps a, IsKeyed-update i rows k.1, find-update i (key a) rows)

  -- A count after the row `a` has become `f a`.
  pub count-update :
      (f : A → A) (p : A → Bool) (i : ℕ) (rows : List A) (a : A)
      → find key i rows ≡ some a
      → count p (update key i f rows) + weight (p a) ≡ count p rows + weight (p (f a))
  unfolding find update count
  count-update f p i [] a h = ground arith
  count-update f p i (b ∷ rows) a h = ground (arith, count-update f p i rows a)
