-- ===== src/Orm/Table.antt =====
-- Tables of rows. A table is the list of its rows in the order in which they were inserted, dead
-- (soft-deleted) rows included; `alive` is the filter of `SoftDeleteManager` (common/models.py).
pub mod Laws
pub mod Reread
use uevent_backend.Base.{
  ℕ, zero, suc, ◌+◌, Bool, true, false, ◌&&◌, Option, none, some, List, [], ◌∷◌, ◌++◌, ◌==◌,
  if◌then◌else◌, is_some, weight,
}

-- `deleted_at IS NULL`
abbrev pub alive : Option ℕ → Bool
alive none = true
alive (some _) = false

module _ {ℓ} {A : Type ℓ} where
  -- `filter(p).first()`, and `get` on columns that the database keeps unique
  unfoldable pub first : (A → Bool) → List A → Option A
  first p [] = none
  first p (a ∷ rows) = if p a then some a else first p rows

  -- `filter(p).first()` of a table that is ordered by `-created_at`: the row that came last
  unfoldable pub latest : (A → Bool) → List A → Option A
  latest p [] = none
  latest p (a ∷ rows) = elim (latest p rows) [
    | some b ↦ some b
    | none ↦ if p a then some a else none
  ]

  -- `filter(p)`
  unfoldable pub select : (A → Bool) → List A → List A
  select p [] = []
  select p (a ∷ rows) = let rest = select p rows in if p a then a ∷ rest else rest

  -- `filter(p).exists()`
  unfoldable pub exists : (A → Bool) → List A → Bool
  unfolding first
  exists p rows = is_some (first p rows)

  -- `filter(p).count()`
  unfoldable pub count : (A → Bool) → List A → ℕ
  count p [] = 0
  count p (a ∷ rows) = weight (p a) + count p rows

  -- `filter(p).update(...)`
  unfoldable pub update_where : (A → Bool) → (A → A) → List A → List A
  update_where p f [] = []
  update_where p f (a ∷ rows) = (if p a then f a else a) ∷ update_where p f rows

  -- an INSERT
  unfoldable pub append : List A → A → List A
  append rows a = rows ++ a ∷ []

module _ {ℓ} {A : Type ℓ} (key : A → ℕ) where
  -- the row with this primary key
  unfoldable pub find : ℕ → List A → Option A
  find i [] = none
  find i (a ∷ rows) = if key a == i then some a else find i rows

  -- `save(update_fields=...)` of the row with this primary key
  unfoldable pub update : ℕ → (A → A) → List A → List A
  update i f [] = []
  update i f (a ∷ rows) = if key a == i then f a ∷ rows else a ∷ update i f rows
