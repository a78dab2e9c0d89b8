-- ===== src/Orm/Table/Reread.antt =====
-- A row that is read again after it has been saved.
use uevent_backend.Base.{
  ℕ, ◌≡◌, sym, ◌∙◌, Bool, true, false, none, some, List, arith, inl, inr, Option-cases,
}
use uevent_backend.Orm.Table.{first, find, update}
use uevent_backend.Orm.Table.Laws.{
  IsKeyed, IsKeyed-update, find-first, first-eq-some, first-eq-none, find-update_self,
}

pub some-injective {ℓ} : {A : Type ℓ} (a b : A) → some a ≡ some b → a ≡ b
some-injective a b e = cc e

-- Under a query that settles the key, what is read after a write is what was written.
module _ {ℓ} {A : Type ℓ} (key : A → ℕ) (f : A → A) (keeps : (a : A) → key (f a) ≡ key a) where
  pub first-update :
      (p : A → Bool) (i : ℕ) (rows : List A) (a b : A)
      → IsKeyed key rows
      → ((c : A) → p c ≡ true → key c ≡ i)
      → first p rows ≡ some a
      → first p (update key (key a) f rows) ≡ some b
      → b ≡ f a
  first-update p i rows a b k settles before after =
      let same : key b ≡ key a =
        settles b (first-eq-some p (update key (key a) f rows) b after)
        ∙ sym (settles a (first-eq-some p rows a before)) in
      let row =
        find-first key p (update key (key a) f rows) b (IsKeyed-update key f keeps (key a) rows k)
          after in
      let mine : find key (key b) (update key (key a) f rows) ≡ some (f a) =
        rw same (find-update_self key f keeps (key a) rows a (find-first key p rows a k before)) in
      some-injective b (f a) (sym row ∙ mine)

-- A query that settles the key finds the row of the key, if that passes.
module _ {ℓ} {A : Type ℓ} (key : A → ℕ) where
  pub first-of_find :
      (p : A → Bool) (i : ℕ) (rows : List A) (a : A)
      → IsKeyed key rows
      → ((c : A) → p c ≡ true → key c ≡ i)
      → find key i rows ≡ some a
      → p a ≡ true
      → first p rows ≡ some a
  first-of_find p i rows a k settles there passes = elim (Option-cases (first p rows)) [
    | inl n ↦ absurd (ground (arith, first-eq-none key p i rows a n there))
    | inr (b, s) ↦ ground (arith, settles b (first-eq-some p rows b s), find-first key p rows b k s)
  ]

  -- It finds nothing if the row of the key does not pass.
  pub first-refused :
      (p : A → Bool) (i : ℕ) (rows : List A) (a : A)
      → IsKeyed key rows
      → ((c : A) → p c ≡ true → key c ≡ i)
      → find key i rows ≡ some a
      → p a ≡ false
      → first p rows ≡ none
  first-refused p i rows a k settles there fails = elim (Option-cases (first p rows)) [
    | inl n ↦ n
    | inr (b, s) ↦ absurd (
        ground (
          arith,
          settles b (first-eq-some p rows b s),
          find-first key p rows b k s,
          first-eq-some p rows b s,
        ))
  ]

  -- Two queries that settle the same key find the same row, if that passes both.
  pub first-first :
      (p q : A → Bool) (i : ℕ) (rows : List A) (a : A)
      → IsKeyed key rows
      → ((c : A) → p c ≡ true → key c ≡ i)
      → ((c : A) → q c ≡ true → key c ≡ i)
      → first p rows ≡ some a
      → q a ≡ true
      → first q rows ≡ some a
  first-first p q i rows a k ps qs found passes =
      first-of_find q (key a) rows a k (λ c h. qs c h ∙ sym (ps a (first-eq-some p rows a found)))
        (find-first key p rows a k found) passes
