-- ===== src/Support/Publishing/Dates.antt =====
-- The date of a publication.
use uevent_backend.Base.{
  ℕ, ◌≡◌, refl, ap, subst, sym, ◌∙◌, ◌&&◌, Option, none, some, List, ◌==◌, arith,
}
use uevent_backend.Common.Errors.{ok, >>=-eq-ok, ok-injective, or_raise-eq-ok, not_found}
use uevent_backend.Common.Host.{Host}
use uevent_backend.Orm.Table.{alive, update}
use uevent_backend.Orm.Table.Laws.{IsKeyed, IsKeyed-update}
use uevent_backend.Orm.Table.Reread.{first-update}
use uevent_backend.Support.Models.{Publication}
use uevent_backend.Support.Publishing.{
  publication_key, lock_publication, or_now, publish, archive, publish_publication,
  archive_publication,
}

-- What is locked after a write is what was written.
module _ (f : Publication → Publication)
    (keeps : (p : Publication) → publication_key (f p) ≡ publication_key p) where
  lock_publication-update :
      (i : ℕ) (rows : List Publication) (p q : Publication)
      → IsKeyed publication_key rows
      → lock_publication i rows ≡ ok p
      → lock_publication i (update publication_key p.id f rows) ≡ ok q
      → q ≡ f p
  unfolding lock_publication
  lock_publication-update i rows p q k found read =
      first-update publication_key f keeps (λ r. alive r.deleted_at && r.id == i) i rows p q k
        (λ r h. ground arith) (or_raise-eq-ok _ not_found p found)
        (or_raise-eq-ok _ not_found q read)

or_now-kept : (h h' : Host) (o : Option ℕ) → or_now h' (or_now h o) ≡ or_now h o
or_now-kept h h' none = refl
or_now-kept h h' (some t) = refl

-- A publication keeps the date of its first publishing: what is published, archived and published
-- again has the date that it had after the first time.
publish_publication-again :
    (h h' : Host) (i : ℕ) (rows rows₁ rows₂ rows₃ : List Publication) (p₁ p₂ p₃ : Publication)
    → IsKeyed publication_key rows
    → publish_publication h i rows ≡ ok (p₁, rows₁)
    → archive_publication i rows₁ ≡ ok (p₂, rows₂)
    → publish_publication h' i rows₂ ≡ ok (p₃, rows₃)
    → p₃.published_at ≡ p₁.published_at
unfolding publish_publication archive_publication
publish_publication-again h h' i rows rows₁ rows₂ rows₃ p₁ p₂ p₃ k e₁ e₂ e₃ =
    let (a, found₁, out₁) = >>=-eq-ok _ _ (p₁, rows₁) e₁ in
    let (b, found₂, out₂) = >>=-eq-ok _ _ (p₂, rows₂) e₂ in
    let (c, found₃, out₃) = >>=-eq-ok _ _ (p₃, rows₃) e₃ in
    let made₁ =
      ap (λ (d : Publication × List Publication). d.0) (ok-injective _ (p₁, rows₁) out₁) in
    let kept₁ =
      ap (λ (d : Publication × List Publication). d.1) (ok-injective _ (p₁, rows₁) out₁) in
    let kept₂ =
      ap (λ (d : Publication × List Publication). d.1) (ok-injective _ (p₂, rows₂) out₂) in
    let made₃ =
      ap (λ (d : Publication × List Publication). d.0) (ok-injective _ (p₃, rows₃) out₃) in
    let k₁ = IsKeyed-update publication_key (publish h) (λ _. refl) a.id rows k in
    let read₂ : lock_publication i (update publication_key a.id (publish h) rows) ≡ ok b =
      rw kept₁ found₂ in
    let bs = lock_publication-update (publish h) (λ _. refl) i rows a b k found₁ read₂ in
    let read₃ : lock_publication i (update publication_key b.id archive rows₁) ≡ ok c =
      rw kept₂ found₃ in
    let cs =
      lock_publication-update archive (λ _. refl) i rows₁ b c
        (subst (IsKeyed publication_key) kept₁ k₁) found₂ read₃ in
    sym (ap (λ (p : Publication). p.published_at) made₃)
    ∙ ap (λ (p : Publication). or_now h' p.published_at) (cs ∙ ap archive bs)
    ∙ or_now-kept h h' a.published_at
    ∙ ap (λ (p : Publication). p.published_at) made₁
