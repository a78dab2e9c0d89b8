-- ===== src/SystemAdmin/Categories/Homes.antt =====
-- No event is left without its category.
use uevent_backend.Base.{
  ℕ, ◌≡◌, ◌<◌, refl, sym, subst, ◌∙◌, Bool, true, ◌&&◌, some, List, [], ◌∷◌, arith, ◌==◌, ltb, inl,
  inr, Bool-cases, eq-cases,
}
use uevent_backend.Common.Errors.{ok, or_raise-eq-ok, >>=-eq-ok, ok-injective, not_found}
use uevent_backend.Common.Host.{Host}
use uevent_backend.Orm.Table.{alive, count, find, update}
use uevent_backend.Orm.Table.Laws.{IsKeyed, find-first, find-update_self, find-update_ne}
use uevent_backend.Orm.Table.Reread.{some-injective}
use uevent_backend.Registrations.State.{Db, event_key}
use uevent_backend.Events.Models.{Event, EventCategory}
use uevent_backend.SystemAdmin.Audit.{AuditEntry}
use uevent_backend.SystemAdmin.Categories.{
  category_key, get_category, event_count, deactivated, dead, retire, delete_category,
}

-- Every event that is not deleted has a category that is not deleted.
abbrev pub IsHoused : List Event → List EventCategory → Type 0
IsHoused events categories =
    (i : ℕ) (e : Event)
    → find event_key i events ≡ some e
    → alive e.deleted_at ≡ true
    → (c : EventCategory) × (find category_key e.category_id categories ≡ some c)
      × (alive c.deleted_at ≡ true)

-- A row that passes is counted.
count-find :
    (p : Event → Bool) (i : ℕ) (events : List Event) (e : Event)
    → find event_key i events ≡ some e
    → p e ≡ true
    → 0 < count p events
unfolding find count
count-find p i [] e h passes = ground arith
count-find p i (d ∷ events) e h passes = ground (arith, count-find p i events e)

-- A category may be written to if that keeps it alive, or if no live event is of it.
update-IsHoused :
    (f : EventCategory → EventCategory) (category : EventCategory) (events : List Event)
    (categories : List EventCategory)
    → ((c : EventCategory) → (f c).id ≡ c.id)
    → find category_key category.id categories ≡ some category
    → ((i : ℕ) (e : Event)
        → find event_key i events ≡ some e
        → alive e.deleted_at ≡ true
        → category.id ≡ e.category_id
        → alive category.deleted_at ≡ true
        → alive (f category).deleted_at ≡ true)
    → IsHoused events categories
    → IsHoused events (update category_key category.id f categories)
update-IsHoused f category events categories keeps there safe housed i e found living =
    let (c, home, alive_c) = housed i e found living in
    elim (eq-cases category.id e.category_id) [
      | inl same ↦
          let mine : some c ≡ some category =
            sym home
            ∙ subst (λ (j : ℕ). find category_key j categories ≡ some category) same there in
          (
            f category,
            subst
                (λ (j : ℕ).
                  find category_key j (update category_key category.id f categories)
                  ≡ some (f category))
                same (find-update_self category_key f keeps category.id categories category there),
            safe i e found living same (
                subst (λ (d : EventCategory). alive d.deleted_at ≡ true)
                  (some-injective c category mine) alive_c),
          )
      | inr ne ↦ (
        c,
        find-update_ne category_key f keeps category.id e.category_id categories ne ∙ home,
        alive_c,
      )
    ]

retire-IsHoused :
    (h : Host) (actor : ℕ) (category : EventCategory) (db : Db)
    → find category_key category.id db.categories ≡ some category
    → IsHoused db.events db.categories
    → IsHoused (retire h actor category db).1.events (retire h actor category db).1.categories
unfolding retire event_count
retire-IsHoused h actor category db there housed =
    elim (Bool-cases (ltb 0 (event_count category.id db.events))) [
      | inl used ↦ rw used (
          update-IsHoused deactivated category db.events db.categories (λ c. refl) there
            (λ i e found living same alive_c. alive_c) housed)
      | inr unused ↦ rw unused (
          update-IsHoused (dead h.now) category db.events db.categories (λ c. refl) there
            (λ i e found living same alive_c. absurd (
              ground (
                arith,
                count-find (λ d. alive d.deleted_at && d.category_id == category.id) i db.events e
                    found,
              )))
            housed)
    ]

-- With unique keys, deleting a category leaves no live event without a live category: a category
-- that is in use is only deactivated.
pub delete_category-IsHoused :
    (h : Host) (actor category_id : ℕ) (db : Db) (e : AuditEntry) (db' : Db)
    → IsKeyed category_key db.categories
    → IsHoused db.events db.categories
    → delete_category h actor category_id db ≡ ok (e, db')
    → IsHoused db'.events db'.categories
unfolding delete_category get_category
delete_category-IsHoused h actor category_id db e db' keyed housed done =
    let out : AuditEntry × Db = (e, db') in
    let (category, got, e₁) =
      >>=-eq-ok (get_category category_id db.categories) (λ c. ok (retire h actor c db)) out done in
    let found = or_raise-eq-ok _ not_found category got in
    subst (λ (d : AuditEntry × Db). IsHoused d.1.events d.1.categories)
      (ok-injective (retire h actor category db) out e₁)
      (retire-IsHoused h actor category db
        (find-first category_key (λ c. alive c.deleted_at && c.id == category_id) db.categories
          category keyed found)
        housed)
