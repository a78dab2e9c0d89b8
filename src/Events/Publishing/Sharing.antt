-- ===== src/Events/Publishing/Sharing.antt =====
-- Which events the public reaches, and by which address.
use uevent_backend.Base.{
  ℕ, ◌≡◌, refl, Bool, true, false, ◌&&◌, some, List, [], ◌∷◌, arith, ◌↔◌, inl, inr, Option-cases,
  ◌==◌,
}
use uevent_backend.Base.Texts.{text_eq, text_eq_iff, text_eq_refl}
use uevent_backend.Common.Errors.{ok, ◌>>=◌, or_raise-eq-ok, not_found}
use uevent_backend.Orm.Table.{alive, first, exists}
use uevent_backend.Orm.Table.Laws.{IsKeyed, first-eq-some}
use uevent_backend.Orm.Table.Reread.{first-first}
use uevent_backend.Registrations.State.{Db, event_key, live_event}
use uevent_backend.Events.Models.{Event}
use uevent_backend.Events.Editing.{has_slug}
use uevent_backend.Events.Publishing.{
  get_public_event, get_public_event_by_slug, get_shareable_public_event, is_public,
}

-- No two rows have one slug.
abbrev pub IsSlugged : List Event → Type 0
IsSlugged [] = Unit
IsSlugged (e ∷ rows) = (has_slug rows e.slug ≡ false) × IsSlugged rows

-- A live event of the key that the public sees.
abbrev pub is_shown : ℕ → Event → Bool
is_shown event_id e = alive e.deleted_at && (e.id == event_id && is_public e)

abbrev is_live_at : ℕ → Event → Bool
is_live_at event_id e = alive e.deleted_at && e.id == event_id

get_shareable-shown :
    (event_id : ℕ) (db : Db) (e : Event)
    → get_shareable_public_event event_id db ≡ ok e
    → (live_event event_id db.events ≡ some e) × (is_public e ≡ true)
unfolding get_shareable_public_event ◌>>=◌
get_shareable-shown event_id db e h = elim (Option-cases (live_event event_id db.events)) [
  | inl n ↦ ground arith
  | inr (c, s) ↦ ground arith
]

get_shareable-ok :
    (event_id : ℕ) (db : Db) (e : Event)
    → live_event event_id db.events ≡ some e
    → is_public e ≡ true
    → get_shareable_public_event event_id db ≡ ok e
unfolding get_shareable_public_event ◌>>=◌
get_shareable-ok event_id db e living shown = ground arith

-- With unique keys, an event may be shared exactly if its page can be opened, and both give the
-- same event.
pub get_shareable_public_event-get_public_event :
    (event_id : ℕ) (db : Db) (e : Event)
    → IsKeyed event_key db.events
    → (get_shareable_public_event event_id db ≡ ok e) ↔ (get_public_event event_id db ≡ ok e)
unfolding get_shareable_public_event get_public_event live_event ◌>>=◌
get_shareable_public_event-get_public_event event_id db e keyed = (
  (λ shared.
      let (living, shown) = get_shareable-shown event_id db e shared in
      let passes = first-eq-some (is_live_at event_id) db.events e living in
      rw
        (first-first event_key (is_live_at event_id) (is_shown event_id) event_id db.events e keyed
          (λ c. ground arith) (λ c. ground arith) living (ground arith))
        refl),
  (λ opened.
      let found = or_raise-eq-ok (first (is_shown event_id) db.events) not_found e opened in
      let passes = first-eq-some (is_shown event_id) db.events e found in
      get_shareable-ok event_id db e
        (first-first event_key (is_shown event_id) (is_live_at event_id) event_id db.events e keyed
          (λ c. ground arith) (λ c. ground arith) found (ground arith))
        (ground arith)),
)

has_slug-first :
    (p : Event → Bool) (rows : List Event) (e : Event)
    → first p rows ≡ some e
    → has_slug rows e.slug ≡ true
unfolding exists first
has_slug-first p [] e h = cc
has_slug-first p (c ∷ rows) e h = ground (arith, has_slug-first p rows e, text_eq_refl c.slug)

-- Among rows with unique slugs, what a test finds is also found by its slug.
first-by_slug :
    (p q : Event → Bool) (rows : List Event) (e : Event)
    → IsSlugged rows
    → first p rows ≡ some e
    → ((c : Event) → q c ≡ true → c.slug ≡ e.slug)
    → q e ≡ true
    → first q rows ≡ some e
unfolding first
first-by_slug p q [] e slugs h same passes = cc
first-by_slug p q (c ∷ rows) e slugs h same passes =
    ground (arith, first-by_slug p q rows e slugs.1, has_slug-first p rows e, same c)

-- The page that a share link points to opens on the event that was shared: with unique keys and
-- slugs, an event that may be shared is found by its slug.
pub get_public_event_by_slug-get_shareable :
    (event_id : ℕ) (db : Db) (e : Event)
    → IsKeyed event_key db.events
    → IsSlugged db.events
    → get_shareable_public_event event_id db ≡ ok e
    → get_public_event_by_slug e.slug db ≡ ok e
unfolding get_public_event_by_slug live_event
get_public_event_by_slug-get_shareable event_id db e keyed slugs shared =
    let (living, shown) = get_shareable-shown event_id db e shared in
    let passes = first-eq-some (is_live_at event_id) db.events e living in
    rw
      (first-by_slug (is_live_at event_id)
        (λ c. alive c.deleted_at && (text_eq c.slug e.slug && is_public c)) db.events e slugs living
        (λ c q. (text_eq_iff c.slug e.slug).0 (ground arith))
        (rw (text_eq_refl e.slug, shown) (ground arith)))
      refl
