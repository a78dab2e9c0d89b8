-- ===== src/Events/Publishing.antt =====
-- What the public sees of events: PublicEventService and UserEventService (apps/events/services.py).
pub mod Sharing
pub mod Highlights
use uevent_backend.Base.{
  ℕ, zero, suc, ◌-◌, Bool, true, false, not, ◌&&◌, ◌||◌, Option, none, some, List, [], ◌∷◌, ◌++◌,
  ◌==◌, ltb, leb, if◌then◌else◌, length,
}
use uevent_backend.Base.Texts.{Text, codes, text_eq}
use uevent_backend.Common.Errors.{
  Result, ok, err, ◌>>=◌, ◌>>◌, raise_if, or_raise, not_found, forbidden,
}
use uevent_backend.Orm.Table.{alive, first, find, select}
use uevent_backend.Registrations.Models.{EventRegistration}
use uevent_backend.Registrations.State.{Db, event_key, live_event}
use uevent_backend.Events.Models.{Event, Visibility, is_available}

abbrev pub is_private : Visibility → Bool
is_private Visibility.public = false
is_private Visibility.private = true

-- `visibility=PUBLIC, status__in=PUBLIC_EVENT_STATUSES`
abbrev pub is_public : Event → Bool
is_public e = not (is_private e.visibility) && is_available e.status

unfoldable pub get_public_event : ℕ → Db → Result Event
get_public_event event_id db =
    or_raise (first (λ e. alive e.deleted_at && (e.id == event_id && is_public e)) db.events)
      not_found

unfoldable pub get_public_event_by_slug : Text → Db → Result Event
get_public_event_by_slug slug db =
    or_raise (first (λ e. alive e.deleted_at && (text_eq e.slug slug && is_public e)) db.events)
      not_found

unfoldable pub get_shareable_public_event : ℕ → Db → Result Event
get_shareable_public_event event_id db = do
  event ← or_raise (live_event event_id db.events) not_found
  raise_if (is_private event.visibility) forbidden
  raise_if (not (is_available event.status)) not_found
  ok event

-- By `settings.PUBLIC_WEB_BASE_URL`.
unfoldable pub build_share_url : Text → Event → Text
build_share_url base_url event = base_url ++ codes "/events/share/" ++ event.slug

-- `rows[:n]`
unfoldable pub take {ℓ} : {A : Type ℓ} → ℕ → List A → List A
take zero rows = []
take (suc n) [] = []
take (suc n) (a ∷ rows) = a ∷ take n rows

-- `order_by("-key", "-created_at")` of rows in the order in which they were created
unfoldable pub insert_desc {ℓ} : {A : Type ℓ} → (A → ℕ) → A → List A → List A
insert_desc key a [] = a ∷ []
insert_desc key a (b ∷ rows) =
    let rest = insert_desc key a rows in if ltb (key b) (key a) then a ∷ b ∷ rows else b ∷ rest

unfoldable pub order_desc {ℓ} : {A : Type ℓ} → (A → ℕ) → List A → List A
unfolding insert_desc
order_desc key [] = []
order_desc key (a ∷ rows) = insert_desc key a (order_desc key rows)

-- The registration is live, the user's, and its event is not deleted.
unfoldable pub is_highlight : ℕ → List Event → EventRegistration → Bool
is_highlight actor events r =
    (alive r.deleted_at && r.user_id == actor)
    && elim (find event_key r.event_id events) [ none ↦ false | some e ↦ alive e.deleted_at ]

-- `[registration.event for registration in registrations]`
unfoldable pub events_of : List Event → List EventRegistration → List Event
events_of events [] = []
events_of events (r ∷ rows) = elim (find event_key r.event_id events) [
  | none ↦ events_of events rows
  | some e ↦ e ∷ events_of events rows
]

-- `id in ids`
unfoldable pub is_among : ℕ → List Event → Bool
is_among i [] = false
is_among i (e ∷ events) = (e.id == i) || is_among i events

unfoldable pub highlight_events_for_user : ℕ → ℕ → Db → List Event
unfolding take order_desc is_highlight events_of is_among
highlight_events_for_user actor limit db =
    let events : List Event = events_of db.events (
      take limit (
        order_desc (λ r. r.registered_at)
          (select (is_highlight actor db.events) db.registrations))) in
    let created : List Event =
      select (λ e. (alive e.deleted_at && e.created_by_id == actor) && not (is_among e.id events))
        db.events in
    if leb limit 0
    then []
    else if leb limit (length events)
    then events
    else events ++ take (limit - length events) (order_desc (λ e. e.created_at) created)
