-- ===== src/Events/Input.antt =====
-- What OrganizerEventInputSerializer (apps/events/serializers.py) lets through. A key that the
-- request leaves out is `none`; a request that creates an event has the defaults put in. Texts are
-- those that the field has parsed, which trims them, and times and keys are of their types.
use uevent_backend.Base.{
  ℕ, Bool, true, false, not, length, ◌&&◌, Option, none, some, List, ◌==◌, ltb, leb,
}
use uevent_backend.Base.Texts.{Text, strip, is_nonempty}
use uevent_backend.Common.Errors.{
  Result, ok, ◌>>=◌, ◌>>◌, raise_if, or_raise, validation_error, blank_title, unknown_category,
  inactive_category, unknown_room, no_capacity, end_before_start, close_before_open,
  close_after_start, deadline_after_start, too_long, no_choice,
}
use uevent_backend.Orm.Table.{alive, first, exists}
use uevent_backend.Events.Models.{EventCategory, EventStatus, Visibility}
use uevent_backend.Registrations.State.{Db}

pub record EventData : Type 0 where
  pub title : Option Text
  pub slug : Option Text
  pub category : Option ℕ
  pub room : Option (Option ℕ)
  pub description : Option Text
  pub visibility : Option Visibility
  pub status : Option EventStatus
  pub registration_open_at : Option (Option ℕ)
  pub registration_close_at : Option (Option ℕ)
  pub cancellation_deadline_at : Option (Option ℕ)
  pub start_at : Option ℕ
  pub end_at : Option ℕ
  pub max_capacity : Option (Option ℕ)
  pub location_snapshot : Option (Option Text)
  pub cover_image_key : Option (Option Text)
  pub deep_link : Option (Option Text)

-- `data.get(key, default)`, and `data.get(key)` of a value that may be null
abbrev pub get_or {ℓ} : {A : Type ℓ} → A → Option A → A
get_or default none = default
get_or default (some a) = a

abbrev pub nullable {ℓ} : {A : Type ℓ} → Option (Option A) → Option A
nullable none = none
nullable (some a) = a

-- A text of at most so many characters, if there is one.
unfoldable pub fits : ℕ → Option Text → Bool
fits width none = true
fits width (some s) = leb (length s) width

-- `choices=[DRAFT, ACTIVE]`
abbrev pub is_choice : Option EventStatus → Bool
is_choice none = true
is_choice (some EventStatus.draft) = true
is_choice (some EventStatus.active) = true
is_choice (some _) = false

-- The validators of the fields that the model's types leave open.
unfoldable pub validate_fields : EventData → Result (Unit {0})
unfolding fits
validate_fields input = do
  raise_if (not (fits 255 input.title)) (validation_error too_long)
  raise_if (not (fits 500 (nullable input.cover_image_key))) (validation_error too_long)
  raise_if (not (is_choice input.status)) (validation_error no_choice)

-- `validate_title`
unfoldable pub validate_title : Option Text → Result (Unit {0})
validate_title none = ok tt
validate_title (some title) =
    raise_if (not (is_nonempty (strip title))) (validation_error blank_title)

unfoldable pub validate_category : Option ℕ → List EventCategory → Result (Unit {0})
validate_category none categories = ok tt
validate_category (some value) categories = do
  category ←
      or_raise (first (λ c. alive c.deleted_at && c.id == value) categories)
        (validation_error unknown_category)
  raise_if (not category.is_active) (validation_error inactive_category)

unfoldable pub validate_room : Option ℕ → Db → Result (Unit {0})
validate_room none db = ok tt
validate_room (some value) db =
    raise_if (not (exists (λ r. alive r.deleted_at && r.id == value) db.rooms))
      (validation_error unknown_room)

-- A negative capacity is no value of the model.
unfoldable pub validate_max_capacity : Option ℕ → Result (Unit {0})
validate_max_capacity none = ok tt
validate_max_capacity (some value) = raise_if (leb value 0) (validation_error no_capacity)

-- `a is not None and b is not None and a > b`
abbrev pub is_after : Option ℕ → Option ℕ → Bool
is_after none b = false
is_after (some a) none = false
is_after (some a) (some b) = ltb b a

-- The same with `>=`.
abbrev pub is_not_before : Option ℕ → Option ℕ → Bool
is_not_before none b = false
is_not_before (some a) none = false
is_not_before (some a) (some b) = leb b a

-- `validate`: the tests across fields, of what the request itself holds.
unfoldable pub validate : EventData → Result (Unit {0})
validate input = do
  raise_if (is_not_before input.start_at input.end_at) (validation_error end_before_start)
  raise_if (is_after (nullable input.registration_open_at) (nullable input.registration_close_at))
      (validation_error close_before_open)
  raise_if (is_after (nullable input.registration_close_at) input.start_at)
      (validation_error close_after_start)
  raise_if (is_after (nullable input.cancellation_deadline_at) input.start_at)
      (validation_error deadline_after_start)

-- `is_valid(raise_exception=True)`. Where several fields are wrong the response names them all, and
-- the model the first.
unfoldable pub is_valid : EventData → Db → Result (Unit {0})
unfolding validate_fields validate_title validate_category validate_room validate_max_capacity
    validate
is_valid input db = do
  validate_fields input
  validate_title input.title
  validate_category input.category db.categories
  validate_room (nullable input.room) db
  validate_max_capacity (nullable input.max_capacity)
  validate input
