-- ===== src/Events/Editing/Schedule.antt =====
-- The times of an event: what the serializer's tests across fields give for a new event, and what
-- they leave open for an update.
use uevent_backend.Base.{ℕ, ◌≡◌, ◌≤◌, ◌<◌, refl, subst, false, Option, none, some, arith}
use uevent_backend.Base.Texts.{Text}
use uevent_backend.Common.Errors.{
  ok, ◌>>=◌, raise_if, raise_if-eq-ok, >>=-eq-ok, validation_error, end_before_start,
  close_before_open, close_after_start,
}
use uevent_backend.Common.Host.{Host}
use uevent_backend.Orm.Table.Laws.{IsKeyed}
use uevent_backend.Registrations.State.{Db, event_key}
use uevent_backend.Events.Models.{Event}
use uevent_backend.Events.Access.{get_event}
use uevent_backend.Events.Input.{
  EventData, nullable, is_valid, fits, validate_fields, validate, validate_title, validate_category,
  validate_room, validate_max_capacity, is_after, is_not_before,
}
use uevent_backend.Events.Editing.{
  check_columns, fits_columns, has_references, create_event, draft_event, update_event,
  updated_event,
}
use uevent_backend.Events.Editing.Owners.{new_event-eq-ok, create_event-inserts}
use uevent_backend.Events.Editing.Updates.{update_event-total, outcome}

-- It ends after it starts, and its registration opens before it closes, which like the deadline for
-- cancellations is no later than the start.
pub record IsScheduled (e : Event) : Type 0 where
  pub lasts : e.start_at < e.end_at
  pub opens_first :
      (a b : ℕ) → e.registration_open_at ≡ some a → e.registration_close_at ≡ some b → a ≤ b
  pub closes_first : (b : ℕ) → e.registration_close_at ≡ some b → b ≤ e.start_at
  pub settled_first : (c : ℕ) → e.cancellation_deadline_at ≡ some c → c ≤ e.start_at

valid-validate : (input : EventData) (db : Db) → is_valid input db ≡ ok tt → validate input ≡ ok tt
unfolding is_valid
valid-validate input db valid =
    let (_, _, e₀) = >>=-eq-ok (validate_fields input) _ tt valid in
    let (_, _, e₁) = >>=-eq-ok (validate_title input.title) _ tt e₀ in
    let (_, _, e₂) = >>=-eq-ok (validate_category input.category db.categories) _ tt e₁ in
    let (_, _, e₃) = >>=-eq-ok (validate_room (nullable input.room) db) _ tt e₂ in
    let (_, _, e₄) = >>=-eq-ok (validate_max_capacity (nullable input.max_capacity)) _ tt e₃ in e₄

validate-passes :
    (input : EventData)
    → validate input ≡ ok tt
    → (is_not_before input.start_at input.end_at ≡ false)
      × (is_after (nullable input.registration_open_at) (nullable input.registration_close_at)
          ≡ false)
      × (is_after (nullable input.registration_close_at) input.start_at ≡ false)
      × (is_after (nullable input.cancellation_deadline_at) input.start_at ≡ false)
unfolding validate
validate-passes input valid =
    let (_, a, e₁) =
      >>=-eq-ok
        (raise_if (is_not_before input.start_at input.end_at) (validation_error end_before_start)) _
        tt valid in
    let (_, b, e₂) =
      >>=-eq-ok
        (raise_if
          (is_after (nullable input.registration_open_at) (nullable input.registration_close_at))
          (validation_error close_before_open))
        _ tt e₁ in
    let (_, c, e₃) =
      >>=-eq-ok
        (raise_if (is_after (nullable input.registration_close_at) input.start_at)
          (validation_error close_after_start))
        _ tt e₂ in
    (
      raise_if-eq-ok _ _ _ a,
      raise_if-eq-ok _ _ _ b,
      raise_if-eq-ok _ _ _ c,
      raise_if-eq-ok _ _ _ e₃,
    )

is_after-eq-false :
    (x y : Option ℕ) (a b : ℕ) → is_after x y ≡ false → x ≡ some a → y ≡ some b → a ≤ b
is_after-eq-false none y a b h p q = cc
is_after-eq-false (some c) none a b h p q = cc
is_after-eq-false (some c) (some d) a b h p q = ground arith

draft_event-IsScheduled :
    (h : Host) (actor : ℕ) (slug : Text) (category start_at end_at : ℕ) (input : EventData)
    → validate input ≡ ok tt
    → input.start_at ≡ some start_at
    → input.end_at ≡ some end_at
    → IsScheduled (draft_event h actor slug category start_at end_at input)
unfolding draft_event
draft_event-IsScheduled h actor slug category start_at end_at input valid s t =
    let (lasts, opens, closes, settled) = validate-passes input valid in
    record {
      lasts = ground arith;
      opens_first = λ a b p q.
          is_after-eq-false (nullable input.registration_open_at)
            (nullable input.registration_close_at) a b opens p q;
      closes_first = λ b q.
          is_after-eq-false (nullable input.registration_close_at) input.start_at b start_at closes
            q s;
      settled_first = λ c q.
          is_after-eq-false (nullable input.cancellation_deadline_at) input.start_at c start_at
            settled q s;
    }

-- An event that is created from a request that the serializer accepts ends after it starts, closes
-- its registration no earlier than it opens it, and does both that and end cancellations no later
-- than it starts.
pub create_event-IsScheduled :
    (h : Host) (actor : ℕ) (input : EventData) (db : Db) (event : Event) (db' : Db)
    → is_valid input db ≡ ok tt
    → create_event h actor input db ≡ ok (event, db')
    → IsScheduled event
create_event-IsScheduled h actor input db event db' valid done =
    let (slug, made, inserted) = create_event-inserts h actor input db event db' done in
    let (start_at, end_at, category, s, t, same) = new_event-eq-ok h actor slug input event made in
    subst IsScheduled same (
      draft_event-IsScheduled h actor slug category start_at end_at input
        (valid-validate input db valid) s t)

-- A request that holds nothing but a start.
abbrev pub only_start : ℕ → EventData
only_start start_at = record {
  title = none;
  slug = none;
  category = none;
  room = none;
  description = none;
  visibility = none;
  status = none;
  registration_open_at = none;
  registration_close_at = none;
  cancellation_deadline_at = none;
  start_at = some start_at;
  end_at = none;
  max_capacity = none;
  location_snapshot = none;
  cover_image_key = none;
  deep_link = none;
}

-- An update that holds nothing but a start is accepted even if that start is not before the event's
-- end, and leaves an event that starts when or after it ends.
pub update_event-unscheduled :
    (actor event_id start_at : ℕ) (db : Db) (event : Event)
    → IsKeyed event_key db.events
    → get_event actor event_id db ≡ ok event
    → event.end_at ≤ start_at
    → (saved : Event) × (db' : Db) × (is_valid (only_start start_at) db ≡ ok tt)
      × (update_event actor event_id (only_start start_at) db ≡ ok (saved, db'))
      × (saved.end_at ≤ saved.start_at)
unfolding is_valid validate_fields fits check_columns fits_columns has_references validate
    validate_title validate_category validate_room validate_max_capacity ◌>>=◌ updated_event
update_event-unscheduled actor event_id start_at db event keyed got late =
    let input : EventData = only_start start_at in
    (
      (outcome actor input event db).0,
      (outcome actor input event db).1,
      refl,
      update_event-total actor event_id input db event keyed got refl,
      late,
    )
