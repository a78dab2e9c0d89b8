-- ===== src/Events/Editing.antt =====
-- Creating, updating and deleting an event: OrganizerEventService (apps/events/services.py).
pub mod Slugs
pub mod Owners
pub mod Updates
pub mod Schedule
pub mod Columns
use uevent_backend.Base.{
  ℕ, suc, ◌+◌, Bool, true, false, not, ◌&&◌, ◌||◌, Option, none, some, List, [], ◌∷◌, ◌++◌, ◌==◌,
  if◌then◌else◌, length, ltb,
}
use uevent_backend.Base.Texts.{Text, codes, text_eq, is_nonempty}
use uevent_backend.Common.Errors.{
  Result, ok, err, ◌>>=◌, ◌>>◌, raise_if, or_raise, does_not_exist, integrity_error, data_error,
  out_of_draws,
}
use uevent_backend.Common.Host.{Host}
use uevent_backend.Common.Slugs.{unique_slug}
use uevent_backend.Orm.Table.{alive, first, exists, append, update}
use uevent_backend.Locations.Models.{Room}
use uevent_backend.Notifications.Models.{Task, TimeChange, EventChanges}
use uevent_backend.Registrations.State.{Db, event_key, live_event}
use uevent_backend.Events.Models.{
  Event, EventCategory, EventOrganizer, EventStatus, OrganizerRole, Visibility,
}
use uevent_backend.Events.Access.{is_role_of, get_event}
use uevent_backend.Events.Input.{EventData, get_or, nullable, fits}

-- A row of the table, dead ones included, has the slug.
abbrev pub has_slug : List Event → Text → Bool
has_slug events slug = exists (λ e. text_eq e.slug slug) events

-- `_build_unique_slug`; `none` where the rounds that are followed run out.
unfoldable pub build_unique_slug : Host → List Event → Text → Text → Option Text
unfolding unique_slug
build_unique_slug h events title requested_slug =
    let base_slug : Text =
      h.slugify (if is_nonempty requested_slug then requested_slug else title) in
    if not (is_nonempty base_slug)
    then some (h.slugify (title ++ codes "-" ++ h.hex8))
    else unique_slug (has_slug events) 280 (2 + length events) base_slug

-- `Event(...)` in `create_event`, with the columns that may not be null.
unfoldable pub draft_event : Host → ℕ → Text → ℕ → ℕ → ℕ → EventData → Event
draft_event h actor slug category start_at end_at input = record {
  id = h.new_id 0;
  deleted_at = none;
  created_at = h.now;
  category_id = category;
  room_id = nullable input.room;
  created_by_id = actor;
  title = get_or [] input.title;
  slug = slug;
  description = get_or [] input.description;
  visibility = get_or Visibility.public input.visibility;
  status = get_or EventStatus.draft input.status;
  registration_open_at = nullable input.registration_open_at;
  registration_close_at = nullable input.registration_close_at;
  cancellation_deadline_at = nullable input.cancellation_deadline_at;
  start_at = start_at;
  end_at = end_at;
  max_capacity = nullable input.max_capacity;
  location_snapshot = nullable input.location_snapshot;
  cover_image_key = nullable input.cover_image_key;
  deep_link = nullable input.deep_link;
}

unfoldable pub new_event : Host → ℕ → Text → EventData → Result Event
unfolding draft_event
new_event h actor slug input = do
  category ← or_raise input.category integrity_error
  start_at ← or_raise input.start_at integrity_error
  end_at ← or_raise input.end_at integrity_error
  ok (draft_event h actor slug category start_at end_at input)

-- What the columns hold: `CharField(max_length=...)` and a `PositiveIntegerField` of 32 bits. The
-- serializer checks neither the last two texts nor the integer.
unfoldable pub fits_columns : EventData → Bool
unfolding fits
fits_columns input =
    fits 255 input.title
    && fits 500 (nullable input.cover_image_key)
    && fits 500 (nullable input.location_snapshot)
    && fits 500 (nullable input.deep_link)
    && elim (nullable input.max_capacity) [ none ↦ true | some n ↦ ltb n 2_147_483_648 ]

-- The rows that the foreign keys of the request name, dead or not.
unfoldable pub has_references : EventData → Db → Bool
has_references input db =
    elim input.category [
      | none ↦ true
      | some i ↦ exists (λ (c : EventCategory). c.id == i) db.categories
    ]
    && elim (nullable input.room) [
      | none ↦ true
      | some i ↦ exists (λ (r : Room). r.id == i) db.rooms
    ]

-- What the database refuses of the columns of a request. A foreign key is checked at the commit, and
-- its error is the same.
unfoldable pub check_columns : EventData → Db → Result (Unit {0})
unfolding fits_columns has_references
check_columns input db = do
  raise_if (not (fits_columns input)) data_error
  raise_if (not (has_references input db)) integrity_error

-- `event.save()` of a new row, under the unique key and slug.
unfoldable pub insert_event : Event → List Event → Result (List Event)
insert_event new events =
    if exists (λ e. (e.id == new.id) || text_eq e.slug new.slug) events
    then err integrity_error
    else ok (append events new)

-- `EventOrganizer.objects.create`, under the unique key and pair of event and user, which dead rows
-- hold too.
unfoldable pub insert_organizer :
    EventOrganizer → List EventOrganizer → Result (List EventOrganizer)
insert_organizer new organizers =
    if exists (λ o. (o.id == new.id) || is_role_of new.event_id new.user_id o) organizers
    then err integrity_error
    else ok (append organizers new)

unfoldable pub new_organizer : Host → ℕ → ℕ → ℕ → OrganizerRole → EventOrganizer
new_organizer h k event_id user_id role = record {
  id = h.new_id k;
  deleted_at = none;
  event_id = event_id;
  user_id = user_id;
  organizer_role = role;
  joined_at = h.now;
}

-- `EventOrganizer.objects.get_or_create(event, user, defaults=OWNER)`
unfoldable pub ensure_owner : Host → ℕ → ℕ → List EventOrganizer → Result (List EventOrganizer)
unfolding insert_organizer new_organizer
ensure_owner h event_id user_id organizers =
    if exists (λ o. alive o.deleted_at && is_role_of event_id user_id o) organizers
    then ok organizers
    else insert_organizer (new_organizer h 1 event_id user_id OrganizerRole.owner) organizers

unfoldable pub create_event : Host → ℕ → EventData → Db → Result (Event × Db)
unfolding build_unique_slug check_columns new_event insert_event ensure_owner
create_event h actor input db = do
  slug ←
      or_raise (build_unique_slug h db.events (get_or [] input.title) (get_or [] input.slug))
        out_of_draws
  check_columns input db
  event ← new_event h actor slug input
  events ← insert_event event db.events
  organizers ← ensure_owner h event.id actor db.organizers
  saved ← or_raise (live_event event.id events) does_not_exist
  ok (saved, record db { events = events; organizers = organizers })

-- The row that `update_event` saves: each key that is there is written, but never the slug.
unfoldable pub updated_event : EventData → Event → Event
updated_event input e = record e {
  category_id = get_or e.category_id input.category;
  room_id = get_or e.room_id input.room;
  title = get_or e.title input.title;
  description = get_or e.description input.description;
  visibility = get_or e.visibility input.visibility;
  status = get_or e.status input.status;
  registration_open_at = get_or e.registration_open_at input.registration_open_at;
  registration_close_at = get_or e.registration_close_at input.registration_close_at;
  cancellation_deadline_at = get_or e.cancellation_deadline_at input.cancellation_deadline_at;
  start_at = get_or e.start_at input.start_at;
  end_at = get_or e.end_at input.end_at;
  max_capacity = get_or e.max_capacity input.max_capacity;
  location_snapshot = get_or e.location_snapshot input.location_snapshot;
  cover_image_key = get_or e.cover_image_key input.cover_image_key;
  deep_link = get_or e.deep_link input.deep_link;
}

-- `a == b` of optional keys and of optional texts
abbrev pub same_key : Option ℕ → Option ℕ → Bool
same_key none none = true
same_key none (some b) = false
same_key (some a) none = false
same_key (some a) (some b) = a == b

abbrev pub same_text : Option Text → Option Text → Bool
same_text none none = true
same_text none (some b) = false
same_text (some a) none = false
same_text (some a) (some b) = text_eq a b

abbrev pub no_location : Text
no_location = codes "Chưa cập nhật"

-- The name of a room with its code in brackets, or whichever of them there is.
unfoldable pub room_text : Room → Text
room_text room =
    if is_nonempty room.name && is_nonempty room.code
    then room.name ++ codes " (" ++ room.code ++ codes ")"
    else if is_nonempty room.name
    then room.name
    else if is_nonempty room.code
    then room.code
    else no_location

-- `_location_text`, by the snapshot and the live room
unfoldable pub location_of_room : Option ℕ → List Room → Text
unfolding room_text
location_of_room none rooms = no_location
location_of_room (some room_id) rooms =
    elim (first (λ r. alive r.deleted_at && r.id == room_id) rooms) [
      | none ↦ no_location
      | some room ↦ room_text room
    ]

unfoldable pub location_text : List Room → Option ℕ → Option Text → Text
unfolding location_of_room
location_text rooms room_id none = location_of_room room_id rooms
location_text rooms room_id (some snapshot) =
    if is_nonempty snapshot then snapshot else location_of_room room_id rooms

abbrev pub same_times : Event → Event → Bool
same_times old new = (old.start_at == new.start_at) && (old.end_at == new.end_at)

abbrev pub same_place : Event → Event → Bool
same_place old new =
    same_key old.room_id new.room_id && same_text old.location_snapshot new.location_snapshot

unfoldable pub changes_between : List Room → Event → Event → EventChanges
unfolding location_text
changes_between rooms old new = record {
  time =
      if same_times old new
      then none
      else some (record {
        old_start_at = old.start_at;
        old_end_at = old.end_at;
        new_start_at = new.start_at;
        new_end_at = new.end_at;
      });
  location =
      if same_place old new
      then none
      else some (
        location_text rooms old.room_id old.location_snapshot,
        location_text rooms new.room_id new.location_snapshot,
      );
}

-- What is left to run after the commit.
unfoldable pub update_tasks : ℕ → List Room → Event → Event → List Task
unfolding changes_between
update_tasks actor rooms old new =
    if same_times old new && same_place old new
    then []
    else Task.notify_event_updated new.id actor (changes_between rooms old new) ∷ []

unfoldable pub update_event : ℕ → ℕ → EventData → Db → Result (Event × Db)
unfolding update_tasks updated_event check_columns
update_event actor event_id input db = do
  event ← get_event actor event_id db
  check_columns input db
  let events : List Event = update event_key event.id (updated_event input) db.events
  saved ← or_raise (live_event event.id events) does_not_exist
  ok (
    saved,
    record db {
      events = events;
      mailbox = record db.mailbox {
        on_commit =
            db.mailbox.on_commit ++ update_tasks actor db.rooms event (updated_event input event);
      };
    },
  )

-- `event.delete()`
abbrev pub deleted : ℕ → Event → Event
deleted now e = record e { deleted_at = some now }

unfoldable pub delete_event : Host → ℕ → ℕ → Db → Result Db
delete_event h actor event_id db = do
  event ← get_event actor event_id db
  ok (record db { events = update event_key event.id (deleted h.now) db.events })
