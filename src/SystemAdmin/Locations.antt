-- ===== src/SystemAdmin/Locations.antt =====
-- AdminLocationService (apps/system_admin/services/location_services.py): deleting campuses,
-- buildings and rooms, which deactivates what is in use.
pub mod Closing
pub mod Opening
use uevent_backend.Base.{
  ℕ, ◌+◌, Bool, true, false, not, ◌&&◌, ◌||◌, Option, none, some, List, ◌==◌, ltb, if◌then◌else◌,
}
use uevent_backend.Base.Texts.{Text}
use uevent_backend.Common.Errors.{Result, ok, ◌>>=◌, or_raise, not_found}
use uevent_backend.Common.Host.{Host}
use uevent_backend.Orm.Table.{alive, first, find, count, update, update_where}
use uevent_backend.Registrations.State.{event_key}
use uevent_backend.Events.Models.{Event}
use uevent_backend.Locations.Models.{Campus, Building, Room, campus_key, building_key, room_key}
use uevent_backend.SystemAdmin.Audit.{AuditEntry, entry}

pub record Places : Type 0 where
  pub campuses : List Campus
  pub buildings : List Building
  pub rooms : List Room
  pub events : List Event

unfoldable pub get_campus : ℕ → List Campus → Result Campus
get_campus campus_id campuses =
    or_raise (first (λ c. alive c.deleted_at && c.id == campus_id) campuses) not_found

unfoldable pub get_building : ℕ → List Building → Result Building
get_building building_id buildings =
    or_raise (first (λ b. alive b.deleted_at && b.id == building_id) buildings) not_found

unfoldable pub get_room : ℕ → List Room → Result Room
get_room room_id rooms =
    or_raise (first (λ r. alive r.deleted_at && r.id == room_id) rooms) not_found

-- `campus=campus` of a live building
unfoldable pub is_building_of : ℕ → Building → Bool
is_building_of campus_id b = alive b.deleted_at && b.campus_id == campus_id

-- A building, dead or not, of this key is at the campus: the join `building__campus=campus`.
unfoldable pub is_at_campus : List Building → ℕ → ℕ → Bool
is_at_campus buildings campus_id building_id = elim (find building_key building_id buildings) [
  | none ↦ false
  | some b ↦ b.campus_id == campus_id
]

-- `building__campus=campus` of a live room
unfoldable pub is_room_at : List Building → ℕ → Room → Bool
unfolding is_at_campus
is_room_at buildings campus_id r =
    alive r.deleted_at && is_at_campus buildings campus_id r.building_id

-- `building=building` of a live room
unfoldable pub is_room_of : ℕ → Room → Bool
is_room_of building_id r = alive r.deleted_at && r.building_id == building_id

-- The event is not deleted, and its room, dead or not, passes.
unfoldable pub is_event_where : (Room → Bool) → List Room → Event → Bool
is_event_where p rooms e = alive e.deleted_at && elim e.room_id [
  | none ↦ false
  | some room_id ↦ elim (find room_key room_id rooms) [ none ↦ false | some r ↦ p r ]
]

abbrev pub closed_campus : Campus → Campus
closed_campus c = record c { is_active = false }

abbrev pub closed_building : Building → Building
closed_building b = record b { is_active = false }

abbrev pub closed_room : Room → Room
closed_room r = record r { is_active = false }

-- `building_count or room_count or event_count`
unfoldable pub campus_in_use : ℕ → Places → Bool
unfolding is_building_of is_room_at is_event_where
campus_in_use campus_id places = ltb 0 (
    count (is_building_of campus_id) places.buildings
    + count (is_room_at places.buildings campus_id) places.rooms
    + count
        (is_event_where (λ r. is_at_campus places.buildings campus_id r.building_id) places.rooms)
        places.events)

unfoldable pub close_campus : Host → ℕ → Campus → Places → AuditEntry × Places
unfolding campus_in_use is_building_of is_room_at
close_campus h actor campus places =
    if campus_in_use campus.id places
    then (
      entry "deactivate_campus" actor campus.id,
      record places {
        campuses = update campus_key campus.id closed_campus places.campuses;
        buildings = update_where (is_building_of campus.id) closed_building places.buildings;
        rooms = update_where (is_room_at places.buildings campus.id) closed_room places.rooms;
      },
    )
    else (
      entry "delete_campus" actor campus.id,
      record places {
        campuses =
            update campus_key campus.id (λ c. record c { deleted_at = some h.now }) places.campuses;
      },
    )

unfoldable pub delete_campus : Host → ℕ → ℕ → Places → Result (AuditEntry × Places)
unfolding get_campus close_campus
delete_campus h actor campus_id places = do
  campus ← get_campus campus_id places.campuses
  ok (close_campus h actor campus places)

-- `room_count or event_count`
unfoldable pub building_in_use : ℕ → Places → Bool
unfolding is_room_of is_event_where
building_in_use building_id places = ltb 0 (
    count (is_room_of building_id) places.rooms
    + count (is_event_where (λ r. r.building_id == building_id) places.rooms) places.events)

unfoldable pub close_building : Host → ℕ → Building → Places → AuditEntry × Places
unfolding building_in_use is_room_of
close_building h actor building places =
    if building_in_use building.id places
    then (
      entry "deactivate_building" actor building.id,
      record places {
        buildings = update building_key building.id closed_building places.buildings;
        rooms = update_where (is_room_of building.id) closed_room places.rooms;
      },
    )
    else (
      entry "delete_building" actor building.id,
      record places {
        buildings =
            update building_key building.id (λ b. record b { deleted_at = some h.now })
              places.buildings;
      },
    )

unfoldable pub delete_building : Host → ℕ → ℕ → Places → Result (AuditEntry × Places)
unfolding get_building close_building
delete_building h actor building_id places = do
  building ← get_building building_id places.buildings
  ok (close_building h actor building places)

-- `Event.objects.filter(room=room).count()`
abbrev pub is_event_in : ℕ → Event → Bool
is_event_in room_id e =
    alive e.deleted_at && elim e.room_id [ none ↦ false | some i ↦ i == room_id ]

unfoldable pub close_room : Host → ℕ → Room → Places → AuditEntry × Places
close_room h actor room places =
    if ltb 0 (count (is_event_in room.id) places.events)
    then (
      entry "deactivate_room" actor room.id,
      record places { rooms = update room_key room.id closed_room places.rooms },
    )
    else (
      entry "delete_room" actor room.id,
      record places {
        rooms = update room_key room.id (λ r. record r { deleted_at = some h.now }) places.rooms;
      },
    )

unfoldable pub delete_room : Host → ℕ → ℕ → Places → Result (AuditEntry × Places)
unfolding get_room close_room
delete_room h actor room_id places = do
  room ← get_room room_id places.rooms
  ok (close_room h actor room places)
