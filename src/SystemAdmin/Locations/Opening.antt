-- ===== src/SystemAdmin/Locations/Opening.antt =====
-- AdminLocationService (apps/system_admin/services/location_services.py): creating and updating
-- campuses, buildings and rooms, from the columns that a request holds. The unique columns count
-- dead rows.
use uevent_backend.Base.{
  ℕ, Bool, true, not, ◌&&◌, ◌||◌, Option, none, some, List, [], ◌==◌, is_some, if◌then◌else◌,
}
use uevent_backend.Base.Texts.{Text, text_eq}
use uevent_backend.Common.Errors.{Result, ok, ◌>>=◌, ◌>>◌, raise_if, or_raise, integrity_error}
use uevent_backend.Common.Host.{Host}
use uevent_backend.Orm.Table.{exists, append, update}
use uevent_backend.Events.Input.{get_or}
use uevent_backend.Locations.Models.{Campus, Building, Room, campus_key, building_key, room_key}
use uevent_backend.SystemAdmin.Audit.{AuditEntry, entry}
use uevent_backend.SystemAdmin.Locations.{get_campus, get_building, get_room}

-- The columns that a request gives.
pub record CampusData : Type 0 where
  pub name : Option Text
  pub code : Option Text
  pub address : Option Text
  pub is_active : Option Bool

-- `campus` or `building` is the parent.
pub record PlaceData : Type 0 where
  pub parent_id : Option ℕ
  pub name : Option Text
  pub code : Option Text
  pub is_active : Option Bool

pub record RoomData : Type 0 where
  pub place : PlaceData
  pub capacity : Option (Option ℕ)

unfoldable pub holds_campus : CampusData → Bool
holds_campus d = is_some d.name || (is_some d.code || (is_some d.address || is_some d.is_active))

unfoldable pub holds_place : PlaceData → Bool
holds_place d = is_some d.parent_id || (is_some d.name || (is_some d.code || is_some d.is_active))

unfoldable pub clashing_campus : Campus → Campus → Bool
clashing_campus new c = not (c.id == new.id) && (text_eq c.name new.name || text_eq c.code new.code)

unfoldable pub clashing_building : Building → Building → Bool
clashing_building new b =
    not (b.id == new.id) && (b.campus_id == new.campus_id && text_eq b.code new.code)

unfoldable pub clashing_room : Room → Room → Bool
clashing_room new r =
    not (r.id == new.id) && (r.building_id == new.building_id && text_eq r.code new.code)

unfoldable pub set_campus : CampusData → Campus → Campus
set_campus d c = record c {
  name = get_or c.name d.name;
  code = get_or c.code d.code;
  address = get_or c.address d.address;
  is_active = get_or c.is_active d.is_active;
}

unfoldable pub set_building : PlaceData → Building → Building
set_building d b = record b {
  campus_id = get_or b.campus_id d.parent_id;
  name = get_or b.name d.name;
  code = get_or b.code d.code;
  is_active = get_or b.is_active d.is_active;
}

unfoldable pub set_room : RoomData → Room → Room
set_room d r = record r {
  building_id = get_or r.building_id d.place.parent_id;
  name = get_or r.name d.place.name;
  code = get_or r.code d.place.code;
  is_active = get_or r.is_active d.place.is_active;
  capacity = get_or r.capacity d.capacity;
}

unfoldable pub create_campus :
    Host → ℕ → CampusData → List Campus → Result (Campus × AuditEntry × List Campus)
unfolding set_campus clashing_campus get_campus
create_campus h actor d rows =
    let blank : Campus = record {
      id = h.new_id 0;
      deleted_at = none;
      name = [];
      code = [];
      address = [];
      is_active = true;
    } in
    let new : Campus = set_campus d blank in
    do
      raise_if (exists (clashing_campus new) rows) integrity_error
      campus ← get_campus new.id (append rows new)
      ok (campus, entry "create_campus" actor new.id, append rows new)

-- Without a column nothing is written or logged.
unfoldable pub update_campus :
    Host → ℕ → ℕ → CampusData → List Campus → Result (Campus × Option AuditEntry × List Campus)
unfolding set_campus clashing_campus get_campus holds_campus
update_campus h actor campus_id d rows = do
  campus ← get_campus campus_id rows
  raise_if (holds_campus d && exists (clashing_campus (set_campus d campus)) rows) integrity_error
  let saved : List Campus =
      if holds_campus d then update campus_key campus.id (set_campus d) rows else rows
  reread ← get_campus campus_id saved
  ok (reread, if holds_campus d then some (entry "update_campus" actor campus.id) else none, saved)

-- Without a parent the insertion breaks the constraint on its column.
unfoldable pub create_building :
    Host → ℕ → PlaceData → List Building → Result (Building × AuditEntry × List Building)
unfolding set_building clashing_building get_building
create_building h actor d rows = do
  campus_id ← or_raise d.parent_id integrity_error
  let blank : Building = record {
    id = h.new_id 0;
    deleted_at = none;
    campus_id = campus_id;
    name = [];
    code = [];
    is_active = true;
  }
  let new : Building = set_building d blank
  raise_if (exists (clashing_building new) rows) integrity_error
  building ← get_building new.id (append rows new)
  ok (building, entry "create_building" actor new.id, append rows new)

unfoldable pub update_building :
    Host → ℕ → ℕ → PlaceData → List Building → Result (Building × Option AuditEntry × List Building)
unfolding set_building clashing_building get_building holds_place
update_building h actor building_id d rows = do
  building ← get_building building_id rows
  raise_if (holds_place d && exists (clashing_building (set_building d building)) rows)
      integrity_error
  let saved : List Building =
      if holds_place d then update building_key building.id (set_building d) rows else rows
  reread ← get_building building_id saved
  ok (
    reread,
    if holds_place d then some (entry "update_building" actor building.id) else none,
    saved,
  )

unfoldable pub create_room :
    Host → ℕ → RoomData → List Room → Result (Room × AuditEntry × List Room)
unfolding set_room clashing_room get_room
create_room h actor d rows = do
  building_id ← or_raise d.place.parent_id integrity_error
  let blank : Room = record {
    id = h.new_id 0;
    deleted_at = none;
    building_id = building_id;
    name = [];
    code = [];
    capacity = none;
    is_active = true;
  }
  let new : Room = set_room d blank
  raise_if (exists (clashing_room new) rows) integrity_error
  room ← get_room new.id (append rows new)
  ok (room, entry "create_room" actor new.id, append rows new)

unfoldable pub update_room :
    Host → ℕ → ℕ → RoomData → List Room → Result (Room × Option AuditEntry × List Room)
unfolding set_room clashing_room get_room holds_place
update_room h actor room_id d rows = do
  room ← get_room room_id rows
  let changes : Bool = holds_place d.place || is_some d.capacity
  raise_if (changes && exists (clashing_room (set_room d room)) rows) integrity_error
  let saved : List Room = if changes then update room_key room.id (set_room d) rows else rows
  reread ← get_room room_id saved
  ok (reread, if changes then some (entry "update_room" actor room.id) else none, saved)
