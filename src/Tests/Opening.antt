-- ===== src/Tests/Opening.antt =====
-- Rooms and campuses that an administrator creates and changes, and a user who is banned.
use uevent_backend.Base.{◌≡◌, refl, true, none, some, [], ◌∷◌}
use uevent_backend.Base.Texts.{codes, text_eq}
use uevent_backend.Common.Errors.{
  ok, err, ◌>>=◌, integrity_error, validation_error, already_banned, not_deleted,
}
use uevent_backend.Orm.Table.{first, exists, append, find}
use uevent_backend.Locations.Models.{Campus}
use uevent_backend.Users.{AccountStatus}
use uevent_backend.SystemAdmin.Audit.{entry}
use uevent_backend.SystemAdmin.Locations.{get_campus, get_room}
use uevent_backend.SystemAdmin.Locations.Opening.{
  CampusData, create_campus, set_campus, clashing_campus, RoomData, update_room, set_room,
  clashing_room, holds_place,
}
use uevent_backend.SystemAdmin.Accounts.{
  Accounts, get_user, ban_user, restore_user, with_account_status,
}
use uevent_backend.Tests.Data.{host, ann, hall}

abbrev main : CampusData
main = record {
  name = some (codes "Main");
  code = some (codes "M");
  address = none;
  is_active = none;
}

abbrev opened : Campus
opened = record {
  id = 1000;
  deleted_at = none;
  name = codes "Main";
  code = codes "M";
  address = [];
  is_active = true;
}

creates : create_campus host 1 main [] ≡ ok (opened, entry "create_campus" 1 1000, opened ∷ [])
unfolding create_campus set_campus clashing_campus get_campus first exists append text_eq ◌>>=◌
creates = refl

-- A campus that is deleted keeps its code.
refuses :
    create_campus host 1 main (record opened { id = 3; deleted_at = some 5 } ∷ [])
    ≡ err integrity_error
unfolding create_campus set_campus clashing_campus get_campus first exists append text_eq ◌>>=◌
refuses = refl

abbrev unchanged : RoomData
unchanged = record {
  place = record { parent_id = none; name = none; code = none; is_active = none };
  capacity = none;
}

writes_nothing : update_room host 1 hall.id unchanged (hall ∷ []) ≡ ok (hall, none, hall ∷ [])
unfolding update_room set_room clashing_room holds_place get_room first exists ◌>>=◌
writes_nothing = refl

abbrev banned : Accounts
banned = record {
  users = with_account_status AccountStatus.banned ann ∷ [];
  roles = [];
  user_roles = [];
}

bans_once : ban_user 2 1 banned ≡ err (validation_error already_banned)
unfolding ban_user get_user find ◌>>=◌
bans_once = refl

restores_deleted : restore_user 2 1 banned ≡ err (validation_error not_deleted)
unfolding restore_user get_user find ◌>>=◌
restores_deleted = refl
