-- ===== src/Tests/Administering.antt =====
-- What an administrator does to events, categories and campuses, at the tables of `Tests.Data`.
use uevent_backend.Base.{◌≡◌, ◌≤◌, refl, true, none, [], ◌∷◌, arith, length}
use uevent_backend.Base.Texts.{codes}
use uevent_backend.Common.Errors.{ok, err, not_found, ◌>>=◌}
use uevent_backend.Orm.Table.{first, count, find, update, update_where, alive}
use uevent_backend.Registrations.State.{Db, live_event}
use uevent_backend.Events.Models.{Event, EventStatus}
use uevent_backend.Events.Access.{get_event, is_event_organizer}
use uevent_backend.Events.Input.{is_valid}
use uevent_backend.Events.Editing.{update_event}
use uevent_backend.Events.Publishing.{get_public_event, highlight_events_for_user}
use uevent_backend.Events.Publishing.Highlights.{IsAll, highlight_events_for_user-bounds}
use uevent_backend.Locations.Models.{Campus, Building}
use uevent_backend.SystemAdmin.Audit.{AuditEntry}
use uevent_backend.SystemAdmin.Moderation.{Moderated, with_status, update_event_status}
use uevent_backend.SystemAdmin.Moderation.Verdicts.{only_status, update_event_status-overturned}
use uevent_backend.SystemAdmin.Categories.{delete_category, get_category, retire, event_count}
use uevent_backend.SystemAdmin.Categories.Homes.{IsHoused, delete_category-IsHoused}
use uevent_backend.SystemAdmin.Locations.{
  Places, delete_campus, get_campus, close_campus, campus_in_use, is_building_of, is_room_at,
  is_at_campus, is_event_where,
}
use uevent_backend.SystemAdmin.Locations.Closing.{IsClosed, delete_campus-IsClosed}
use uevent_backend.Tests.Data.{host, concert, music, hall, db}
use uevent_backend.Tests.Registering.{value_of}

highlight_events_for_user-bounds_example :
    (length (highlight_events_for_user 2 1 db) ≤ 1)
    × IsAll (λ e. alive e.deleted_at) (highlight_events_for_user 2 1 db)
highlight_events_for_user-bounds_example = highlight_events_for_user-bounds 2 1 db

abbrev moderated : Moderated
moderated = record { db = db; moderation_logs = [] }

-- The first user rejects the event of the second, who opens it again.
update_event_status-overturned_example :
    (e : AuditEntry) × (m' : Moderated) × (saved : Event) × (db' : Db) × (update_event_status host 1
        10 EventStatus.rejected
        (codes "spam")
        moderated
      ≡ ok (with_status EventStatus.rejected concert, e, m'))
    × (get_public_event 10 m'.db ≡ err not_found)
    × (is_valid (only_status EventStatus.active) m'.db ≡ ok tt)
    × (update_event 2 10 (only_status EventStatus.active) m'.db ≡ ok (saved, db'))
    × (get_public_event 10 db' ≡ ok saved)
unfolding get_event live_event first is_event_organizer find ◌>>=◌
update_event_status-overturned_example =
    update_event_status-overturned host 1 2 10 (codes "spam") moderated concert (refl, tt) refl refl

db-IsHoused : IsHoused db.events db.categories
unfolding find
db-IsHoused i e found living = (music, ground arith, refl)

abbrev deactivated : AuditEntry × Db
deactivated =
    value_of (record { action = []; actor_id = 0; target_id = none }, db)
      (delete_category host 1 60 db)

delete_category-IsHoused_example : IsHoused deactivated.1.events deactivated.1.categories
unfolding delete_category get_category retire event_count first count find ◌>>=◌
delete_category-IsHoused_example =
    delete_category-IsHoused host 1 60 db deactivated.0 deactivated.1 (refl, tt) db-IsHoused refl

-- A campus with one building, where the hall is.
abbrev campus : Campus
campus = record {
  id = 90;
  deleted_at = none;
  name = codes "Main";
  code = codes "M";
  address = [];
  is_active = true;
}

abbrev building : Building
building = record {
  id = 80;
  deleted_at = none;
  campus_id = 90;
  name = codes "A";
  code = codes "A";
  is_active = true;
}

abbrev places : Places
places = record {
  campuses = campus ∷ [];
  buildings = building ∷ [];
  rooms = hall ∷ [];
  events = concert ∷ [];
}

abbrev closed : AuditEntry × Places
closed =
    value_of (record { action = []; actor_id = 0; target_id = none }, places)
      (delete_campus host 1 90 places)

delete_campus-IsClosed_example : IsClosed 90 closed.1
unfolding delete_campus get_campus close_campus campus_in_use is_building_of is_room_at is_at_campus
    is_event_where first count find update update_where ◌>>=◌
delete_campus-IsClosed_example =
    delete_campus-IsClosed host 1 90 places closed.0 closed.1 (refl, tt) refl
