-- ===== src/Tests/Organizing.antt =====
-- Events and their organizers at the tables of `Tests.Data`.
use uevent_backend.Base.{
  ℕ, zero, suc, ◌≡◌, ◌≢◌, ◌≤◌, ◌<◌, refl, true, false, none, some, [], ◌∷◌, arith, length, ◌↔◌,
  ◌++◌,
}
use uevent_backend.Base.Texts.{Text, codes, strip, text_eq}
use uevent_backend.Base.Decimal.{power_of_ten}
use uevent_backend.Common.Errors.{ok, err, ◌>>=◌, not_found, forbidden}
use uevent_backend.Orm.Table.{first, latest, exists, find, append, update}
use uevent_backend.Users.{User}
use uevent_backend.Registrations.State.{Db, event_key, live_event}
use uevent_backend.Registrations.Register.{create_event_registration}
use uevent_backend.Events.Models.{Event, EventOrganizer, OrganizerRole, is_owner_role}
use uevent_backend.Events.Access.{get_event, is_event_organizer, is_event_owner}
use uevent_backend.Events.Input.{
  EventData, is_valid, validate_fields, fits, validate, validate_title, validate_category,
  validate_room, validate_max_capacity,
}
use uevent_backend.Events.Editing.{
  check_columns, fits_columns, has_references, create_event, update_event, delete_event,
  updated_event, update_tasks, has_slug, build_unique_slug, new_event, draft_event, insert_event,
  ensure_owner, insert_organizer, new_organizer, changes_between,
}
use uevent_backend.Common.Slugs.{unique_slug, next_free, slice_to, take}
use uevent_backend.Events.Editing.Owners.{create_event-total, is_owning_row}
use uevent_backend.Events.Editing.Updates.{delete_event-closes, update_event-changes, IsSameVisit}
use uevent_backend.Events.Editing.Schedule.{
  IsScheduled, create_event-IsScheduled, only_start, update_event-unscheduled,
}
use uevent_backend.Events.Organizing.{
  organizer_key, add_organizer_by_email, remove_organizer_by_email, assert_event_owner,
  user_of_email, enroll, has_email,
}
use uevent_backend.Events.Organizing.Members.{is_member, remove_organizer_by_email-revokes}
use uevent_backend.Events.Organizing.Joining.{add_organizer_by_email-grants}
use uevent_backend.Events.Publishing.{
  get_public_event, get_public_event_by_slug, get_shareable_public_event,
}
use uevent_backend.Events.Publishing.Sharing.{
  get_shareable_public_event-get_public_event, get_public_event_by_slug-get_shareable,
}
use uevent_backend.Notifications.Models.{Task}
use uevent_backend.Tests.Data.{host, concert, db}
use uevent_backend.Tests.Registering.{value_of}

-- The title leads to the slug of the concert, which is taken.
abbrev gala : EventData
gala = record {
  title = some (codes "concert");
  slug = none;
  category = some 60;
  room = none;
  description = none;
  visibility = none;
  status = none;
  registration_open_at = none;
  registration_close_at = some (some 300);
  cancellation_deadline_at = none;
  start_at = some 400;
  end_at = some 500;
  max_capacity = none;
  location_snapshot = none;
  cover_image_key = none;
  deep_link = none;
}

small : 4 < power_of_ten 279
unfolding power_of_ten
small = omega arith

create_event-total_example :
    (event : Event) × (db' : Db) × (create_event host 1 gala db ≡ ok (event, db'))
    × (live_event event.id db'.events ≡ some event)
    × (has_slug db.events event.slug ≡ false)
    × (length event.slug ≤ 280)
    × (event.created_by_id ≡ 1)
    × (exists (is_owning_row event.id 1) db'.organizers ≡ true)
unfolding exists first fits_columns has_references
create_event-total_example =
    create_event-total host 1 60 400 500 gala db refl refl refl refl refl refl small refl refl refl

abbrev held : Event × Db
held = value_of (concert, db) (create_event host 1 gala db)

abbrev pad : ℕ → Text
pad zero = []
pad (suc n) = 120 ∷ pad n

create_event-IsScheduled_example : IsScheduled held.0
unfolding create_event build_unique_slug unique_slug next_free slice_to take new_event draft_event
    insert_event ensure_owner insert_organizer new_organizer append exists first live_event ◌>>=◌
    check_columns fits_columns has_references is_valid validate_fields fits validate validate_title
    validate_category validate_room validate_max_capacity strip text_eq
create_event-IsScheduled_example = create_event-IsScheduled host 1 gala db held.0 held.1 refl refl

update_event-unscheduled_example :
    (saved : Event) × (db' : Db) × (is_valid (only_start 300_000_000) db ≡ ok tt)
    × (update_event 2 10 (only_start 300_000_000) db ≡ ok (saved, db'))
    × (saved.end_at ≤ saved.start_at)
unfolding get_event live_event first is_event_organizer find ◌>>=◌
update_event-unscheduled_example =
    update_event-unscheduled 2 10 300_000_000 db concert (refl, tt) refl (omega arith)

abbrev moved : Event × Db
moved = value_of (concert, db) (update_event 2 10 (only_start 90_000_000) db)

update_event-changes_example :
    (event : Event) × (get_event 2 10 db ≡ ok event)
    × (moved.0.slug ≡ event.slug)
    × (moved.0.created_by_id ≡ event.created_by_id)
    × (moved.0.start_at ≡ 90_000_000)
    × (moved.0.end_at ≡ event.end_at)
    × (moved.0.room_id ≡ event.room_id)
    × (moved.0.location_snapshot ≡ event.location_snapshot)
    × ((j : ℕ) → 10 ≢ j → find event_key j moved.1.events ≡ find event_key j db.events)
    × (IsSameVisit event moved.0 → moved.1.mailbox.on_commit ≡ db.mailbox.on_commit ++ [])
    × (¬ IsSameVisit event moved.0
        → moved.1.mailbox.on_commit
          ≡ db.mailbox.on_commit
            ++ Task.notify_event_updated 10 2 (changes_between db.rooms event moved.0) ∷ [])
unfolding update_event check_columns fits_columns has_references fits update_tasks updated_event
    get_event live_event first is_event_organizer find update ◌>>=◌
update_event-changes_example =
    update_event-changes 2 10 (only_start 90_000_000) db moved.0 moved.1 (refl, tt) refl

abbrev emptied : Db
emptied = value_of db (delete_event host 2 10 db)

delete_event-closes_example :
    (get_public_event 10 emptied ≡ err not_found)
    × (get_shareable_public_event 10 emptied ≡ err not_found)
    × (get_event 2 10 emptied ≡ err not_found)
    × (create_event_registration host 1 10 none emptied ≡ err not_found)
unfolding delete_event get_event live_event first is_event_organizer find ◌>>=◌
delete_event-closes_example = delete_event-closes host host 2 1 10 none db emptied (refl, tt) refl

get_shareable_public_event-get_public_event_example :
    (get_shareable_public_event 10 db ≡ ok concert) ↔ (get_public_event 10 db ≡ ok concert)
unfolding find
get_shareable_public_event-get_public_event_example =
    get_shareable_public_event-get_public_event 10 db concert (refl, tt)

get_public_event_by_slug-get_shareable_example :
    get_public_event_by_slug (codes "concert") db ≡ ok concert
unfolding find exists first get_shareable_public_event live_event ◌>>=◌
get_public_event_by_slug-get_shareable_example =
    get_public_event_by_slug-get_shareable 10 db concert (refl, tt) (refl, tt) refl

-- The creator adds the other user.
abbrev joined : EventOrganizer × Db
joined =
    value_of
      (
        record {
          id = 0;
          deleted_at = none;
          event_id = 0;
          user_id = 0;
          organizer_role = OrganizerRole.staff;
          joined_at = 0;
        },
        db,
      )
      (add_organizer_by_email host 2 10 (codes "ann@x.vn") db)

add_organizer_by_email-grants_example :
    (user : User) × (event : Event) × (user_of_email host (codes "ann@x.vn") db.users ≡ some user)
    × (get_event 2 10 db ≡ ok event)
    × (is_member event.id user.id joined.0 ≡ true)
    × (get_event user.id 10 joined.1 ≡ ok event)
unfolding add_organizer_by_email get_event assert_event_owner is_event_owner is_event_organizer
    user_of_email enroll new_organizer insert_organizer append live_event first latest exists find
    strip text_eq ◌>>=◌
add_organizer_by_email-grants_example =
    add_organizer_by_email-grants host 2 10 (codes "ann@x.vn") db joined.0 joined.1 tt refl

abbrev left : Db
left = value_of db (remove_organizer_by_email host 2 10 (codes "ann@x.vn") joined.1)

remove_organizer_by_email-revokes_example :
    (role : EventOrganizer) × (find organizer_key role.id joined.1.organizers ≡ some role)
    × (has_email host db.users (codes "ann@x.vn") role ≡ true)
    × (is_owner_role role.organizer_role ≡ false)
    × (get_event role.user_id 10 left ≡ err forbidden)
unfolding add_organizer_by_email remove_organizer_by_email get_event assert_event_owner
    is_event_owner is_event_organizer user_of_email has_email enroll new_organizer insert_organizer
    append update live_event first latest exists find strip text_eq ◌>>=◌
remove_organizer_by_email-revokes_example =
    remove_organizer_by_email-revokes host 2 10 (codes "ann@x.vn") joined.1 left (refl, tt)
      (refl, tt) refl
