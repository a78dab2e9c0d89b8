-- ===== src/Events/Organizing.antt =====
-- The organizers of an event: add_organizer_by_email and remove_organizer_by_email
-- (apps/events/services.py).
pub mod Members
pub mod Joining
use uevent_backend.Base.{
  ℕ, Bool, true, false, not, ◌&&◌, ◌||◌, Option, none, some, List, ◌==◌, if◌then◌else◌,
}
use uevent_backend.Base.Texts.{Text, strip}
use uevent_backend.Common.Errors.{
  Result, ok, err, ◌>>=◌, ◌>>◌, raise_if, or_raise, validation_error, not_found, forbidden,
  does_not_exist, unknown_email, owner_protected,
}
use uevent_backend.Common.Host.{Host}
use uevent_backend.Orm.Table.{alive, first, latest, find, update}
use uevent_backend.Users.{User}
use uevent_backend.Registrations.State.{Db}
use uevent_backend.Events.Models.{
  Event, EventOrganizer, OrganizerRole, is_owner_role, is_co_host_role,
}
use uevent_backend.Events.Access.{is_role_of, is_event_owner, get_event}
use uevent_backend.Events.Editing.{new_organizer, insert_organizer}

abbrev pub organizer_key : EventOrganizer → ℕ
organizer_key o = o.id

abbrev pub user_key : User → ℕ
user_key u = u.id

unfoldable pub assert_event_owner : ℕ → Event → List EventOrganizer → Result (Unit {0})
unfolding is_event_owner
assert_event_owner actor event organizers =
    raise_if (not (is_event_owner actor event organizers)) forbidden

-- `User.objects.filter(email__iexact=email.strip()).first()`
unfoldable pub user_of_email : Host → Text → List User → Option User
user_of_email h email = latest (λ u. alive u.deleted_at && h.iexact u.email (strip email))

-- What a dead row is revived with.
abbrev pub revived : ℕ → EventOrganizer → EventOrganizer
revived now o = record o {
  deleted_at = none;
  organizer_role = OrganizerRole.co_host;
  joined_at = now;
}

abbrev pub promoted : EventOrganizer → EventOrganizer
promoted o = record o { organizer_role = OrganizerRole.co_host }

-- The row is the owner's or the creator's.
abbrev pub is_protected : Event → EventOrganizer → Bool
is_protected event role = is_owner_role role.organizer_role || role.user_id == event.created_by_id

-- By the row that the user has at the event, dead or not: the key of the row, and the table.
unfoldable pub enroll :
    Host
    → Event
    → User
    → Option EventOrganizer
    → List EventOrganizer
    → Result (ℕ × List EventOrganizer)
unfolding new_organizer insert_organizer
enroll h event user none organizers = do
  let new : EventOrganizer = new_organizer h 0 event.id user.id OrganizerRole.co_host
  organizers' ← insert_organizer new organizers
  ok (new.id, organizers')
enroll h event user (some role) organizers =
    if not (alive role.deleted_at)
    then ok (role.id, update organizer_key role.id (revived h.now) organizers)
    else if not (is_protected event role) && not (is_co_host_role role.organizer_role)
    then ok (role.id, update organizer_key role.id promoted organizers)
    else ok (role.id, organizers)

unfoldable pub add_organizer_by_email : Host → ℕ → ℕ → Text → Db → Result (EventOrganizer × Db)
unfolding enroll assert_event_owner user_of_email
add_organizer_by_email h actor event_id email db = do
  event ← get_event actor event_id db
  assert_event_owner actor event db.organizers
  user ← or_raise (user_of_email h email db.users) (validation_error unknown_email)
  (role_id, organizers) ←
      enroll h event user (first (is_role_of event.id user.id) db.organizers) db.organizers
  role ← or_raise (find organizer_key role_id organizers) does_not_exist
  ok (role, record db { organizers = organizers })

-- The user of the row, dead or not, has the address but for case.
unfoldable pub has_email : Host → List User → Text → EventOrganizer → Bool
has_email h users email o = elim (find user_key o.user_id users) [
  | none ↦ false
  | some u ↦ h.iexact u.email (strip email)
]

abbrev pub dismissed : ℕ → EventOrganizer → EventOrganizer
dismissed now o = record o { deleted_at = some now }

unfoldable pub remove_organizer_by_email : Host → ℕ → ℕ → Text → Db → Result Db
unfolding assert_event_owner has_email
remove_organizer_by_email h actor event_id email db = do
  event ← get_event actor event_id db
  assert_event_owner actor event db.organizers
  role ←
      or_raise
        (latest
          (λ o. alive o.deleted_at && (o.event_id == event.id && has_email h db.users email o))
          db.organizers)
        not_found
  raise_if (is_protected event role) (validation_error owner_protected)
  ok (record db { organizers = update organizer_key role.id (dismissed h.now) db.organizers })
