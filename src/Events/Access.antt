-- ===== src/Events/Access.antt =====
-- Who may act on an event: is_event_organizer, is_event_owner and OrganizerEventService.get_event
-- (apps/events/services.py). The actor is a user who has signed in.
use uevent_backend.Base.{ℕ, Bool, not, ◌&&◌, ◌||◌, List, ◌==◌}
use uevent_backend.Common.Errors.{Result, ok, ◌>>=◌, ◌>>◌, raise_if, or_raise, not_found, forbidden}
use uevent_backend.Orm.Table.{alive, exists}
use uevent_backend.Events.Models.{Event, EventOrganizer, is_owner_role}
use uevent_backend.Registrations.State.{Db, live_event}

-- The row is the user's at the event.
abbrev pub is_role_of : ℕ → ℕ → EventOrganizer → Bool
is_role_of event_id user_id o = o.event_id == event_id && o.user_id == user_id

unfoldable pub is_event_organizer : ℕ → Event → List EventOrganizer → Bool
is_event_organizer user_id event organizers =
    (event.created_by_id == user_id)
    || exists (λ o. alive o.deleted_at && is_role_of event.id user_id o) organizers

unfoldable pub is_event_owner : ℕ → Event → List EventOrganizer → Bool
is_event_owner user_id event organizers =
    (event.created_by_id == user_id)
    || exists
        (λ o.
          alive o.deleted_at && (is_role_of event.id user_id o && is_owner_role o.organizer_role))
        organizers

unfoldable pub get_event : ℕ → ℕ → Db → Result Event
unfolding is_event_organizer
get_event actor event_id db = do
  event ← or_raise (live_event event_id db.events) not_found
  raise_if (not (is_event_organizer actor event db.organizers)) forbidden
  ok event
