-- ===== src/SystemAdmin/Moderation/Verdicts.antt =====
-- What the verdict of an administrator on an event changes, and whether it stands.
use uevent_backend.Base.{
  ℕ, ◌≡◌, refl, subst, Bool, false, ◌&&◌, Option, none, some, List, arith, ◌==◌, inl, inr,
  Option-cases,
}
use uevent_backend.Base.Texts.{Text}
use uevent_backend.Common.Errors.{ok, err, ◌>>=◌, validation_error, invalid_status, not_found}
use uevent_backend.Common.Host.{Host}
use uevent_backend.Orm.Table.{alive, find, append, update}
use uevent_backend.Orm.Table.Laws.{
  IsKeyed, IsKeyed-update, first-eq-some, find-first, find-update_self, find-update_ne,
}
use uevent_backend.Orm.Table.Reread.{first-of_find, first-first, first-refused}
use uevent_backend.Registrations.State.{Db, event_key, live_event}
use uevent_backend.Events.Models.{Event, EventStatus, Visibility}
use uevent_backend.Events.Access.{get_event, is_event_organizer}
use uevent_backend.Events.Input.{
  EventData, is_valid, fits, validate_fields, validate, validate_title, validate_category,
  validate_room, validate_max_capacity,
}
use uevent_backend.Events.Editing.{
  update_event, updated_event, check_columns, fits_columns, has_references,
}
use uevent_backend.Events.Editing.Updates.{
  update_event-total, outcome, id-live_event, get_event-live,
}
use uevent_backend.Events.Publishing.{get_public_event}
use uevent_backend.Events.Publishing.Sharing.{is_shown}
use uevent_backend.SystemAdmin.Audit.{AuditEntry}
use uevent_backend.SystemAdmin.Moderation.{
  Moderated, Action, status_action, action_text, with_status, log_of, update_event_status,
}

-- Writing to a live event under its key, without deleting it, is read back.
pub live_event-update :
    (f : Event → Event) (event_id : ℕ) (events : List Event) (event : Event)
    → ((e : Event) → (f e).id ≡ e.id)
    → ((e : Event) → (f e).deleted_at ≡ e.deleted_at)
    → IsKeyed event_key events
    → live_event event_id events ≡ some event
    → live_event event_id (update event_key event.id f events) ≡ some (f event)
unfolding live_event
live_event-update f event_id events event keeps lives keyed found =
    let live : Event → Bool = λ e. alive e.deleted_at && e.id == event_id in
    let passes = first-eq-some live events event found in
    let same = id-live_event event_id events event found in
    first-of_find event_key live event_id (update event_key event.id f events) (f event)
      (IsKeyed-update event_key f keeps event.id events keyed) (λ e. ground arith)
      (subst (λ (i : ℕ). find event_key i (update event_key event.id f events) ≡ some (f event))
        same
        (find-update_self event_key f keeps event.id events event
          (find-first event_key live events event keyed found)))
      (rw (keeps event, lives event) passes)

-- A status that maps to no action is refused; with an action, the status is written to the event and
-- to no other, and the log has one more entry.
abbrev pub IsVerdict :
    Host → ℕ → ℕ → EventStatus → Text → Moderated → Event → Option Action → Type 0
IsVerdict h actor event_id status reason m event none =
    update_event_status h actor event_id status reason m ≡ err (validation_error invalid_status)
IsVerdict h actor event_id status reason m event (some action) =
    (e : AuditEntry) × (m' : Moderated) × (update_event_status h actor event_id status reason m
      ≡ ok (with_status status event, e, m'))
    × (m'.moderation_logs ≡ append m.moderation_logs (log_of h actor event_id action reason))
    × ((j : ℕ)
        → (event_id == j) ≡ false
        → find event_key j m'.db.events ≡ find event_key j m.db.events)

-- A verdict on a live event, with unique keys: if its status is one that an administrator may set,
-- it is written to the event and to no other, with one entry of the action in the log, and else it
-- is refused.
pub update_event_status-IsVerdict :
    (h : Host) (actor event_id : ℕ) (status : EventStatus) (reason : Text) (m : Moderated)
    (event : Event)
    → IsKeyed event_key m.db.events
    → live_event event_id m.db.events ≡ some event
    → IsVerdict h actor event_id status reason m event (status_action status)
unfolding update_event_status ◌>>=◌
update_event_status-IsVerdict h actor event_id status reason m event keyed found =
    let same = id-live_event event_id m.db.events event found in
    let read =
      live_event-update (with_status status) event_id m.db.events event (λ e. refl) (λ e. refl)
        keyed found in
    elim (Option-cases (status_action status)) [
      | inl n ↦ rw n (rw (found, n) refl)
      | inr (action, s) ↦ rw s (
        record { action = action_text action; actor_id = actor; target_id = some event.id },
        record {
          db = record m.db { events = update event_key event.id (with_status status) m.db.events };
          moderation_logs = append m.moderation_logs (log_of h actor event.id action reason);
        },
        rw (found, s, read) refl,
        rw same refl,
        (λ j ne.
            find-update_ne event_key (with_status status) (λ e. refl) event.id j m.db.events
              (ground arith)),
      )
    ]

-- A request that holds nothing but a status.
abbrev pub only_status : EventStatus → EventData
only_status status = record {
  title = none;
  slug = none;
  category = none;
  room = none;
  description = none;
  visibility = none;
  status = some status;
  registration_open_at = none;
  registration_close_at = none;
  cancellation_deadline_at = none;
  start_at = none;
  end_at = none;
  max_capacity = none;
  location_snapshot = none;
  cover_image_key = none;
  deep_link = none;
}

-- Who reaches an event does so after a verdict on it.
get_event-with_status :
    (actor event_id : ℕ) (status : EventStatus) (db : Db) (event : Event)
    → IsKeyed event_key db.events
    → get_event actor event_id db ≡ ok event
    → get_event actor event_id
        (record db { events = update event_key event.id (with_status status) db.events })
      ≡ ok (with_status status event)
unfolding get_event is_event_organizer ◌>>=◌
get_event-with_status actor event_id status db event keyed got =
    let found = get_event-live actor event_id db event got in
    let read =
      live_event-update (with_status status) event_id db.events event (λ e. refl) (λ e. refl) keyed
        found in
    rw read (ground (arith, rw found at got))

-- Activated by an organizer, an event for the public is open to it, whatever its status was.
update_event-opens :
    (actor event_id : ℕ) (db : Db) (event : Event)
    → IsKeyed event_key db.events
    → get_event actor event_id db ≡ ok event
    → event.visibility ≡ Visibility.public
    → (saved : Event) × (db' : Db) × (is_valid (only_status EventStatus.active) db ≡ ok tt)
      × (update_event actor event_id (only_status EventStatus.active) db ≡ ok (saved, db'))
      × (get_public_event event_id db' ≡ ok saved)
unfolding is_valid validate_fields fits check_columns fits_columns has_references validate
    validate_title validate_category validate_room validate_max_capacity ◌>>=◌ get_public_event
    updated_event live_event
update_event-opens actor event_id db event keyed got visible =
    let input : EventData = only_status EventStatus.active in
    let found = get_event-live actor event_id db event got in
    let passes =
      first-eq-some (λ e. alive e.deleted_at && e.id == event_id) db.events event found in
    let read =
      live_event-update (updated_event input) event_id db.events event (λ e. refl) (λ e. refl) keyed
        found in
    (
      (outcome actor input event db).0,
      (outcome actor input event db).1,
      refl,
      update_event-total actor event_id input db event keyed got refl,
      rw
          (first-first event_key (λ e. alive e.deleted_at && e.id == event_id) (is_shown event_id)
            event_id (update event_key event.id (updated_event input) db.events)
            (updated_event input event)
            (IsKeyed-update event_key (updated_event input) (λ e. refl) event.id db.events keyed)
            (λ e. ground arith) (λ e. ground arith) read (rw visible (ground arith)))
          refl,
    )

-- The page of an event that is rejected is not found.
rejected-hidden :
    (event_id : ℕ) (db : Db) (event : Event)
    → IsKeyed event_key db.events
    → live_event event_id db.events ≡ some event
    → get_public_event event_id (record db {
      events = update event_key event.id (with_status EventStatus.rejected) db.events;
    })
      ≡ err not_found
unfolding get_public_event live_event
rejected-hidden event_id db event keyed found =
    let rejected : Event → Event = with_status EventStatus.rejected in
    let row =
      find-first event_key (λ e. alive e.deleted_at && e.id == event_id) db.events event keyed
        found in
    rw
      (first-refused event_key (is_shown event_id) event.id
        (update event_key event.id rejected db.events) (rejected event)
        (IsKeyed-update event_key rejected (λ c. refl) event.id db.events keyed)
        (λ c q. ground (arith, id-live_event event_id db.events event found))
        (find-update_self event_key rejected (λ c. refl) event.id db.events event row)
        (ground arith))
      refl

-- A rejection does not stand: with unique keys, an administrator rejects an event for the public,
-- which its page then no longer shows; a request of an organizer that holds nothing but the status
-- active passes the serializer, is carried out, and opens the page again.
pub update_event_status-overturned :
    (h : Host) (admin actor event_id : ℕ) (reason : Text) (m : Moderated) (event : Event)
    → IsKeyed event_key m.db.events
    → get_event actor event_id m.db ≡ ok event
    → event.visibility ≡ Visibility.public
    → (e : AuditEntry) × (m' : Moderated) × (saved : Event) × (db' : Db) × (update_event_status h
          admin event_id EventStatus.rejected reason m
        ≡ ok (with_status EventStatus.rejected event, e, m'))
      × (get_public_event event_id m'.db ≡ err not_found)
      × (is_valid (only_status EventStatus.active) m'.db ≡ ok tt)
      × (update_event actor event_id (only_status EventStatus.active) m'.db ≡ ok (saved, db'))
      × (get_public_event event_id db' ≡ ok saved)
unfolding update_event_status status_action ◌>>=◌
update_event_status-overturned h admin actor event_id reason m event keyed got visible =
    let found = get_event-live actor event_id m.db event got in
    let rejected : Event → Event = with_status EventStatus.rejected in
    let judged : Db = record m.db { events = update event_key event.id rejected m.db.events } in
    let hidden : get_public_event event_id judged ≡ err not_found =
      rejected-hidden event_id m.db event keyed found in
    let (saved, db', valid, updated, opened) =
      update_event-opens actor event_id judged (rejected event)
        (IsKeyed-update event_key rejected (λ e. refl) event.id m.db.events keyed)
        (get_event-with_status actor event_id EventStatus.rejected m.db event keyed got) visible in
    (
      record { action = action_text Action.reject; actor_id = admin; target_id = some event.id },
      record {
        db = judged;
        moderation_logs = append m.moderation_logs (log_of h admin event.id Action.reject reason);
      },
      saved,
      db',
      rw
          (
            found,
            live_event-update rejected event_id m.db.events event (λ e. refl) (λ e. refl) keyed
                found,
          )
          refl,
      hidden,
      valid,
      updated,
      opened,
    )
