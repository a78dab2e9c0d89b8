-- ===== src/Registrations/Register.antt =====
-- `create_event_registration` (apps/registrations/services.py).
use uevent_backend.Base.{
  ℕ, zero, suc, Bool, false, not, ◌&&◌, ◌||◌, Option, none, some, List, [], ◌==◌, ltb, leb,
  if◌then◌else◌,
}
use uevent_backend.Base.Texts.{Text}
use uevent_backend.Common.Errors.{
  Result, ok, err, ◌>>=◌, ◌>>◌, raise_if, or_raise, validation_error, conflict, not_found,
  does_not_exist, integrity_error, not_open_for_registration, not_opened_yet, already_closed,
  already_ended, already_registered,
}
use uevent_backend.Common.Host.{Host}
use uevent_backend.Orm.Table.{alive, first, exists, append, update}
use uevent_backend.Events.Models.{Event, is_available}
use uevent_backend.Notifications.Registered.{notify_registration_created}
use uevent_backend.Registrations.Models.{
  EventRegistration, RegistrationStatus, is_inactive, is_registered,
}
use uevent_backend.Registrations.State.{
  Db, registration_key, live_event, live_registration, ticket_of, active_registration_count,
}
use uevent_backend.Registrations.Tickets.{restore_ticket_for_registration}

-- `event.registration_open_at and now < event.registration_open_at`
abbrev not_opened : Option ℕ → ℕ → Bool
not_opened none now = false
not_opened (some open_at) now = ltb now open_at

-- `event.registration_close_at and now > event.registration_close_at`
abbrev has_closed : Option ℕ → ℕ → Bool
has_closed none now = false
has_closed (some close_at) now = ltb close_at now

unfoldable pub validate_event_registration_window : ℕ → Event → Result (Unit {0})
validate_event_registration_window now event = do
  raise_if (not (is_available event.status)) (validation_error not_open_for_registration)
  raise_if (not_opened event.registration_open_at now) (validation_error not_opened_yet)
  raise_if (has_closed event.registration_close_at now) (validation_error already_closed)
  raise_if (leb event.end_at now) (validation_error already_ended)

-- `event.max_capacity and active_registration_count >= event.max_capacity`: a capacity of 0 is
-- no limit.
abbrev pub is_full : Option ℕ → ℕ → Bool
is_full none active = false
is_full (some zero) active = false
is_full (some (suc c)) active = leb (suc c) active

-- The live registration of the user at the event.
unfoldable pub existing_registration : ℕ → ℕ → List EventRegistration → Option EventRegistration
existing_registration event_id user_id =
    first (λ r. alive r.deleted_at && (r.event_id == event_id && r.user_id == user_id))

abbrev pub blocks : Option EventRegistration → Bool
blocks none = false
blocks (some r) = not (is_inactive r.status)

-- `answers or []`
abbrev pub or_empty : Option (List Text) → List Text
or_empty none = []
or_empty (some answers) = answers

-- What a renewed registration is saved with.
abbrev pub renewed :
    Host → RegistrationStatus → Option (List Text) → EventRegistration → EventRegistration
renewed h status answers r = record r {
  status = status;
  form_answers_jsonb = or_empty answers;
  answers_locked = false;
  cancelled_at = none;
  cancel_reason = none;
  registered_at = h.now;
}

abbrev pub new_registration :
    Host → ℕ → ℕ → RegistrationStatus → Option (List Text) → EventRegistration
new_registration h event_id user_id status answers = record {
  id = h.new_id 0;
  deleted_at = none;
  event_id = event_id;
  user_id = user_id;
  status = status;
  form_answers_jsonb = or_empty answers;
  answers_locked = false;
  registered_at = h.now;
  cancelled_at = none;
  cancel_reason = none;
}

-- A row that shares the key, or the pair of event and user, with a new one.
abbrev pub clashes_with : EventRegistration → EventRegistration → Bool
clashes_with new r = (r.id == new.id) || (r.event_id == new.event_id && r.user_id == new.user_id)

-- `EventRegistration.objects.create` under the unique key and the unique (event, user), which
-- counts dead rows too.
unfoldable pub insert_registration :
    EventRegistration → List EventRegistration → Result (List EventRegistration)
insert_registration new rows =
    if exists (clashes_with new) rows then err integrity_error else ok (append rows new)

-- The renewed or the new registration, saved.
unfoldable pub enrol :
    Host
    → Event
    → ℕ
    → RegistrationStatus
    → Option (List Text)
    → Option EventRegistration
    → Db
    → Result (EventRegistration × Db)
unfolding insert_registration
enrol h event user_id status answers (some r) db = ok (
  renewed h status answers r,
  record db {
    registrations = update registration_key r.id (renewed h status answers) db.registrations;
  },
)
enrol h event user_id status answers none db = do
  rows ← insert_registration (new_registration h event.id user_id status answers) db.registrations
  ok (new_registration h event.id user_id status answers, record db { registrations = rows })

-- `if registration.status == REGISTERED: _restore_ticket_for_registration(registration)`
unfoldable pub restore_if_registered : Host → EventRegistration → Event → Db → Result Db
restore_if_registered h registration event db =
    if is_registered registration.status
    then (do (_, db') ← restore_ticket_for_registration h registration event db; ok db')
    else ok db

-- The status that the next registration of the event gets.
unfoldable pub next_status : Event → List EventRegistration → RegistrationStatus
unfolding active_registration_count
next_status event rows =
    if is_full event.max_capacity (active_registration_count event.id rows)
    then RegistrationStatus.waitlisted
    else RegistrationStatus.registered

unfoldable pub create_event_registration :
    Host → ℕ → ℕ → Option (List Text) → Db → Result (EventRegistration × Db)
unfolding live_event validate_event_registration_window existing_registration next_status enrol
    restore_if_registered
create_event_registration h user_id event_id answers db = do
  event ← or_raise (live_event event_id db.events) not_found
  validate_event_registration_window h.now event
  let existing = existing_registration event.id user_id db.registrations
  raise_if (blocks existing) (conflict already_registered)
  (saved, enrolled) ← enrol h event user_id (next_status event db.registrations) answers existing db
  ticketed ← restore_if_registered h saved event enrolled
  registration ← or_raise (live_registration saved.id ticketed.registrations) does_not_exist
  mailbox ←
      notify_registration_created h event ticketed.organizers ticketed.users registration
        (ticket_of registration.id ticketed.tickets) ticketed.mailbox
  ok (registration, record ticketed { mailbox = mailbox })
