-- ===== src/Tests/Registering.antt =====
-- Registering at the tables of `Tests.Data`.
use uevent_backend.Base.{◌+◌, ◌≡◌, refl, false, none, some, arith}
use uevent_backend.Base.Texts.{Text}
use uevent_backend.Common.Errors.{Result, ok, err, ◌>>=◌}
use uevent_backend.Orm.Table.{first, exists, select, count, append}
use uevent_backend.Events.Models.{Event}
use uevent_backend.Notifications.Preference.{get_for_user}
use uevent_backend.Notifications.Dispatch.{
  create_and_dispatch, unique_recipients, build_recipients, wants_push, without,
}
use uevent_backend.Notifications.Registered.{
  notify_registration_created, notify_participant, event_organizer_users,
}
use uevent_backend.Registrations.Models.{EventRegistration, RegistrationStatus}
use uevent_backend.Registrations.State.{
  Db, live_event, live_registration, active_registration_count,
}
use uevent_backend.Registrations.Tickets.{generate_ticket_code}
use uevent_backend.Registrations.Tickets.Codes.{is_taken, generate_ticket_code-total}
use uevent_backend.Registrations.Register.{
  create_event_registration, validate_event_registration_window, existing_registration, next_status,
  enrol, insert_registration, restore_if_registered,
}
use uevent_backend.Registrations.Registering.Outcome.{
  IsOutcome, create_event_registration-IsOutcome,
}
use uevent_backend.Tests.Data.{host, seat, db}
use uevent_backend.Tests.Requests.{db-IsConsistent}

-- The value of a call that succeeds.
abbrev pub value_of {ℓ} : {A : Type ℓ} → A → Result A → A
value_of a (ok b) = b
value_of a (err e) = a

abbrev waiting : EventRegistration × Db
waiting = value_of (seat, db) (create_event_registration host 2 10 none db)

-- The only place is taken, so the second user is put on the waiting list.
waits : waiting.0.status ≡ RegistrationStatus.waitlisted
unfolding create_event_registration live_event first validate_event_registration_window
    existing_registration next_status active_registration_count count enrol insert_registration
    exists append restore_if_registered live_registration notify_registration_created
    notify_participant event_organizer_users create_and_dispatch unique_recipients without
    build_recipients wants_push get_for_user select ◌>>=◌
waits = refl

create_event_registration-IsOutcome_example :
    (event : Event) × (live_event 10 db.events ≡ some event)
    × IsOutcome 2 event db waiting.0 waiting.1
unfolding create_event_registration live_event first validate_event_registration_window
    existing_registration next_status active_registration_count count enrol insert_registration
    exists append restore_if_registered live_registration notify_registration_created
    notify_participant event_organizer_users create_and_dispatch unique_recipients without
    build_recipients wants_push get_for_user select ◌>>=◌
create_event_registration-IsOutcome_example =
    create_event_registration-IsOutcome host 2 10 none db waiting.0 waiting.1 db-IsConsistent refl

generate_ticket_code-total_example :
    (code : Text) × (generate_ticket_code host db.tickets 2 0 ≡ some code)
    × (is_taken code db.tickets ≡ false)
generate_ticket_code-total_example =
    generate_ticket_code-total host db.tickets 2
      (λ i j a b e. let same : 65 + i ≡ 65 + j = cc e in omega arith) (omega arith)
