-- ===== src/Tests/Overriding.antt =====
-- What an organizer writes past the invariant, at the tables of `Tests.Data`.
use uevent_backend.Base.{◌≡◌, ◌≤◌, ◌<◌, refl, false, none, some, [], ◌∷◌, arith}
use uevent_backend.Common.Errors.{ok, ◌>>=◌}
use uevent_backend.Orm.Table.{first, find, count, update}
use uevent_backend.Events.Models.{Event}
use uevent_backend.Events.Access.{get_event, is_event_organizer}
use uevent_backend.Events.Input.{is_valid}
use uevent_backend.Events.Editing.{update_event}
use uevent_backend.Registrations.Models.{Ticket, TicketStatus, is_used}
use uevent_backend.Registrations.State.{
  Db, event_key, ticket_key, live_event, active_registration_count,
}
use uevent_backend.Registrations.Admission.{successes}
use uevent_backend.Registrations.Invariant.{IsConsistent}
use uevent_backend.Registrations.Override.{TicketData, get_object, patch_ticket}
use uevent_backend.Lifecycle.Override.{
  only_capacity, patch_ticket-process_checkin_scan, update_event-overbooks,
}
use uevent_backend.Tests.Data.{host, concert, seat, ticket, db}
use uevent_backend.Tests.Registering.{value_of}
use uevent_backend.Tests.Requests.{gate, admission, admitted, gate-admits, db-IsConsistent}

abbrev reset : TicketData
reset = record { status = some TicketStatus.valid; expires_at = none }

abbrev given_back : Ticket × Db
given_back = value_of (ticket, db) (patch_ticket 2 20 reset admitted)

patch_ticket-process_checkin_scan_example :
    (1 ≤ successes given_back.0.id given_back.1.checkin_logs)
    × (find ticket_key given_back.0.id given_back.1.tickets ≡ some given_back.0)
    × (is_used given_back.0.status ≡ false)
    × (¬ IsConsistent given_back.1)
unfolding patch_ticket get_object is_event_organizer first find update ◌>>=◌
patch_ticket-process_checkin_scan_example =
    patch_ticket-process_checkin_scan host gate 2 20 reset TicketStatus.valid db admission admitted
      given_back.0 given_back.1 db-IsConsistent gate-admits refl refl refl refl refl

-- Two live registrations take a place.
abbrev crowded : Db
crowded = record db { registrations = seat ∷ record seat { id = 21; user_id = 2 } ∷ [] }

update_event-overbooks_example :
    (saved : Event) × (db' : Db) × (is_valid (only_capacity 1) crowded ≡ ok tt)
    × (update_event 2 10 (only_capacity 1) crowded ≡ ok (saved, db'))
    × (find event_key 10 db'.events ≡ some saved)
    × (saved.max_capacity ≡ some 1)
    × (1 < active_registration_count saved.id db'.registrations)
unfolding get_event live_event first is_event_organizer find active_registration_count count ◌>>=◌
update_event-overbooks_example =
    update_event-overbooks 2 10 0 crowded concert (refl, tt) refl (omega arith) (omega arith)
