-- ===== src/Registrations/State.antt =====
-- The tables that the services of apps/events/services.py and apps/registrations/services.py read
-- and write.
--
-- Every service runs in `transaction.atomic`, so it is a function into `Result (A × Db)`: where it
-- raises, the database rolls back and no new state comes out.
use uevent_backend.Base.{ℕ, ◌&&◌, ◌==◌, Option, List, Bool}
use uevent_backend.Orm.Table.{alive, first, count}
use uevent_backend.Users.{User}
use uevent_backend.Events.Models.{Event, EventCategory, EventOrganizer}
use uevent_backend.Locations.Models.{Room}
use uevent_backend.Notifications.Models.{Mailbox}
use uevent_backend.Registrations.Models.{EventRegistration, Ticket, CheckinLog, takes_place}

pub record Db : Type 0 where
  pub users : List User
  pub categories : List EventCategory
  pub rooms : List Room
  pub events : List Event
  pub organizers : List EventOrganizer
  pub registrations : List EventRegistration
  pub tickets : List Ticket
  pub checkin_logs : List CheckinLog
  pub mailbox : Mailbox

abbrev pub event_key : Event → ℕ
event_key e = e.id

abbrev pub registration_key : EventRegistration → ℕ
registration_key r = r.id

abbrev pub ticket_key : Ticket → ℕ
ticket_key t = t.id

-- A live row with this key: `Model.objects.get(id=key)`.
unfoldable pub live_event : ℕ → List Event → Option Event
live_event i = first (λ e. alive e.deleted_at && e.id == i)

unfoldable pub live_registration : ℕ → List EventRegistration → Option EventRegistration
live_registration i = first (λ r. alive r.deleted_at && r.id == i)

unfoldable pub live_ticket : ℕ → List Ticket → Option Ticket
live_ticket i = first (λ t. alive t.deleted_at && t.id == i)

-- `registration.ticket`: the related row, dead or not, or `none` where the attribute is missing.
unfoldable pub ticket_of : ℕ → List Ticket → Option Ticket
ticket_of registration_id = first (λ t. t.registration_id == registration_id)

-- A live registration of the event that takes a place.
abbrev pub takes_place_at : ℕ → EventRegistration → Bool
takes_place_at event_id r = alive r.deleted_at && (r.event_id == event_id && takes_place r.status)

-- `active_registration_count`
unfoldable pub active_registration_count : ℕ → List EventRegistration → ℕ
active_registration_count event_id = count (takes_place_at event_id)
