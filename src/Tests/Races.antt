-- ===== src/Tests/Races.antt =====
-- A cancellation that overlaps a scan, at the tables of `Tests.Data`.
use uevent_backend.Base.{refl, ◌==◌, none, some}
use uevent_backend.Common.Errors.{◌>>=◌}
use uevent_backend.Orm.Table.{first, update}
use uevent_backend.Registrations.Models.{EventRegistration}
use uevent_backend.Registrations.State.{Db, live_registration, ticket_of}
use uevent_backend.Registrations.Invariant.{IsConsistent}
use uevent_backend.Registrations.Cancel.{
  Snapshot, load, cancel_event_registration, cancel_ticket_of,
}
use uevent_backend.Lifecycle.Race.{late_cancel-not-IsConsistent}
use uevent_backend.Tests.Data.{host, seat, ticket, db}
use uevent_backend.Tests.Registering.{value_of}
use uevent_backend.Tests.Requests.{gate, admission, admitted, gate-admits, db-IsConsistent}

abbrev seen : Snapshot
seen = record { registration = seat; ticket = some ticket }

abbrev late : EventRegistration × Db
late = value_of (seat, db) (cancel_event_registration host seen none admitted)

late_cancel-not-IsConsistent_example : ¬ IsConsistent late.1
unfolding load first ticket_of cancel_event_registration update live_registration cancel_ticket_of
    ◌>>=◌
late_cancel-not-IsConsistent_example =
    late_cancel-not-IsConsistent host host (λ r. r.id == 20) gate none db seen ticket admission
      admitted late.0 late.1 db-IsConsistent refl refl gate-admits refl refl refl
