-- ===== src/Tests/Requests.antt =====
-- Requests at the tables of `Tests.Data`, and the safety theorems applied after them.
use uevent_backend.Base.{ℕ, ◌≡◌, refl, subst, none, some, [], ◌∷◌, arith}
use uevent_backend.Base.Texts.{codes, text_eq, strip}
use uevent_backend.Common.Errors.{ok, ◌>>=◌}
use uevent_backend.Orm.Table.{find, first, append, update, count}
use uevent_backend.Registrations.Models.{
  RegistrationStatus, Ticket, TicketStatus, CheckinLog, CheckinResult,
}
use uevent_backend.Registrations.State.{
  Db, event_key, registration_key, ticket_key, active_registration_count, live_event,
}
use uevent_backend.Events.Models.{Event}
use uevent_backend.Registrations.Linkage.{IsLinked}
use uevent_backend.Registrations.Capacity.{WithinCapacity}
use uevent_backend.Registrations.Invariant.{IsConsistent}
use uevent_backend.Registrations.Admission.{successes}
use uevent_backend.Registrations.Checkin.{
  Scan, process_checkin_scan, resolve, source_of, look_up, resolve_code, scan_ticket, judge,
  carry_out,
}
use uevent_backend.Registrations.Qr.{lock_for_checkin}
use uevent_backend.Lifecycle.{Reach, here, next, scan}
use uevent_backend.Lifecycle.Safety.{Step-IsConsistent, Reach-IsConsistent}
use uevent_backend.Tests.Data.{host, concert, seat, ticket, db}

find-single : {A : Type 0} (key : A → ℕ) (a b : A) (i : ℕ) → find key i (a ∷ []) ≡ some b → a ≡ b
unfolding find
find-single key a b i h = ground arith

pub db-IsConsistent : IsConsistent db
unfolding find successes count active_registration_count
db-IsConsistent = record {
  events_keyed = (refl, tt);
  registrations_keyed = (refl, tt);
  tickets_keyed = (refl, tt);
  linked = λ i t e.
      subst
        (λ (u : Ticket). IsLinked u.status (find registration_key u.registration_id (seat ∷ [])))
        (find-single ticket_key ticket t i e) refl;
  one_each = λ i j t u e e' same. ground arith;
  logged = λ i. omega arith;
  fits = λ i e found.
      subst
        (λ (x : Event). WithinCapacity x.max_capacity (active_registration_count x.id (seat ∷ [])))
        (find-single event_key concert e i found) (omega arith);
}

abbrev pub gate : Scan
gate = record {
  event_id = 10;
  ticket_code = some (codes " TK-1 ");
  email = none;
  qr_payload = none;
  qr_signature = none;
  scanner_user_id = some 2;
  note = none;
}

abbrev pub admission : CheckinLog
admission = record {
  id = 1002;
  event_id = 10;
  ticket_id = some 30;
  scanner_user_id = some 2;
  checked_in_at = 150_000_000;
  result = CheckinResult.success;
  note = none;
}

abbrev pub admitted : Db
admitted = record db {
  registrations = record seat { status = RegistrationStatus.checked_in } ∷ [];
  tickets = record ticket { status = TicketStatus.used; used_at = some 150_000_000 } ∷ [];
  checkin_logs = admission ∷ [];
}

-- The code on the ticket, with spaces around it, admits the attendee.
pub gate-admits : process_checkin_scan host gate db ≡ ok (admission, admitted)
unfolding process_checkin_scan resolve source_of look_up resolve_code scan_ticket judge carry_out
    lock_for_checkin live_event first find update append text_eq ◌>>=◌ strip
gate-admits = refl

reached : Reach db admitted
reached = next here (scan host gate admission gate-admits)

Step-IsConsistent_example : IsConsistent admitted
Step-IsConsistent_example = Step-IsConsistent db-IsConsistent (scan host gate admission gate-admits)

Reach-IsConsistent_example : IsConsistent admitted
Reach-IsConsistent_example = Reach-IsConsistent db-IsConsistent reached
