-- ===== src/Registrations/Scanning/Verdicts.antt =====
-- What a verdict says of the ticket, its registration and its event.
use uevent_backend.Base.{ℕ, ◌<◌, ◌≤◌, ◌≡◌, ◌↔◌, true, false, arith}
use uevent_backend.Events.Models.{Event, is_available}
use uevent_backend.Registrations.Models.{
  EventRegistration, Ticket, TicketStatus, CheckinResult, is_success, is_inactive, is_checked_in,
}
use uevent_backend.Registrations.Checkin.{refuse, expire, admit, judge}

-- What makes a ticket admissible at a time.
pub record IsAdmissible (now : ℕ) (event : Event) (ticket : Ticket) (r : EventRegistration)
    : Type 0 where
  pub here : r.event_id ≡ event.id
  pub available : is_available event.status ≡ true
  pub started : event.start_at ≤ now
  pub going_on : now ≤ event.end_at
  pub valid : ticket.status ≡ TicketStatus.valid
  pub unexpired : now < ticket.expires_at
  pub coming : is_checked_in r.status ≡ false
  pub active : is_inactive r.status ≡ false

-- A ticket is admitted exactly when it is valid and not yet expired, its registration at the event
-- is neither inactive nor checked in, and the event is available and going on.
pub judge-admit_iff :
    (now : ℕ) (event : Event) (ticket : Ticket) (r : EventRegistration)
    → (judge now event ticket r ≡ admit) ↔ IsAdmissible now event ticket r
unfolding judge
judge-admit_iff now event ticket r = (λ h. ground arith, λ h. ground arith)

pub judge-expire :
    (now : ℕ) (event : Event) (ticket : Ticket) (r : EventRegistration)
    → judge now event ticket r ≡ expire
    → ticket.status ≡ TicketStatus.valid
unfolding judge
judge-expire now event ticket r h = ground arith

-- No refusal is a success.
pub judge-refuse :
    (now : ℕ) (event : Event) (ticket : Ticket) (r : EventRegistration) (result : CheckinResult)
    → judge now event ticket r ≡ refuse result
    → is_success result ≡ false
unfolding judge
judge-refuse now event ticket r result h = ground arith
