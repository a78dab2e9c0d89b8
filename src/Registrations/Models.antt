-- ===== src/Registrations/Models.antt =====
-- apps/registrations/models: the rows, with the columns that the services read or write.
use uevent_backend.Base.{ℕ, Bool, true, false, Option, List}
use uevent_backend.Base.Texts.{Text}

pub data RegistrationStatus : Type 0 where
  pending registered waitlisted cancel_pending cancelled rejected checked_in : RegistrationStatus

-- An answer is the text of its JSON object, which nothing here looks into.
pub record EventRegistration : Type 0 where
  pub id : ℕ
  pub deleted_at : Option ℕ
  pub event_id : ℕ
  pub user_id : ℕ
  pub status : RegistrationStatus
  pub form_answers_jsonb : List Text
  pub answers_locked : Bool
  pub registered_at : ℕ
  pub cancelled_at : Option ℕ
  pub cancel_reason : Option Text

pub data TicketStatus : Type 0 where
  valid used expired cancelled : TicketStatus

pub record Ticket : Type 0 where
  pub id : ℕ
  pub deleted_at : Option ℕ
  pub registration_id : ℕ
  pub ticket_code : Text
  pub qr_payload : Text
  pub qr_signature : Text
  pub status : TicketStatus
  pub issued_at : ℕ
  pub used_at : Option ℕ
  pub expires_at : ℕ

pub data CheckinResult : Type 0 where
  success invalid_format invalid_ticket already_checked_in event_unavailable : CheckinResult

pub record CheckinLog : Type 0 where
  pub id : ℕ
  pub event_id : ℕ
  pub ticket_id : Option ℕ
  pub scanner_user_id : Option ℕ
  pub checked_in_at : ℕ
  pub result : CheckinResult
  pub note : Option Text

-- `status in {CANCELLED, REJECTED}`: RE_REGISTERABLE_STATUSES, and the test of `cancel`
abbrev pub is_inactive : RegistrationStatus → Bool
is_inactive RegistrationStatus.cancelled = true
is_inactive RegistrationStatus.rejected = true
is_inactive _ = false

-- `status in {REGISTERED, CHECKED_IN}`, which takes a place of the event
abbrev pub takes_place : RegistrationStatus → Bool
takes_place RegistrationStatus.registered = true
takes_place RegistrationStatus.checked_in = true
takes_place _ = false

abbrev pub is_registered : RegistrationStatus → Bool
is_registered RegistrationStatus.registered = true
is_registered _ = false

abbrev pub is_checked_in : RegistrationStatus → Bool
is_checked_in RegistrationStatus.checked_in = true
is_checked_in _ = false

abbrev pub is_waitlisted : RegistrationStatus → Bool
is_waitlisted RegistrationStatus.waitlisted = true
is_waitlisted _ = false

abbrev pub is_cancelled : RegistrationStatus → Bool
is_cancelled RegistrationStatus.cancelled = true
is_cancelled _ = false

abbrev pub is_valid : TicketStatus → Bool
is_valid TicketStatus.valid = true
is_valid _ = false

abbrev pub is_used : TicketStatus → Bool
is_used TicketStatus.used = true
is_used _ = false

abbrev pub is_cancelled_ticket : TicketStatus → Bool
is_cancelled_ticket TicketStatus.cancelled = true
is_cancelled_ticket _ = false

-- `status in {CANCELLED, EXPIRED}`
abbrev pub is_void : TicketStatus → Bool
is_void TicketStatus.cancelled = true
is_void TicketStatus.expired = true
is_void _ = false

abbrev pub is_success : CheckinResult → Bool
is_success CheckinResult.success = true
is_success _ = false
