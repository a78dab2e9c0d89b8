-- ===== src/Support/Models.antt =====
-- apps/support/models: the columns that the services read or write.
use uevent_backend.Base.{ℕ, Bool, true, false, Option, List}
use uevent_backend.Base.Texts.{Text}

pub data SupportStatus : Type 0 where
  opened in_progress resolved closed : SupportStatus

pub data Priority : Type 0 where
  low medium high urgent : Priority

pub data SupportCategory : Type 0 where
  account event payment technical other : SupportCategory

pub record SupportTicket : Type 0 where
  pub id : ℕ
  pub deleted_at : Option ℕ
  pub user_id : ℕ
  pub subject : Text
  pub category : SupportCategory
  pub description : Text
  pub status : SupportStatus
  pub priority : Priority
  pub assigned_to_id : Option ℕ
  pub updated_at : ℕ

pub record SupportMessage : Type 0 where
  pub id : ℕ
  pub ticket_id : ℕ
  pub author_user_id : ℕ
  pub content : Text
  pub is_staff : Bool

-- An account, with what decides whether tickets may be assigned to it.
pub record Account : Type 0 where
  pub id : ℕ
  pub deleted_at : Option ℕ
  pub is_staff : Bool
  pub is_superuser : Bool

pub data PublicationStatus : Type 0 where
  draft published archived : PublicationStatus

-- A help-center article or a legal document, which go through the same states.
pub record Publication : Type 0 where
  pub id : ℕ
  pub deleted_at : Option ℕ
  pub status : PublicationStatus
  pub published_at : Option ℕ

pub record HelpDesk : Type 0 where
  pub accounts : List Account
  pub tickets : List SupportTicket
  pub messages : List SupportMessage

abbrev pub is_open : SupportStatus → Bool
is_open SupportStatus.opened = true
is_open _ = false

-- `status in {RESOLVED, CLOSED}`
abbrev pub is_handled : SupportStatus → Bool
is_handled SupportStatus.resolved = true
is_handled SupportStatus.closed = true
is_handled _ = false

abbrev pub support_key : SupportTicket → ℕ
support_key t = t.id
