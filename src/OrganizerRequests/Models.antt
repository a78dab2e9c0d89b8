-- ===== src/OrganizerRequests/Models.antt =====
-- apps/organizer_requests/models, and the roles of apps/users/models.
use uevent_backend.Base.{ℕ, Bool, true, false, Option, List}
use uevent_backend.Base.Texts.{Text}

pub data RequestStatus : Type 0 where
  pending approved rejected cancelled : RequestStatus

pub record OrganizerRequest : Type 0 where
  pub id : ℕ
  pub deleted_at : Option ℕ
  pub user_id : ℕ
  pub status : RequestStatus
  pub reason : Text
  pub proof_file_key : Text
  pub proof_file_name : Text
  pub reviewed_by : Option ℕ
  pub reviewed_at : Option ℕ
  pub review_note : Text

pub record Role : Type 0 where
  pub id : ℕ
  pub deleted_at : Option ℕ
  pub code : Text
  pub is_active : Bool

pub record UserRole : Type 0 where
  pub id : ℕ
  pub deleted_at : Option ℕ
  pub user_id : ℕ
  pub role_id : ℕ
  pub is_primary : Bool
  pub assigned_at : ℕ
  pub assigned_by : Option ℕ

-- What the services leave to run after the commit.
pub data Announcement : Type 0 where
  request_approved request_rejected : ℕ → Announcement

-- The tables, and the calls that `transaction.on_commit` has been given.
pub record Desk : Type 0 where
  pub requests : List OrganizerRequest
  pub roles : List Role
  pub user_roles : List UserRole
  pub on_commit : List Announcement

abbrev pub is_pending : RequestStatus → Bool
is_pending RequestStatus.pending = true
is_pending _ = false

abbrev pub request_key : OrganizerRequest → ℕ
request_key r = r.id

abbrev pub user_role_key : UserRole → ℕ
user_role_key r = r.id
