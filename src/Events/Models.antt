-- ===== src/Events/Models.antt =====
-- apps/events/models: an event and the role of an organizer. Times are microseconds since the epoch.
use uevent_backend.Base.{ℕ, Bool, true, false, Option}
use uevent_backend.Base.Texts.{Text}

pub data EventStatus : Type 0 where
  draft pending approved active finished cancelled rejected archived : EventStatus

pub data Visibility : Type 0 where
  public private : Visibility

pub record Event : Type 0 where
  pub id : ℕ
  pub deleted_at : Option ℕ
  pub created_at : ℕ
  pub category_id : ℕ
  pub room_id : Option ℕ
  pub created_by_id : ℕ
  pub title : Text
  pub slug : Text
  pub description : Text
  pub visibility : Visibility
  pub status : EventStatus
  pub registration_open_at : Option ℕ
  pub registration_close_at : Option ℕ
  pub cancellation_deadline_at : Option ℕ
  pub start_at : ℕ
  pub end_at : ℕ
  pub max_capacity : Option ℕ
  pub location_snapshot : Option Text
  pub cover_image_key : Option Text
  pub deep_link : Option Text

pub record EventCategory : Type 0 where
  pub id : ℕ
  pub deleted_at : Option ℕ
  pub name : Text
  pub slug : Text
  pub description : Text
  pub icon : Option Text
  pub color : Option Text
  pub is_active : Bool

pub data OrganizerRole : Type 0 where
  owner co_host staff checkin : OrganizerRole

pub record EventOrganizer : Type 0 where
  pub id : ℕ
  pub deleted_at : Option ℕ
  pub event_id : ℕ
  pub user_id : ℕ
  pub organizer_role : OrganizerRole
  pub joined_at : ℕ

-- `status in {APPROVED, ACTIVE}`
abbrev pub is_available : EventStatus → Bool
is_available EventStatus.approved = true
is_available EventStatus.active = true
is_available _ = false

abbrev pub is_owner_role : OrganizerRole → Bool
is_owner_role OrganizerRole.owner = true
is_owner_role _ = false

abbrev pub is_co_host_role : OrganizerRole → Bool
is_co_host_role OrganizerRole.co_host = true
is_co_host_role _ = false
