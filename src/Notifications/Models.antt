-- ===== src/Notifications/Models.antt =====
-- apps/notifications/models, without the texts that are shown to a reader.
use uevent_backend.Base.{ℕ, Bool, Option, List}
use uevent_backend.Base.Texts.{Text}

pub data NotificationType : Type 0 where
  announcement alert reminder promotion invite ticket_confirm : NotificationType
  registration_confirmed registration_waitlisted new_registration : NotificationType
  organizer_announcement question_answered : NotificationType
  organizer_request_approved organizer_request_rejected event_update : NotificationType

pub data NotificationCategory : Type 0 where
  ticket organizer event marketing system : NotificationCategory

pub data NotificationTarget : Type 0 where
  event_user event_organizer ticket organizer_registrations : NotificationTarget
  organizer_questions question_detail profile notification_detail : NotificationTarget

pub record Metadata : Type 0 where
  pub event_id : ℕ
  pub registration_id : Option ℕ
  pub ticket_id : Option ℕ

pub record Notification : Type 0 where
  pub id : ℕ
  pub deleted_at : Option ℕ
  pub event_id : ℕ
  pub created_by_id : Option ℕ
  pub type : NotificationType
  pub category : NotificationCategory
  pub target : NotificationTarget
  pub metadata : Metadata
  pub sent_at : ℕ

pub data DeliveryStatus : Type 0 where
  queued sent failed read : DeliveryStatus

-- "", "Push disabled by notification preferences.", "No active FCM token.", "FCM delivery failed."
pub data FailureReason : Type 0 where
  no_failure push_disabled no_active_token delivery_failed : FailureReason

pub record NotificationRecipient : Type 0 where
  pub id : ℕ
  pub deleted_at : Option ℕ
  pub notification_id : ℕ
  pub user_id : ℕ
  pub delivery_status : DeliveryStatus
  pub delivered_at : Option ℕ
  pub read_at : Option ℕ
  pub opened_at : Option ℕ
  pub failure_reason : FailureReason

-- Times of day are microseconds since midnight.
pub record NotificationPreference : Type 0 where
  pub user_id : ℕ
  pub deleted_at : Option ℕ
  pub push_enabled : Bool
  pub event_reminders_enabled : Bool
  pub ticket_updates_enabled : Bool
  pub organizer_updates_enabled : Bool
  pub marketing_enabled : Bool
  pub quiet_hours_enabled : Bool
  pub quiet_hours_start : Option ℕ
  pub quiet_hours_end : Option ℕ
  pub timezone : Text

-- What `transaction.on_commit` is given to run.
pub data EmailTemplate : Type 0 where
  confirmed_email waitlisted_email cancelled_email : EmailTemplate

-- What `update_event` reports: the old and the new start and end, and the old and the new place.
pub record TimeChange : Type 0 where
  pub old_start_at : ℕ
  pub old_end_at : ℕ
  pub new_start_at : ℕ
  pub new_end_at : ℕ

pub record EventChanges : Type 0 where
  pub time : Option TimeChange
  pub location : Option (Text × Text)

pub data Task : Type 0 where
  deliver_notification : ℕ → Task
  send_mail : EmailTemplate → ℕ → Text → Task
  notify_event_updated : ℕ → ℕ → EventChanges → Task

pub record Mailbox : Type 0 where
  pub notifications : List Notification
  pub recipients : List NotificationRecipient
  pub preferences : List NotificationPreference
  pub on_commit : List Task
