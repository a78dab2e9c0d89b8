-- ===== src/Notifications/Dispatch.antt =====
-- EventNotificationService (apps/notifications/services/event_notification_service.py): the rows
-- that it writes and the tasks that it leaves to run after the commit.
pub mod Recipients
use uevent_backend.Base.{
  ℕ, ◌+◌, Bool, false, not, ◌&&◌, Option, none, some, List, [], ◌∷◌, ◌++◌, ltb, ◌==◌, if◌then◌else◌,
  length,
}
use uevent_backend.Common.Errors.{Result, ok, ◌>>=◌}
use uevent_backend.Common.Host.{Host}
use uevent_backend.Orm.Table.{exists, append}
use uevent_backend.Notifications.Models.{
  NotificationType, NotificationCategory, NotificationTarget, Metadata, Notification,
  NotificationRecipient, FailureReason, NotificationPreference, DeliveryStatus, Task, Mailbox,
}
use uevent_backend.Notifications.Preference.{allows_push, get_for_user}

-- `list({user.id: user for user in recipients}.values())`: a dict keeps the first place of a key.
unfoldable pub without : ℕ → List ℕ → List ℕ
without u [] = []
without u (v ∷ users) = let rest = without u users in if v == u then rest else v ∷ rest

unfoldable pub unique_recipients : List ℕ → List ℕ
unfolding without
unique_recipients [] = []
unique_recipients (u ∷ users) = u ∷ without u (unique_recipients users)

-- The arguments of `_create_and_dispatch`.
pub record Dispatch : Type 0 where
  pub id : ℕ
  pub event_id : ℕ
  pub created_by_id : Option ℕ
  pub type : NotificationType
  pub category : NotificationCategory
  pub target : NotificationTarget
  pub recipients : List ℕ
  pub metadata : Metadata
  pub send_push : Bool

-- The row of one recipient, under a fresh key for each.
unfoldable pub recipient_row : Host → Dispatch → ℕ → Bool → NotificationRecipient
recipient_row h d user_id allows = record {
  id = h.new_id user_id;
  deleted_at = none;
  notification_id = d.id;
  user_id = user_id;
  delivery_status = if allows then DeliveryStatus.queued else DeliveryStatus.sent;
  delivered_at = if allows then none else some h.now;
  read_at = none;
  opened_at = none;
  failure_reason =
      if d.send_push && not allows then FailureReason.push_disabled else FailureReason.no_failure;
}

-- `send_push and allows_push(...)`: the preference is looked up only if a push is wanted.
unfoldable pub wants_push :
    Host → Dispatch → ℕ → List NotificationPreference → Result (Bool × List NotificationPreference)
unfolding allows_push get_for_user
wants_push h d user_id preferences =
    if d.send_push
    then (do
      (preference, preferences') ← get_for_user user_id preferences
      ok (allows_push h preference d.category h.now, preferences'))
    else ok (false, preferences)

-- The loop over the recipients: their rows, how many are queued, and the preferences.
unfoldable pub build_recipients :
    Host
    → Dispatch
    → List ℕ
    → List NotificationPreference
    → Result (List NotificationRecipient × ℕ × List NotificationPreference)
unfolding wants_push recipient_row
build_recipients h d [] preferences = ok ([], 0, preferences)
build_recipients h d (user_id ∷ users) preferences = do
  (allows, preferences') ← wants_push h d user_id preferences
  (rows, queued, preferences'') ← build_recipients h d users preferences'
  ok (
    recipient_row h d user_id allows ∷ rows,
    (if allows then queued + 1 else queued),
    preferences'',
  )

-- `bulk_create(..., ignore_conflicts=True)` under the unique (notification, user).
unfoldable pub bulk_create :
    List NotificationRecipient → List NotificationRecipient → List NotificationRecipient
bulk_create rows [] = rows
bulk_create rows (r ∷ new) =
    bulk_create
      (if exists (λ s. s.notification_id == r.notification_id && s.user_id == r.user_id) rows
        then rows
        else append rows r)
      new

unfoldable pub notification_row : Host → Dispatch → Notification
notification_row h d = record {
  id = d.id;
  deleted_at = none;
  event_id = d.event_id;
  created_by_id = d.created_by_id;
  type = d.type;
  category = d.category;
  target = d.target;
  metadata = d.metadata;
  sent_at = h.now;
}

-- The new mailbox, how many recipients there are, and how many of them are queued.
unfoldable pub create_and_dispatch : Host → Dispatch → Mailbox → Result (Mailbox × ℕ × ℕ)
unfolding unique_recipients build_recipients bulk_create notification_row
create_and_dispatch h d mailbox = do
  (rows, queued, preferences) ←
      build_recipients h d (unique_recipients d.recipients) mailbox.preferences
  ok (
    record {
      notifications = append mailbox.notifications (notification_row h d);
      recipients = bulk_create mailbox.recipients rows;
      preferences = preferences;
      on_commit =
          if ltb 0 queued
          then mailbox.on_commit ++ Task.deliver_notification d.id ∷ []
          else mailbox.on_commit;
    },
    length rows,
    queued,
  )
