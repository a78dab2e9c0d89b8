-- ===== src/Tests/Inboxes.antt =====
-- Inboxes, devices and deliveries at a small mailbox.
use uevent_backend.Base.{
  ℕ, ◌+◌, ◌-◌, ◌≡◌, refl, Bool, true, false, not, none, some, List, [], ◌∷◌, weight, is_some,
}
use uevent_backend.Base.Texts.{codes, strip, text_eq}
use uevent_backend.Common.Errors.{◌>>=◌}
use uevent_backend.Orm.Table.{first, exists, count, find, append, update, update_where, select}
use uevent_backend.Users.{UserSession}
use uevent_backend.Notifications.Models.{
  Notification, NotificationRecipient, DeliveryStatus, FailureReason,
}
use uevent_backend.Notifications.Inbox.{
  own_recipient, mark_read, marked_read, unread_count, Device, register_device, upsert_session,
  insert_session, new_session, with_defaults, token_hash, unregister_device,
}
use uevent_backend.Notifications.Inbox.Reading.{unread_count-mark_read}
use uevent_backend.Notifications.Inbox.Devices.{is_held, unregister_device-register_device}
use uevent_backend.Notifications.Delivery.{
  FcmClient, Delivered, waits, deliver_notification, deliver_batch, batch, take,
  token_recipient_pairs, tokens_of, paired_with, ids_with, fate, result_by_token, minus, member,
  send_all,
}
use uevent_backend.Notifications.Delivery.Settling.{deliver_notification-settles}
use uevent_backend.Notifications.Dispatch.{notification_row}
use uevent_backend.Tests.Data.{host}
use uevent_backend.Tests.Dispatching.{announcement}
use uevent_backend.Tests.Registering.{value_of}

abbrev first_row : NotificationRecipient
first_row = record {
  id = 1;
  deleted_at = none;
  notification_id = 7;
  user_id = 1;
  delivery_status = DeliveryStatus.queued;
  delivered_at = none;
  read_at = none;
  opened_at = none;
  failure_reason = FailureReason.no_failure;
}

abbrev rows : List NotificationRecipient
rows = first_row ∷ record first_row { id = 2; user_id = 2 } ∷ []

abbrev read_rows : NotificationRecipient × List NotificationRecipient
read_rows = value_of (first_row, []) (mark_read host 1 1 rows)

unread_count-mark_read_example :
    (before : NotificationRecipient) × (own_recipient 1 1 rows ≡ some before)
    × (is_some read_rows.0.read_at ≡ true)
    × (unread_count 1 read_rows.1 + weight (not (is_some before.read_at)) ≡ unread_count 1 rows)
unfolding mark_read own_recipient marked_read first find update ◌>>=◌
unread_count-mark_read_example =
    unread_count-mark_read host 1 1 rows read_rows.1 read_rows.0 (refl, (refl, tt)) refl

abbrev phone : Device
phone = record { fcm_token = codes "t"; device_name = []; user_agent = []; ttl_days = 365 }

abbrev registered : ℕ × Bool × List UserSession
registered = value_of (0, false, []) (register_device host 1 phone [])

unregister_device-register_device_example :
    count
      (is_held (strip phone.fcm_token))
      (unregister_device host 1 phone.fcm_token registered.2).1
    ≡ 0
unfolding register_device upsert_session insert_session new_session with_defaults token_hash exists
    first append update_where ◌>>=◌
unregister_device-register_device_example =
    unregister_device-register_device host host 1 phone [] registered.0 registered.1 registered.2
      refl

-- Every message gets through.
abbrev delivers : FcmClient
delivers [] = []
delivers ((token, i) ∷ pairs) =
    record { token = token; success = true; invalid_token = false; retryable = false }
    ∷ delivers pairs

abbrev notices : List Notification
notices = notification_row host announcement ∷ []

abbrev delivered : Delivered
delivered =
    value_of (record { recipients = []; sessions = []; retryable_ids = [] })
      (deliver_notification host delivers 1 7 notices rows registered.2)

-- The batch is of one of the two that wait.
deliver_notification-settles_example :
    count (waits 7) delivered.recipients ≡ count (waits 7) rows - 1
unfolding deliver_notification deliver_batch notification_row batch take token_recipient_pairs
    tokens_of paired_with ids_with fate result_by_token minus member send_all register_device
    upsert_session insert_session new_session with_defaults token_hash exists first append
    update_where select find strip text_eq ◌>>=◌
deliver_notification-settles_example =
    deliver_notification-settles host delivers 1 7 notices rows registered.2 delivered
      (refl, (refl, tt)) refl refl
