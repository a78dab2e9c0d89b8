-- ===== src/Notifications/Inbox.antt =====
-- NotificationInboxService (apps/notifications/services/inbox_service.py): what a user has read, and
-- the devices that pushes go to.
pub mod Reading
pub mod Devices
use uevent_backend.Base.{
  ℕ, ◌+◌, ◌*◌, Bool, true, false, not, ◌&&◌, ◌||◌, Option, none, some, List, ◌++◌, ◌==◌, is_some,
  if◌then◌else◌,
}
use uevent_backend.Base.Texts.{Text, codes, text_eq, strip, is_nonempty}
use uevent_backend.Common.Errors.{Result, ok, err, ◌>>=◌, or_raise, not_found, integrity_error}
use uevent_backend.Common.Host.{Host}
use uevent_backend.Orm.Table.{alive, first, count, exists, append, update, update_where}
use uevent_backend.Users.{UserSession}
use uevent_backend.Notifications.Models.{NotificationRecipient, DeliveryStatus}

abbrev pub recipient_key : NotificationRecipient → ℕ
recipient_key r = r.id

abbrev pub session_key : UserSession → ℕ
session_key s = s.id

-- `user=user, read_at__isnull=True`
abbrev pub is_unread : ℕ → NotificationRecipient → Bool
is_unread user_id r = alive r.deleted_at && (r.user_id == user_id && not (is_some r.read_at))

unfoldable pub unread_count : ℕ → List NotificationRecipient → ℕ
unread_count user_id = count (is_unread user_id)

-- `get(pk=recipient_id, user=user)`
unfoldable pub own_recipient : ℕ → ℕ → List NotificationRecipient → Option NotificationRecipient
own_recipient user_id recipient_id =
    first (λ r. alive r.deleted_at && (r.id == recipient_id && r.user_id == user_id))

-- What `mark_read` saves.
unfoldable pub marked_read : ℕ → NotificationRecipient → NotificationRecipient
marked_read now r =
    if is_some r.read_at
    then r
    else record r { read_at = some now; delivery_status = DeliveryStatus.read }

unfoldable pub mark_read :
    Host
    → ℕ
    → ℕ
    → List NotificationRecipient
    → Result (NotificationRecipient × List NotificationRecipient)
unfolding own_recipient marked_read
mark_read h user_id recipient_id rows = do
  recipient ← or_raise (own_recipient user_id recipient_id rows) not_found
  ok (marked_read h.now recipient, update recipient_key recipient.id (marked_read h.now) rows)

-- What `mark_opened` saves: opened now unless it was, and read when it was opened unless it was.
abbrev pub opened_time : ℕ → Option ℕ → ℕ
opened_time now none = now
opened_time now (some t) = t

unfoldable pub marked_opened : ℕ → NotificationRecipient → NotificationRecipient
marked_opened now r =
    let opened : NotificationRecipient = record r {
      opened_at = some (opened_time now r.opened_at);
    } in
    if is_some r.read_at then opened else record opened {
      read_at = some (opened_time now r.opened_at);
      delivery_status = DeliveryStatus.read;
    }

unfoldable pub mark_opened :
    Host
    → ℕ
    → ℕ
    → List NotificationRecipient
    → Result (NotificationRecipient × List NotificationRecipient)
unfolding own_recipient marked_opened
mark_opened h user_id recipient_id rows = do
  recipient ← or_raise (own_recipient user_id recipient_id rows) not_found
  ok (marked_opened h.now recipient, update recipient_key recipient.id (marked_opened h.now) rows)

-- `fcm_token=token`
abbrev pub has_token : Text → Option Text → Bool
has_token token none = false
has_token token (some t) = text_eq t token

-- What a session is updated with when its token goes.
abbrev pub without_token : ℕ → UserSession → UserSession
without_token now s = record s { fcm_token = none; revoked_at = some now }

-- The token is held for another user.
abbrev pub is_held_by_other : ℕ → Text → UserSession → Bool
is_held_by_other user_id token s =
    alive s.deleted_at && (has_token token s.fcm_token && not (s.user_id == user_id))

-- The arguments of `register_device`, and FCM_DEVICE_TOKEN_TTL_DAYS.
pub record Device : Type 0 where
  pub fcm_token : Text
  pub device_name : Text
  pub user_agent : Text
  pub ttl_days : ℕ

unfoldable pub token_hash : Host → ℕ → Text → Text
token_hash h user_id token = h.sha256 (codes "fcm:" ++ h.show_key user_id ++ codes ":" ++ token)

-- The values of `defaults`.
unfoldable pub with_defaults : Host → ℕ → Device → UserSession → UserSession
with_defaults h user_id device s = record s {
  user_id = user_id;
  device_name =
      if is_nonempty device.device_name then device.device_name else codes "Thiết bị di động";
  user_agent = device.user_agent;
  fcm_token = some (strip device.fcm_token);
  expires_at = h.now + device.ttl_days * 86_400_000_000;
  revoked_at = none;
}

-- The row that `update_or_create` makes.
unfoldable pub new_session : Host → ℕ → Device → UserSession
unfolding with_defaults token_hash
new_session h user_id device = with_defaults h user_id device (record {
  id = h.new_id 0;
  deleted_at = none;
  user_id = user_id;
  refresh_token_hash = token_hash h user_id (strip device.fcm_token);
  device_name = device.device_name;
  user_agent = device.user_agent;
  fcm_token = none;
  expires_at = h.now;
  revoked_at = none;
})

-- A creation, under the unique key and hash, which dead rows hold too.
unfoldable pub insert_session : UserSession → List UserSession → Result (List UserSession)
insert_session new sessions =
    if exists (λ s. (s.id == new.id) || text_eq s.refresh_token_hash new.refresh_token_hash)
      sessions
    then err integrity_error
    else ok (append sessions new)

-- `update_or_create(refresh_token_hash=...)`, by the live row of the hash: its key, whether it is
-- new, and the table.
unfoldable pub upsert_session :
    Host → ℕ → Device → Option UserSession → List UserSession → Result (ℕ × Bool × List UserSession)
unfolding new_session insert_session with_defaults
upsert_session h user_id device (some s) sessions =
    ok (s.id, false, update session_key s.id (with_defaults h user_id device) sessions)
upsert_session h user_id device none sessions = do
  sessions' ← insert_session (new_session h user_id device) sessions
  ok (h.new_id 0, true, sessions')

unfoldable pub register_device :
    Host → ℕ → Device → List UserSession → Result (ℕ × Bool × List UserSession)
unfolding upsert_session token_hash
register_device h user_id device sessions =
    let token : Text = strip device.fcm_token in
    let rest : List UserSession =
      update_where (is_held_by_other user_id token) (without_token h.now) sessions in
    upsert_session h user_id device
      (first (λ s. alive s.deleted_at && text_eq s.refresh_token_hash (token_hash h user_id token))
        rest)
      rest

-- How many rows are updated, and the table.
unfoldable pub unregister_device : Host → ℕ → Text → List UserSession → ℕ × List UserSession
unregister_device h user_id fcm_token sessions =
    let p : UserSession → Bool = λ s.
      alive s.deleted_at && (s.user_id == user_id && has_token (strip fcm_token) s.fcm_token) in
    (count p sessions, update_where p (without_token h.now) sessions)
