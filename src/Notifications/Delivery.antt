-- ===== src/Notifications/Delivery.antt =====
-- PushDeliveryService.deliver_notification (apps/notifications/services/push_delivery_service.py): one
-- batch of the recipients of a notification that wait for a push. The FCM client is a parameter.
pub mod Batches
pub mod Settling
use uevent_backend.Base.{
  ℕ, zero, suc, ◌+◌, Bool, true, false, not, ◌&&◌, ◌||◌, Option, none, some, List, [], ◌∷◌, ◌++◌,
  ◌==◌, ltb, is_some, if◌then◌else◌,
}
use uevent_backend.Base.Texts.{Text, text_eq, is_nonempty}
use uevent_backend.Common.Errors.{Result, ok, ◌>>=◌, or_raise, does_not_exist}
use uevent_backend.Common.Host.{Host}
use uevent_backend.Orm.Table.{alive, first, select, update_where}
use uevent_backend.Users.{UserSession}
use uevent_backend.Notifications.Models.{
  Notification, NotificationRecipient, DeliveryStatus, FailureReason,
}

-- apps/notifications/services/fcm_client.py: what the client says of one message.
pub record FcmSendResult : Type 0 where
  pub token : Text
  pub success : Bool
  pub invalid_token : Bool
  pub retryable : Bool

-- The messages, each for a token of a recipient, into the results.
abbrev pub FcmClient : Type 0
FcmClient = List (Text × ℕ) → List FcmSendResult

abbrev pub is_queued : DeliveryStatus → Bool
is_queued DeliveryStatus.queued = true
is_queued DeliveryStatus.sent = false
is_queued DeliveryStatus.failed = false
is_queued DeliveryStatus.read = false

-- `notification=notification, delivery_status=QUEUED`
abbrev pub waits : ℕ → NotificationRecipient → Bool
waits notification_id r =
    alive r.deleted_at && (r.notification_id == notification_id && is_queued r.delivery_status)

-- `rows[:n]`
unfoldable pub take : ℕ → List NotificationRecipient → List NotificationRecipient
take zero rows = []
take (suc n) [] = []
take (suc n) (r ∷ rows) = r ∷ take n rows

-- Rows are in the order of their creation.
unfoldable pub batch : ℕ → ℕ → List NotificationRecipient → List NotificationRecipient
unfolding take
batch batch_size notification_id rows = take batch_size (select (waits notification_id) rows)

-- `fcm_token__isnull=False`, not "", not revoked and not expired
abbrev pub usable_token : ℕ → UserSession → Option Text
usable_token now s =
    if alive s.deleted_at && (not (is_some s.revoked_at) && ltb now s.expires_at)
    then elim s.fcm_token [ none ↦ none | some t ↦ if is_nonempty t then some t else none ]
    else none

-- `tokens_by_user[user_id]`
unfoldable pub tokens_of : ℕ → ℕ → List UserSession → List Text
tokens_of now user_id [] = []
tokens_of now user_id (s ∷ sessions) =
    let rest = tokens_of now user_id sessions in
    elim (if s.user_id == user_id then usable_token now s else none) [
      | none ↦ rest
      | some t ↦ t ∷ rest
    ]

-- `((token, recipient) for token in tokens)`, with the recipient's key
unfoldable pub paired_with : ℕ → List Text → List (Text × ℕ)
paired_with i [] = []
paired_with i (t ∷ tokens) = (t, i) ∷ paired_with i tokens

-- `token_recipient_pairs` and the keys of `failed_without_token`
unfoldable pub token_recipient_pairs :
    ℕ → List UserSession → List NotificationRecipient → List (Text × ℕ)
unfolding tokens_of paired_with
token_recipient_pairs now sessions [] = []
token_recipient_pairs now sessions (r ∷ rows) =
    paired_with r.id (tokens_of now r.user_id sessions) ++ token_recipient_pairs now sessions rows

unfoldable pub failed_without_token : ℕ → List UserSession → List NotificationRecipient → List ℕ
unfolding tokens_of
failed_without_token now sessions [] = []
failed_without_token now sessions (r ∷ rows) =
    let rest = failed_without_token now sessions rows in
    elim (tokens_of now r.user_id sessions) [ [] ↦ r.id ∷ rest | _ ∷ _ ↦ rest ]

-- `result_by_token.get(token)`: the last result of the token
unfoldable pub result_by_token : Text → List FcmSendResult → Option FcmSendResult
result_by_token token [] = none
result_by_token token (r ∷ results) = elim (result_by_token token results) [
  | some later ↦ some later
  | none ↦ if text_eq r.token token then some r else none
]

pub data Fate : Type 0 where
  sent retryable failed : Fate

-- The branches of the loop over the pairs.
unfoldable pub fate : Option FcmSendResult → Fate
fate none = Fate.failed
fate (some r) = if r.success then Fate.sent else if r.retryable then Fate.retryable else Fate.failed

abbrev pub is_fate : Fate → Fate → Bool
is_fate Fate.sent Fate.sent = true
is_fate Fate.retryable Fate.retryable = true
is_fate Fate.failed Fate.failed = true
is_fate _ _ = false

-- The keys of the recipients that a pair gives this fate.
unfoldable pub ids_with : Fate → List FcmSendResult → List (Text × ℕ) → List ℕ
unfolding fate result_by_token
ids_with f results [] = []
ids_with f results ((token, i) ∷ pairs) =
    let rest = ids_with f results pairs in
    if is_fate f (fate (result_by_token token results)) then i ∷ rest else rest

-- `i in ids`, and `ids - others`
unfoldable pub member : ℕ → List ℕ → Bool
member i [] = false
member i (j ∷ ids) = (j == i) || member i ids

unfoldable pub minus : List ℕ → List ℕ → List ℕ
unfolding member
minus [] others = []
minus (i ∷ ids) others = let rest = minus ids others in if member i others then rest else i ∷ rest

-- The tokens that FCM no longer knows.
unfoldable pub invalid_tokens : List FcmSendResult → List (Text × ℕ) → List Text
unfolding result_by_token
invalid_tokens results [] = []
invalid_tokens results ((token, i) ∷ pairs) =
    let rest = invalid_tokens results pairs in
    elim (result_by_token token results) [
      | none ↦ rest
      | some r ↦
          if not r.success && (not r.retryable && r.invalid_token) then token ∷ rest else rest
    ]

abbrev pub marked_sent : ℕ → NotificationRecipient → NotificationRecipient
marked_sent now r = record r { delivery_status = DeliveryStatus.sent; delivered_at = some now }

abbrev pub marked_failed : NotificationRecipient → NotificationRecipient
marked_failed r = record r {
  delivery_status = DeliveryStatus.failed;
  failure_reason = FailureReason.delivery_failed;
}

abbrev pub marked_without_token : NotificationRecipient → NotificationRecipient
marked_without_token r = record r {
  delivery_status = DeliveryStatus.failed;
  delivered_at = none;
  failure_reason = FailureReason.no_active_token;
}

-- `id__in=ids` of a live row
abbrev pub is_in : List ℕ → NotificationRecipient → Bool
is_in ids r = alive r.deleted_at && member r.id ids

-- `fcm_token__in=tokens`
unfoldable pub holds_one_of : List Text → UserSession → Bool
holds_one_of [] s = false
holds_one_of (t ∷ tokens) s =
    elim s.fcm_token [ none ↦ false | some u ↦ text_eq u t ] || holds_one_of tokens s

abbrev pub revoked : ℕ → UserSession → UserSession
revoked now s = record s { fcm_token = none; revoked_at = some now }

-- `_persist_delivery_results`
unfoldable pub persist_recipients :
    ℕ → List ℕ → List ℕ → List NotificationRecipient → List NotificationRecipient
unfolding member
persist_recipients now sent_ids failed_ids rows =
    update_where (is_in failed_ids) marked_failed
      (update_where (is_in sent_ids) (marked_sent now) rows)

-- `_send`: without a pair there is no message.
unfoldable pub send_all : FcmClient → List (Text × ℕ) → List FcmSendResult
send_all send [] = []
send_all send (p ∷ pairs) = send (p ∷ pairs)

-- What a delivery leaves: the tables, and the recipients that RetryableFcmDeliveryError is raised
-- for, if any.
pub record Delivered : Type 0 where
  pub recipients : List NotificationRecipient
  pub sessions : List UserSession
  pub retryable_ids : List ℕ

-- What follows once the notification is there. Without a recipient that waits nothing is written.
unfoldable pub deliver_batch :
    Host → FcmClient → ℕ → ℕ → List NotificationRecipient → List UserSession → Delivered
unfolding batch token_recipient_pairs failed_without_token ids_with minus invalid_tokens
    holds_one_of persist_recipients send_all
deliver_batch h send batch_size notification_id recipients sessions =
    let rows = batch batch_size notification_id recipients in
    let pairs = token_recipient_pairs h.now sessions rows in
    let results = send_all send pairs in
    let sent_ids = ids_with Fate.sent results pairs in
    let retry_ids = minus (ids_with Fate.retryable results pairs) sent_ids in
    let failed_ids = minus (minus (ids_with Fate.failed results pairs) sent_ids) retry_ids in
    record {
      recipients = persist_recipients h.now sent_ids failed_ids (
          update_where (is_in (failed_without_token h.now sessions rows)) marked_without_token
            recipients);
      sessions =
          update_where (λ s. alive s.deleted_at && holds_one_of (invalid_tokens results pairs) s)
            (revoked h.now) sessions;
      retryable_ids = retry_ids;
    }

unfoldable pub deliver_notification :
    Host
    → FcmClient
    → ℕ
    → ℕ
    → List Notification
    → List NotificationRecipient
    → List UserSession
    → Result Delivered
unfolding deliver_batch
deliver_notification h send batch_size notification_id notifications recipients sessions = do
  notification ←
      or_raise (first (λ n. alive n.deleted_at && n.id == notification_id) notifications)
        does_not_exist
  ok (deliver_batch h send batch_size notification.id recipients sessions)
