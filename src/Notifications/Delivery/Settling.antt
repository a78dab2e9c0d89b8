-- ===== src/Notifications/Delivery/Settling.antt =====
-- What a delivery settles, and what it leaves waiting.
use uevent_backend.Base.{
  ℕ, ◌-◌, ◌≡◌, refl, sym, ◌∙◌, Bool, false, not, subst, ◌==◌, ◌&&◌, ◌||◌, List, [], ◌∷◌, arith, inl,
  inr, Bool-cases,
}
use uevent_backend.Common.Errors.{
  ok, or_raise, or_raise-eq-ok, >>=-eq-ok, ok-injective, does_not_exist,
}
use uevent_backend.Common.Host.{Host}
use uevent_backend.Orm.Table.{alive, first, count, update_where}
use uevent_backend.Orm.Table.Laws.{IsKeyed, first-eq-some}
use uevent_backend.Users.{UserSession}
use uevent_backend.Notifications.Models.{Notification, NotificationRecipient}
use uevent_backend.Notifications.Inbox.{recipient_key}
use uevent_backend.Notifications.Delivery.{
  FcmClient, FcmSendResult, Fate, batch, waits, token_recipient_pairs, failed_without_token,
  ids_with, member, minus, is_in, marked_sent, marked_failed, marked_without_token, send_all,
  persist_recipients, deliver_batch, deliver_notification, Delivered,
}
use uevent_backend.Notifications.Delivery.Batches.{
  ids_of, member-minus, member-ids_with, member-ids_of, waits_outside, count-batch,
}

-- A row that a write settles is no longer counted.
count-settled :
    (p q : NotificationRecipient → Bool) (f : NotificationRecipient → NotificationRecipient)
    (rows : List NotificationRecipient)
    → ((r : NotificationRecipient) → p (f r) ≡ false)
    → count p (update_where q f rows) ≡ count (λ r. p r && not (q r)) rows
unfolding count update_where
count-settled p q f [] settles = refl
count-settled p q f (r ∷ rows) settles = elim (Bool-cases (q r)) [
  | inl e ↦ ground (arith, settles r, count-settled p q f rows settles)
  | inr e ↦ ground (arith, count-settled p q f rows settles)
]

count-same :
    (p q : NotificationRecipient → Bool) (rows : List NotificationRecipient)
    → ((r : NotificationRecipient) → p r ≡ q r)
    → count p rows ≡ count q rows
unfolding count
count-same p q [] same = refl
count-same p q (r ∷ rows) same = ground (arith, same r, count-same p q rows same)

-- Without a key to retry, a key is settled exactly if it is of the batch.
settled_ids :
    (i now : ℕ) (sessions : List UserSession) (rows : List NotificationRecipient)
    (results : List FcmSendResult) (retried : List ℕ)
    → retried
      ≡ minus
          (ids_with Fate.retryable results (token_recipient_pairs now sessions rows))
          (ids_with Fate.sent results (token_recipient_pairs now sessions rows))
    → retried ≡ []
    → (member i (failed_without_token now sessions rows)
        || (member i (ids_with Fate.sent results (token_recipient_pairs now sessions rows))
            || member i (
                minus
                  (minus
                    (ids_with Fate.failed results (token_recipient_pairs now sessions rows))
                    (ids_with Fate.sent results (token_recipient_pairs now sessions rows)))
                  retried)))
      ≡ member i (ids_of rows)
unfolding member
settled_ids i now sessions rows results retried made none_left =
    let pairs = token_recipient_pairs now sessions rows in
    let sent = ids_with Fate.sent results pairs in
    let retry = ids_with Fate.retryable results pairs in
    let failed = ids_with Fate.failed results pairs in
    let no_retry : member i (minus retry sent) ≡ false = rw (sym made, none_left) refl in
    let no_more : member i retried ≡ false = rw none_left refl in
    ground (
      arith,
      member-ids_of i now sessions rows,
      member-ids_with i results pairs,
      member-minus i retry sent,
      member-minus i (minus failed sent) retried,
      member-minus i failed sent,
    )

-- Three writes that settle rows, and the rows that wait after them.
count-persisted :
    (n now : ℕ) (untold sent failed : List ℕ) (rows : List NotificationRecipient)
    → count
        (waits n)
        (persist_recipients now sent failed (update_where (is_in untold) marked_without_token rows))
      ≡ count
          (λ r. ((waits n r && not (is_in failed r)) && not (is_in sent r)) && not (is_in untold r))
          rows
unfolding persist_recipients
count-persisted n now untold sent failed rows =
    let first_write : List NotificationRecipient =
      update_where (is_in untold) marked_without_token rows in
    count-settled (waits n) (is_in failed) marked_failed
      (update_where (is_in sent) (marked_sent now) first_write) (λ r. ground arith)
    ∙ count-settled (λ r. waits n r && not (is_in failed r)) (is_in sent) (marked_sent now)
        first_write (λ r. ground arith)
    ∙ count-settled (λ r. (waits n r && not (is_in failed r)) && not (is_in sent r)) (is_in untold)
        marked_without_token rows (λ r. ground arith)

outside_batch :
    (n : ℕ) (untold sent failed ids : List ℕ) (r : NotificationRecipient)
    → (member r.id untold || (member r.id sent || member r.id failed)) ≡ member r.id ids
    → (((waits n r && not (is_in failed r)) && not (is_in sent r)) && not (is_in untold r))
      ≡ waits_outside n ids r
outside_batch n untold sent failed ids r all = ground arith

-- Where no recipient is to be tried again, those that still wait are those that waited, less the
-- batch.
deliver_batch-settles :
    (h : Host) (send : FcmClient) (batch_size notification_id : ℕ)
    (recipients : List NotificationRecipient) (sessions : List UserSession)
    → IsKeyed recipient_key recipients
    → (deliver_batch h send batch_size notification_id recipients sessions).retryable_ids ≡ []
    → count
        (waits notification_id)
        (deliver_batch h send batch_size notification_id recipients sessions).recipients
      ≡ count (waits notification_id) recipients - batch_size
unfolding deliver_batch
deliver_batch-settles h send batch_size notification_id recipients sessions keyed settled =
    let rows : List NotificationRecipient = batch batch_size notification_id recipients in
    let pairs = token_recipient_pairs h.now sessions rows in
    let results : List FcmSendResult = send_all send pairs in
    let untold : List ℕ = failed_without_token h.now sessions rows in
    let sent : List ℕ = ids_with Fate.sent results pairs in
    let retried : List ℕ = minus (ids_with Fate.retryable results pairs) sent in
    let failed : List ℕ = minus (minus (ids_with Fate.failed results pairs) sent) retried in
    count-persisted notification_id h.now untold sent failed recipients
    ∙ count-same
        (λ r.
          ((waits notification_id r && not (is_in failed r)) && not (is_in sent r))
          && not (is_in untold r))
        (waits_outside notification_id (ids_of rows)) recipients
        (λ r.
          outside_batch notification_id untold sent failed (ids_of rows) r
            (settled_ids r.id h.now sessions rows results retried refl settled))
    ∙ count-batch batch_size notification_id recipients keyed

-- A delivery that raises nothing settles its batch: with unique keys, the recipients of the
-- notification that still wait are those that waited, less the size of a batch. So none waits if
-- they were no more than that, and the others still wait.
pub deliver_notification-settles :
    (h : Host) (send : FcmClient) (batch_size notification_id : ℕ)
    (notifications : List Notification) (recipients : List NotificationRecipient)
    (sessions : List UserSession) (done : Delivered)
    → IsKeyed recipient_key recipients
    → deliver_notification h send batch_size notification_id notifications recipients sessions
      ≡ ok done
    → done.retryable_ids ≡ []
    → count (waits notification_id) done.recipients
      ≡ count (waits notification_id) recipients - batch_size
unfolding deliver_notification
deliver_notification-settles h send batch_size notification_id notifications recipients sessions
      done keyed delivered settled =
    let p : Notification → Bool = λ n. alive n.deleted_at && n.id == notification_id in
    let (notification, found, e) =
      >>=-eq-ok (or_raise (first p notifications) does_not_exist) _ done delivered in
    let passes =
      first-eq-some p notifications notification
        (or_raise-eq-ok _ does_not_exist notification found) in
    let same : notification.id ≡ notification_id = ground (arith, passes) in
    let out : deliver_batch h send batch_size notification_id recipients sessions ≡ done =
      subst (λ (i : ℕ). deliver_batch h send batch_size i recipients sessions ≡ done) same
        (ok-injective _ done e) in
    subst
      (λ (d : Delivered).
        d.retryable_ids ≡ []
        → count (waits notification_id) d.recipients
          ≡ count (waits notification_id) recipients - batch_size)
      out (deliver_batch-settles h send batch_size notification_id recipients sessions keyed)
      settled
