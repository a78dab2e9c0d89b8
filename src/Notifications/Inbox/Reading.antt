-- ===== src/Notifications/Inbox/Reading.antt =====
-- The count of unread notifications.
use uevent_backend.Base.{
  ℕ, ◌+◌, ◌≡◌, refl, subst, Bool, true, not, ◌&&◌, some, List, arith, ◌==◌, weight, is_some, inl,
  inr, Bool-cases,
}
use uevent_backend.Common.Errors.{ok, or_raise, or_raise-eq-ok, >>=-eq-ok, ok-injective, not_found}
use uevent_backend.Common.Host.{Host}
use uevent_backend.Orm.Table.{alive, first, update}
use uevent_backend.Orm.Table.Laws.{IsKeyed, first-eq-some, find-first, count-update}
use uevent_backend.Notifications.Models.{NotificationRecipient}
use uevent_backend.Notifications.Inbox.{
  recipient_key, is_unread, unread_count, own_recipient, marked_read, mark_read, marked_opened,
  mark_opened,
}

abbrev is_own : ℕ → ℕ → NotificationRecipient → Bool
is_own user_id recipient_id r = alive r.deleted_at && (r.id == recipient_id && r.user_id == user_id)

-- The count after a row of the user has become one that is read.
unread_count-update :
    (f : NotificationRecipient → NotificationRecipient) (user_id recipient_id : ℕ)
    (rows : List NotificationRecipient) (r : NotificationRecipient)
    → IsKeyed recipient_key rows
    → first (is_own user_id recipient_id) rows ≡ some r
    → is_some (f r).read_at ≡ true
    → unread_count user_id (update recipient_key r.id f rows) + weight (not (is_some r.read_at))
      ≡ unread_count user_id rows
unfolding unread_count
unread_count-update f user_id recipient_id rows r keyed found read =
    let passes = first-eq-some (is_own user_id recipient_id) rows r found in
    let row = find-first recipient_key (is_own user_id recipient_id) rows r keyed found in
    ground (arith, count-update recipient_key f (is_unread user_id) r.id rows r row)

read_at-marked_read :
    (now : ℕ) (r : NotificationRecipient) → is_some (marked_read now r).read_at ≡ true
unfolding marked_read
read_at-marked_read now r = elim (Bool-cases (is_some r.read_at)) [
  | inl e ↦ rw e e
  | inr e ↦ rw e refl
]

read_at-marked_opened :
    (now : ℕ) (r : NotificationRecipient)
    → (is_some (marked_opened now r).read_at ≡ true)
      × (is_some (marked_opened now r).opened_at ≡ true)
unfolding marked_opened
read_at-marked_opened now r = elim (Bool-cases (is_some r.read_at)) [
  | inl e ↦ rw e (e, refl)
  | inr e ↦ rw e (refl, refl)
]

-- Reading a notification takes one from the count of its user if it was unread, and nothing if it
-- was not; the row that is returned is read.
pub unread_count-mark_read :
    (h : Host) (user_id recipient_id : ℕ) (rows rows' : List NotificationRecipient)
    (r : NotificationRecipient)
    → IsKeyed recipient_key rows
    → mark_read h user_id recipient_id rows ≡ ok (r, rows')
    → (before : NotificationRecipient) × (own_recipient user_id recipient_id rows ≡ some before)
      × (is_some r.read_at ≡ true)
      × (unread_count user_id rows' + weight (not (is_some before.read_at))
          ≡ unread_count user_id rows)
unfolding mark_read own_recipient
unread_count-mark_read h user_id recipient_id rows rows' r keyed done =
    let out : NotificationRecipient × List NotificationRecipient = (r, rows') in
    let (before, got, e₁) =
      >>=-eq-ok (or_raise (own_recipient user_id recipient_id rows) not_found)
        (λ b. ok (marked_read h.now b, update recipient_key b.id (marked_read h.now) rows)) out
        done in
    let found = or_raise-eq-ok (own_recipient user_id recipient_id rows) not_found before got in
    let mine : NotificationRecipient × List NotificationRecipient =
      (marked_read h.now before, update recipient_key before.id (marked_read h.now) rows) in
    let (read, counted) =
      subst
        (λ (d : NotificationRecipient × List NotificationRecipient).
          (is_some d.0.read_at ≡ true)
          × (unread_count user_id d.1 + weight (not (is_some before.read_at))
              ≡ unread_count user_id rows))
        (ok-injective mine out e₁)
        (
          read_at-marked_read h.now before,
          unread_count-update (marked_read h.now) user_id recipient_id rows before keyed found
              (read_at-marked_read h.now before),
        ) in
    (before, found, read, counted)

-- What has been opened is read, and the count goes down as it does for reading.
pub unread_count-mark_opened :
    (h : Host) (user_id recipient_id : ℕ) (rows rows' : List NotificationRecipient)
    (r : NotificationRecipient)
    → IsKeyed recipient_key rows
    → mark_opened h user_id recipient_id rows ≡ ok (r, rows')
    → (before : NotificationRecipient) × (own_recipient user_id recipient_id rows ≡ some before)
      × (is_some r.read_at ≡ true)
      × (is_some r.opened_at ≡ true)
      × (unread_count user_id rows' + weight (not (is_some before.read_at))
          ≡ unread_count user_id rows)
unfolding mark_opened own_recipient
unread_count-mark_opened h user_id recipient_id rows rows' r keyed done =
    let out : NotificationRecipient × List NotificationRecipient = (r, rows') in
    let (before, got, e₁) =
      >>=-eq-ok (or_raise (own_recipient user_id recipient_id rows) not_found)
        (λ b. ok (marked_opened h.now b, update recipient_key b.id (marked_opened h.now) rows)) out
        done in
    let found = or_raise-eq-ok (own_recipient user_id recipient_id rows) not_found before got in
    let mine : NotificationRecipient × List NotificationRecipient =
      (marked_opened h.now before, update recipient_key before.id (marked_opened h.now) rows) in
    let (read, opened, counted) =
      subst
        (λ (d : NotificationRecipient × List NotificationRecipient).
          (is_some d.0.read_at ≡ true)
          × (is_some d.0.opened_at ≡ true)
          × (unread_count user_id d.1 + weight (not (is_some before.read_at))
              ≡ unread_count user_id rows))
        (ok-injective mine out e₁)
        (
          (read_at-marked_opened h.now before).0,
          (read_at-marked_opened h.now before).1,
          unread_count-update (marked_opened h.now) user_id recipient_id rows before keyed found
              (read_at-marked_opened h.now before).0,
        ) in
    (before, found, read, opened, counted)
