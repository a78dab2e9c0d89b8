-- ===== src/Notifications/Dispatch/Recipients.antt =====
-- Who gets a notification, and whose is queued for a push.
use uevent_backend.Base.{
  ℕ, ◌+◌, ◌≤◌, ◌≡◌, refl, subst, Bool, true, false, ◌&&◌, none, some, ◌<◌, List, [], ◌∷◌, ◌++◌,
  ◌==◌, if◌then◌else◌, arith, weight, length, Bool-cases, inl, inr,
}
use mathlib.Core.List.{map}
use uevent_backend.Common.Errors.{ok, ◌>>=◌, >>=-eq-ok, ok-injective}
use uevent_backend.Common.Host.{Host}
use uevent_backend.Orm.Table.{alive, first, exists, count}
use uevent_backend.Notifications.Models.{
  NotificationRecipient, NotificationPreference, Mailbox, Task, DeliveryStatus, FailureReason,
}
use uevent_backend.Notifications.Preference.{allows_push, get_for_user}
use uevent_backend.Notifications.Dispatch.{
  without, unique_recipients, Dispatch, recipient_row, wants_push, build_recipients,
  create_and_dispatch, bulk_create,
}
use uevent_backend.Notifications.Delivery.{is_queued}

count-without :
    (u v : ℕ) (users : List ℕ)
    → count (λ w. w == u) (without v users) ≡ (if u == v then 0 else count (λ w. w == u) users)
unfolding count without
count-without u v [] = ground arith
count-without u v (w ∷ users) = ground (arith, count-without u v users)

-- Every recipient is notified, and no one twice: among the unique recipients a user occurs once if
-- the user is a recipient at all, and otherwise not.
pub count-unique_recipients :
    (u : ℕ) (users : List ℕ)
    → count (λ v. v == u) (unique_recipients users) ≡ weight (exists (λ v. v == u) users)
unfolding count unique_recipients exists first
count-unique_recipients u [] = refl
count-unique_recipients u (v ∷ users) =
    ground (arith, count-unique_recipients u users, count-without u v (unique_recipients users))

get_for_user-eq :
    (u : ℕ) (preferences : List NotificationPreference) (p : NotificationPreference)
    → first (λ q. alive q.deleted_at && q.user_id == u) preferences ≡ some p
    → get_for_user u preferences ≡ ok (p, preferences)
unfolding get_for_user
get_for_user-eq u preferences p has = rw (get_for_user, has) refl

counted-next : (b : Bool) (n : ℕ) → (if b then n + 1 else n) ≡ weight b + n
counted-next b n = ground arith

counted-bound : (b : Bool) (n m : ℕ) → n ≤ m → (if b then n + 1 else n) ≤ m + 1
counted-bound b n m l = ground arith

wants_push-eq :
    (h : Host) (d : Dispatch) (u : ℕ) (preferences : List NotificationPreference)
    (p : NotificationPreference)
    → first (λ q. alive q.deleted_at && q.user_id == u) preferences ≡ some p
    → wants_push h d u preferences
      ≡ ok (d.send_push && allows_push h p d.category h.now, preferences)
unfolding wants_push ◌>>=◌
wants_push-eq h d u preferences p has = elim (Bool-cases d.send_push) [
  | inl e ↦ rw (e, get_for_user-eq u preferences p has) refl
  | inr e ↦ rw e refl
]

exists-here : (u : ℕ) (users : List ℕ) → exists (λ v. v == u) (u ∷ users) ≡ true
unfolding exists first
exists-here u users = ground arith

exists-there :
    (u v : ℕ) (users : List ℕ)
    → exists (λ w. w == v) users ≡ true
    → exists (λ w. w == v) (u ∷ users) ≡ true
unfolding exists first
exists-there u v users h = ground arith

-- The row of a user: queued and not delivered, or delivered at once, with push_disabled as the
-- reason where a push was wanted.
abbrev pub expected_row : Host → Dispatch → ℕ → Bool → NotificationRecipient
expected_row h d u true = record {
  id = h.new_id u;
  deleted_at = none;
  notification_id = d.id;
  user_id = u;
  delivery_status = DeliveryStatus.queued;
  delivered_at = none;
  read_at = none;
  opened_at = none;
  failure_reason = FailureReason.no_failure;
}
expected_row h d u false = record {
  id = h.new_id u;
  deleted_at = none;
  notification_id = d.id;
  user_id = u;
  delivery_status = DeliveryStatus.sent;
  delivered_at = some h.now;
  read_at = none;
  opened_at = none;
  failure_reason = if d.send_push then FailureReason.push_disabled else FailureReason.no_failure;
}

recipient_row-eq :
    (h : Host) (d : Dispatch) (u : ℕ) (allows : Bool)
    → recipient_row h d u allows ≡ expected_row h d u allows
unfolding recipient_row
recipient_row-eq h d u true = elim (Bool-cases d.send_push) [
  | inl e ↦ rw e refl
  | inr e ↦ rw e refl
]
recipient_row-eq h d u false = elim (Bool-cases d.send_push) [
  | inl e ↦ rw e refl
  | inr e ↦ rw e refl
]

-- Where every user has a live preference, the loop writes a row for each user in their order: queued
-- and not delivered exactly if a push is wanted and the preference allows it now, and else sent at
-- once; the queued ones are counted, and the preferences stay as they are.
pub build_recipients-eq :
    (h : Host) (d : Dispatch) (users : List ℕ) (preferences : List NotificationPreference)
    (preference : ℕ → NotificationPreference)
    → ((u : ℕ)
        → exists (λ v. v == u) users ≡ true
        → first (λ p. alive p.deleted_at && p.user_id == u) preferences ≡ some (preference u))
    → build_recipients h d users preferences
      ≡ ok (
        map
            (λ u. expected_row h d u (d.send_push && allows_push h (preference u) d.category h.now))
            users,
        count (λ u. d.send_push && allows_push h (preference u) d.category h.now) users,
        preferences,
      )
unfolding build_recipients count ◌>>=◌
build_recipients-eq h d [] preferences preference has = refl
build_recipients-eq h d (u ∷ users) preferences preference has =
    rw
      (
        wants_push-eq h d u preferences (preference u) (has u (exists-here u users)),
        build_recipients-eq h d users preferences preference
            (λ v e. has v (exists-there u v users e)),
        recipient_row-eq h d u (d.send_push && allows_push h (preference u) d.category h.now),
      )
      (rw
        (counted-next (d.send_push && allows_push h (preference u) d.category h.now)
          (count (λ v. d.send_push && allows_push h (preference v) d.category h.now) users))
        refl)

-- The row is to be pushed.
abbrev pub is_queued_row : NotificationRecipient → Bool
is_queued_row r = is_queued r.delivery_status

queued-recipient_row :
    (h : Host) (d : Dispatch) (u : ℕ) (allows : Bool)
    → (is_queued_row (recipient_row h d u allows) ≡ allows)
      × ((recipient_row h d u allows).user_id ≡ u)
unfolding recipient_row
queued-recipient_row h d u true = (refl, refl)
queued-recipient_row h d u false = (refl, refl)

-- What the loop makes: a row for each user, and the number of queued ones.
abbrev IsMade : List ℕ → List NotificationRecipient × ℕ × List NotificationPreference → Type 0
IsMade users done =
    (map (λ (r : NotificationRecipient). r.user_id) done.0 ≡ users)
    × (length done.0 ≡ length users)
    × (done.1 ≡ count is_queued_row done.0)

build_recipients-IsMade :
    (h : Host) (d : Dispatch) (users : List ℕ) (preferences : List NotificationPreference)
    (done : List NotificationRecipient × ℕ × List NotificationPreference)
    → build_recipients h d users preferences ≡ ok done
    → IsMade users done
unfolding build_recipients count
build_recipients-IsMade h d [] preferences done e =
    subst (IsMade []) (ok-injective _ done e) (refl, refl, refl)
build_recipients-IsMade h d (u ∷ users) preferences done e =
    let ((allows, preferences'), _, e₁) = >>=-eq-ok _ _ done e in
    let (rest, made, e₂) = >>=-eq-ok _ _ done e₁ in
    let (same, long, counted) = build_recipients-IsMade h d users preferences' rest made in
    let (queues, own) = queued-recipient_row h d u allows in
    subst (IsMade (u ∷ users)) (ok-injective _ done e₂) (
      rw (same, own) refl,
      omega (arith, long),
      rw (counted-next allows rest.1, counted, queues) refl,
    )

-- A dispatch that raises nothing writes its recipients from rows that hold each of its users once,
-- and reports how many these are and how many of them are queued; it leaves one task to deliver the
-- notification after the commit if one is queued, and else none.
pub create_and_dispatch-counts :
    (h : Host) (d : Dispatch) (m m' : Mailbox) (total queued : ℕ)
    → create_and_dispatch h d m ≡ ok (m', total, queued)
    → (rows : List NotificationRecipient) × (m'.recipients ≡ bulk_create m.recipients rows)
      × (map (λ (r : NotificationRecipient). r.user_id) rows ≡ unique_recipients d.recipients)
      × (total ≡ length rows)
      × (queued ≡ count is_queued_row rows)
      × ((queued ≡ 0) → m'.on_commit ≡ m.on_commit)
      × ((0 < queued) → m'.on_commit ≡ m.on_commit ++ Task.deliver_notification d.id ∷ [])
unfolding create_and_dispatch
create_and_dispatch-counts h d m m' total queued e =
    let (made, builds, e₁) = >>=-eq-ok _ _ (m', total, queued) e in
    let (users, _, counted) =
      build_recipients-IsMade h d (unique_recipients d.recipients) m.preferences made builds in
    let out = ok-injective _ (m', total, queued) e₁ in
    subst
      (λ (x : Mailbox × ℕ × ℕ).
        (rows : List NotificationRecipient) × (x.0.recipients ≡ bulk_create m.recipients rows)
        × (map (λ (r : NotificationRecipient). r.user_id) rows ≡ unique_recipients d.recipients)
        × (x.1 ≡ length rows)
        × (x.2 ≡ count is_queued_row rows)
        × ((x.2 ≡ 0) → x.0.on_commit ≡ m.on_commit)
        × ((0 < x.2) → x.0.on_commit ≡ m.on_commit ++ Task.deliver_notification d.id ∷ []))
      out (made.0, refl, users, refl, counted, (λ z. ground arith), (λ z. ground arith))
