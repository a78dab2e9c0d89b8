-- ===== src/Notifications/Delivery/Batches.antt =====
-- The keys of a batch: each of its recipients ends up in one of the sets of keys.
use uevent_backend.Base.{
  ℕ, zero, suc, ◌+◌, ◌-◌, ◌≡◌, refl, Bool, true, false, not, ◌&&◌, ◌||◌, none, List, [], ◌∷◌, ◌++◌,
  arith, ◌==◌, ==_refl, weight, if◌then◌else◌, inl, inr, Bool-cases,
}
use uevent_backend.Base.Texts.{Text}
use uevent_backend.Orm.Table.{count, select, find}
use uevent_backend.Orm.Table.Laws.{IsKeyed}
use uevent_backend.Users.{UserSession}
use uevent_backend.Notifications.Models.{NotificationRecipient}
use uevent_backend.Notifications.Inbox.{recipient_key}
use uevent_backend.Notifications.Delivery.{
  take, batch, waits, tokens_of, paired_with, token_recipient_pairs, failed_without_token, Fate,
  FcmSendResult, fate, is_fate, ids_with, member, minus, result_by_token,
}

-- The keys of rows, and those of pairs.
abbrev pub ids_of : List NotificationRecipient → List ℕ
ids_of [] = []
ids_of (r ∷ rows) = r.id ∷ ids_of rows

abbrev pub ids_of_pairs : List (Text × ℕ) → List ℕ
ids_of_pairs [] = []
ids_of_pairs ((token, i) ∷ pairs) = i ∷ ids_of_pairs pairs

pub member-minus :
    (i : ℕ) (ids others : List ℕ)
    → member i (minus ids others) ≡ (member i ids && not (member i others))
unfolding member minus
member-minus i [] others = refl
member-minus i (j ∷ ids) others = elim (Bool-cases (member j others)) [
  | inl e ↦ ground (arith, member-minus i ids others)
  | inr e ↦ ground (arith, member-minus i ids others)
]

-- One more key, put to the keys of its fate.
abbrev with_fate : Fate → Fate → ℕ → List ℕ → List ℕ
with_fate f g i ids = if is_fate f g then i ∷ ids else ids

by_fate :
    (i j : ℕ) (f : Fate) (sent retry failed ids : List ℕ)
    → (member i sent || (member i retry || member i failed)) ≡ member i ids
    → (member i (with_fate Fate.sent f j sent)
        || (member i (with_fate Fate.retryable f j retry)
            || member i (with_fate Fate.failed f j failed)))
      ≡ member i (j ∷ ids)
unfolding member
by_fate i j Fate.sent sent retry failed ids h = ground arith
by_fate i j Fate.retryable sent retry failed ids h = ground arith
by_fate i j Fate.failed sent retry failed ids h = ground arith

-- Every pair has one of the three fates.
pub member-ids_with :
    (i : ℕ) (results : List FcmSendResult) (pairs : List (Text × ℕ))
    → (member i (ids_with Fate.sent results pairs)
        || (member i (ids_with Fate.retryable results pairs)
            || member i (ids_with Fate.failed results pairs)))
      ≡ member i (ids_of_pairs pairs)
unfolding member ids_with
member-ids_with i results [] = refl
member-ids_with i results ((token, j) ∷ pairs) =
    by_fate i j (fate (result_by_token token results)) (ids_with Fate.sent results pairs)
      (ids_with Fate.retryable results pairs) (ids_with Fate.failed results pairs)
      (ids_of_pairs pairs) (member-ids_with i results pairs)

member-++ :
    (i : ℕ) (pairs more : List (Text × ℕ))
    → member i (ids_of_pairs (pairs ++ more))
      ≡ (member i (ids_of_pairs pairs) || member i (ids_of_pairs more))
unfolding member
member-++ i [] more = refl
member-++ i ((t, j) ∷ pairs) more = ground (arith, member-++ i pairs more)

member-paired_with :
    (i j : ℕ) (t : Text) (tokens : List Text)
    → member i (ids_of_pairs (paired_with j (t ∷ tokens))) ≡ (j == i)
unfolding member paired_with
member-paired_with i j t [] = ground arith
member-paired_with i j t (u ∷ tokens) = ground (arith, member-paired_with i j u tokens)

-- The keys without a token, and a recipient that has these.
abbrev unless_any : List Text → ℕ → List ℕ → List ℕ
unless_any tokens j ids = elim tokens [ [] ↦ j ∷ ids | _ ∷ _ ↦ ids ]

by_tokens :
    (i j : ℕ) (tokens : List Text) (ids : List ℕ) (pairs : List (Text × ℕ)) (all : List ℕ)
    → (member i ids || member i (ids_of_pairs pairs)) ≡ member i all
    → (member i (unless_any tokens j ids)
        || member i (ids_of_pairs (paired_with j tokens ++ pairs)))
      ≡ member i (j ∷ all)
unfolding member paired_with
by_tokens i j [] ids pairs all h = ground arith
by_tokens i j (t ∷ tokens) ids pairs all h =
    ground (arith, member-++ i (paired_with j (t ∷ tokens)) pairs, member-paired_with i j t tokens)

-- A recipient has a pair or no token.
pub member-ids_of :
    (i now : ℕ) (sessions : List UserSession) (rows : List NotificationRecipient)
    → (member i (failed_without_token now sessions rows)
        || member i (ids_of_pairs (token_recipient_pairs now sessions rows)))
      ≡ member i (ids_of rows)
unfolding member failed_without_token token_recipient_pairs
member-ids_of i now sessions [] = refl
member-ids_of i now sessions (r ∷ rows) =
    by_tokens i r.id (tokens_of now r.user_id sessions) (failed_without_token now sessions rows)
      (token_recipient_pairs now sessions rows) (ids_of rows) (member-ids_of i now sessions rows)

-- A row of the table that waits and has none of the keys.
abbrev pub waits_outside : ℕ → List ℕ → NotificationRecipient → Bool
waits_outside n ids r = waits n r && not (member r.id ids)

count-outside_none :
    (n : ℕ) (rows : List NotificationRecipient)
    → count (waits_outside n []) rows ≡ count (waits n) rows
unfolding count member
count-outside_none n [] = refl
count-outside_none n (r ∷ rows) = ground (arith, count-outside_none n rows)

-- A key that no row has does not matter.
count-outside_free :
    (n j : ℕ) (ids : List ℕ) (rows : List NotificationRecipient)
    → find recipient_key j rows ≡ none
    → count (waits_outside n (j ∷ ids)) rows ≡ count (waits_outside n ids) rows
unfolding count member find
count-outside_free n j ids [] free = refl
count-outside_free n j ids (r ∷ rows) free = ground (arith, count-outside_free n j ids rows)

batch-in :
    (k n : ℕ) (r : NotificationRecipient) (rows : List NotificationRecipient)
    → waits n r ≡ true
    → batch (suc k) n (r ∷ rows) ≡ r ∷ batch k n rows
unfolding batch take select
batch-in k n r rows e = rw e refl

batch-out :
    (k n : ℕ) (r : NotificationRecipient) (rows : List NotificationRecipient)
    → waits n r ≡ false
    → batch k n (r ∷ rows) ≡ batch k n rows
unfolding batch select
batch-out k n r rows e = rw e refl

batch-zero : (n : ℕ) (rows : List NotificationRecipient) → batch 0 n rows ≡ []
unfolding batch take
batch-zero n rows = refl

count-outside_cons :
    (n : ℕ) (ids : List ℕ) (r : NotificationRecipient) (rows : List NotificationRecipient)
    → count (waits_outside n ids) (r ∷ rows)
      ≡ weight (waits_outside n ids r) + count (waits_outside n ids) rows
unfolding count
count-outside_cons n ids r rows = refl

count-waits_cons :
    (n : ℕ) (r : NotificationRecipient) (rows : List NotificationRecipient)
    → count (waits n) (r ∷ rows) ≡ weight (waits n r) + count (waits n) rows
unfolding count
count-waits_cons n r rows = refl

member_self : (i : ℕ) (ids : List ℕ) → member i (i ∷ ids) ≡ true
unfolding member
member_self i ids = ground (arith, ==_refl i)

count-batch_nil :
    (k n : ℕ) → count (waits_outside n (ids_of (batch k n []))) [] ≡ count (waits n) [] - k
unfolding count
count-batch_nil k n = omega arith

-- How many of the rows that wait are not in the batch.
pub count-batch :
    (batch_size notification_id : ℕ) (rows : List NotificationRecipient)
    → IsKeyed recipient_key rows
    → count (waits_outside notification_id (ids_of (batch batch_size notification_id rows))) rows
      ≡ count (waits notification_id) rows - batch_size
count-batch k n [] keyed = count-batch_nil k n
count-batch zero n (r ∷ rows) keyed =
    rw (batch-zero n (r ∷ rows)) (omega (arith, count-outside_none n (r ∷ rows)))
count-batch (suc k) n (r ∷ rows) keyed = elim (Bool-cases (waits n r)) [
  | inl e ↦
      let ids : List ℕ = ids_of (batch k n rows) in
      rw (batch-in k n r rows e) (
        ground (
          arith,
          e,
          count-outside_cons n (r.id ∷ ids) r rows,
          count-waits_cons n r rows,
          member_self r.id ids,
          count-outside_free n r.id ids rows keyed.0,
          count-batch k n rows keyed.1,
        ))
  | inr e ↦ rw (batch-out (suc k) n r rows e) (
      ground (
        arith,
        e,
        count-outside_cons n (ids_of (batch (suc k) n rows)) r rows,
        count-waits_cons n r rows,
        count-batch (suc k) n rows keyed.1,
      ))
]
