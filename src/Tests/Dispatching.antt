-- ===== src/Tests/Dispatching.antt =====
-- Notifications: quiet hours, and a dispatch to three recipients of whom one comes twice.
use uevent_backend.Base.{
  ℕ, ◌+◌, ◌-◌, ◌%◌, ◌<◌, ◌≡◌, ◌↔◌, ◌⊎◌, refl, List, true, ◌==◌, ◌&&◌, none, some, [], ◌∷◌, ◌++◌,
  arith, length,
}
use mathlib.Core.List.{map}
use uevent_backend.Common.Errors.{ok, ◌>>=◌}
use uevent_backend.Orm.Table.{first, exists, count, append}
use uevent_backend.Notifications.Models.{
  NotificationType, NotificationCategory, NotificationTarget, Mailbox, Task, NotificationRecipient,
}
use uevent_backend.Notifications.Preference.{
  is_in_quiet_hours, allows_push, get_for_user, default_preference,
}
use uevent_backend.Notifications.Preference.QuietHours.{is_in_quiet_hours-arc}
use uevent_backend.Notifications.Dispatch.{
  without, unique_recipients, Dispatch, bulk_create, wants_push, build_recipients,
  create_and_dispatch,
}
use uevent_backend.Notifications.Dispatch.Recipients.{
  expected_row, is_queued_row, build_recipients-eq, create_and_dispatch-counts,
}
use uevent_backend.Tests.Data.{host, mailbox}
use uevent_backend.Tests.Registering.{value_of}

-- Eleven at night, between ten in the evening and seven in the morning, in hours.
is_in_quiet_hours-arc_example :
    (is_in_quiet_hours 22 7 23 ≡ true)
    ↔ ((◌≡◌ {A = ℕ} 22 7) ⊎ ((23 + 24 - 22) % 24 < (7 + 24 - 22) % 24))
is_in_quiet_hours-arc_example =
    is_in_quiet_hours-arc 24 22 7 23 (omega arith) (omega arith) (omega arith)

abbrev pub announcement : Dispatch
announcement = record {
  id = 7;
  event_id = 10;
  created_by_id = some 2;
  type = NotificationType.organizer_announcement;
  category = NotificationCategory.event;
  target = NotificationTarget.event_user;
  recipients = 1 ∷ 2 ∷ 1 ∷ [];
  metadata = record { event_id = 10; registration_id = none; ticket_id = none };
  send_push = true;
}

known : (u : ℕ) → exists (λ v. v == u) (1 ∷ []) ≡ true → u ≡ 1
unfolding exists first
known u h = ground arith

build_recipients-eq_example :
    build_recipients host announcement (1 ∷ []) (default_preference 1 ∷ [])
    ≡ ok (
      map
          (λ u. expected_row host announcement u (
            true && allows_push host (default_preference u) NotificationCategory.event 150_000_000))
          (1 ∷ []),
      count
          (λ u.
            true && allows_push host (default_preference u) NotificationCategory.event 150_000_000)
          (1 ∷ []),
      default_preference 1 ∷ [],
    )
unfolding exists first
build_recipients-eq_example =
    build_recipients-eq host announcement (1 ∷ []) (default_preference 1 ∷ []) default_preference
      (λ u h. ground (arith, known u h))

abbrev sent : Mailbox × ℕ × ℕ
sent = value_of (mailbox, 0, 0) (create_and_dispatch host announcement mailbox)

create_and_dispatch-counts_example :
    (rows : List NotificationRecipient) × (sent.0.recipients ≡ bulk_create [] rows)
    × (map (λ (r : NotificationRecipient). r.user_id) rows ≡ unique_recipients (1 ∷ 2 ∷ 1 ∷ []))
    × (sent.1 ≡ length rows)
    × (sent.2 ≡ count is_queued_row rows)
    × ((sent.2 ≡ 0) → sent.0.on_commit ≡ [])
    × ((0 < sent.2) → sent.0.on_commit ≡ [] ++ Task.deliver_notification 7 ∷ [])
unfolding create_and_dispatch unique_recipients without build_recipients wants_push get_for_user
    first exists append ◌>>=◌
create_and_dispatch-counts_example =
    create_and_dispatch-counts host announcement mailbox sent.0 sent.1 sent.2 refl
