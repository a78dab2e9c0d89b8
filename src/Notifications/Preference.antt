-- ===== src/Notifications/Preference.antt =====
-- NotificationPreference.allows_push (apps/notifications/models/notification_preference.py) and
-- NotificationPreferenceService (apps/notifications/services/preference_service.py).
pub mod QuietHours
use uevent_backend.Base.{
  ℕ, ◌%◌, Bool, true, false, not, ◌&&◌, ◌||◌, Option, none, some, List, ltb, leb, ◌==◌,
  if◌then◌else◌,
}
use uevent_backend.Base.Texts.{Text, codes, is_nonempty}
use uevent_backend.Common.Errors.{Result, ok, err, integrity_error}
use uevent_backend.Common.Host.{Host}
use uevent_backend.Orm.Table.{alive, first, exists, append}
use uevent_backend.Notifications.Models.{NotificationCategory, NotificationPreference}

abbrev pub utc : Text
utc = codes "UTC"

unfoldable pub is_in_quiet_hours : ℕ → ℕ → ℕ → Bool
is_in_quiet_hours start end current =
    if start == end
    then true
    else if ltb start end
    then leb start current && ltb current end
    else leb start current || ltb current end

-- `_local_time`: the zone `self.timezone or "UTC"`, and UTC where that is not found.
unfoldable pub local_time : Host → Text → ℕ → ℕ
local_time h zone now = elim (h.wall_clock (if is_nonempty zone then zone else utc) now) [
  | some time ↦ time
  | none ↦ now % 86_400_000_000
]

unfoldable pub category_allowed : NotificationPreference → NotificationCategory → Bool
category_allowed p NotificationCategory.event = p.event_reminders_enabled
category_allowed p NotificationCategory.ticket = p.ticket_updates_enabled
category_allowed p NotificationCategory.organizer = p.organizer_updates_enabled
category_allowed p NotificationCategory.marketing = p.marketing_enabled
category_allowed p NotificationCategory.system = true

abbrev is_awake : Host → NotificationPreference → ℕ → Option ℕ → Option ℕ → Bool
is_awake h p now (some start) (some end) =
    not (is_in_quiet_hours start end (local_time h p.timezone now))
is_awake h p now _ _ = true

-- `NotificationPreference.allows_push`
unfoldable pub allows_push : Host → NotificationPreference → NotificationCategory → ℕ → Bool
unfolding category_allowed is_in_quiet_hours local_time
allows_push h p category now =
    if not p.push_enabled
    then false
    else if not (category_allowed p category)
    then false
    else if not p.quiet_hours_enabled
    then true
    else is_awake h p now p.quiet_hours_start p.quiet_hours_end

-- The defaults of the model.
abbrev pub default_preference : ℕ → NotificationPreference
default_preference user_id = record {
  user_id = user_id;
  deleted_at = none;
  push_enabled = true;
  event_reminders_enabled = true;
  ticket_updates_enabled = true;
  organizer_updates_enabled = true;
  marketing_enabled = false;
  quiet_hours_enabled = false;
  quiet_hours_start = none;
  quiet_hours_end = none;
  timezone = codes "Asia/Bangkok";
}

-- `get_for_user`: `get_or_create(user=user)` among the live rows. A dead row of the user still
-- holds the unique key, so that the INSERT fails.
unfoldable pub get_for_user :
    ℕ → List NotificationPreference → Result (NotificationPreference × List NotificationPreference)
get_for_user user_id rows = elim (first (λ p. alive p.deleted_at && p.user_id == user_id) rows) [
  | some p ↦ ok (p, rows)
  | none ↦
      if exists (λ p. p.user_id == user_id) rows
      then err integrity_error
      else ok (default_preference user_id, append rows (default_preference user_id))
]
