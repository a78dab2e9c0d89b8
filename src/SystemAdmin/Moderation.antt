-- ===== src/SystemAdmin/Moderation.antt =====
-- AdminEventService.update_event_status and delete_event
-- (apps/system_admin/services/event_services.py), with the rows of apps/moderation.
pub mod Verdicts
use uevent_backend.Base.{ℕ, Bool, Option, none, some, List, [], ◌∷◌, ◌++◌}
use uevent_backend.Base.Texts.{Text, codes}
use uevent_backend.Common.Errors.{
  Result, ok, ◌>>=◌, ◌>>◌, or_raise, not_found, validation_error, does_not_exist, invalid_status,
}
use uevent_backend.Common.Host.{Host}
use uevent_backend.Orm.Table.{append, update}
use uevent_backend.Registrations.State.{Db, event_key, live_event}
use uevent_backend.Events.Models.{Event, EventStatus}
use uevent_backend.Events.Editing.{deleted}
use uevent_backend.SystemAdmin.Audit.{AuditEntry, entry}

pub data Action : Type 0 where
  approve reject request_revision lock delete reopen escalate : Action

pub record ModerationLog : Type 0 where
  pub id : ℕ
  pub event_id : ℕ
  pub admin_user_id : ℕ
  pub action : Action
  pub reason : Text

-- The tables, and the log of moderation.
pub record Moderated : Type 0 where
  pub db : Db
  pub moderation_logs : List ModerationLog

-- `STATUS_ACTION_MAP.get(status)`
unfoldable pub status_action : EventStatus → Option Action
status_action EventStatus.approved = some Action.approve
status_action EventStatus.rejected = some Action.reject
status_action EventStatus.cancelled = some Action.lock
status_action EventStatus.archived = some Action.lock
status_action EventStatus.active = some Action.reopen
status_action EventStatus.draft = none
status_action EventStatus.pending = none
status_action EventStatus.finished = none

-- `f"{action}_event"`
unfoldable pub action_text : Action → Text
action_text Action.approve = codes "approve_event"
action_text Action.reject = codes "reject_event"
action_text Action.request_revision = codes "request_revision_event"
action_text Action.lock = codes "lock_event"
action_text Action.delete = codes "delete_event"
action_text Action.reopen = codes "reopen_event"
action_text Action.escalate = codes "escalate_event"

abbrev pub with_status : EventStatus → Event → Event
with_status status e = record e { status = status }

abbrev pub log_of : Host → ℕ → ℕ → Action → Text → ModerationLog
log_of h actor event_id action reason = record {
  id = h.new_id 0;
  event_id = event_id;
  admin_user_id = actor;
  action = action;
  reason = reason;
}

unfoldable pub update_event_status :
    Host → ℕ → ℕ → EventStatus → Text → Moderated → Result (Event × AuditEntry × Moderated)
unfolding status_action action_text live_event
update_event_status h actor event_id status reason m = do
  event ← or_raise (live_event event_id m.db.events) not_found
  action ← or_raise (status_action status) (validation_error invalid_status)
  let events : List Event = update event_key event.id (with_status status) m.db.events
  saved ← or_raise (live_event event_id events) not_found
  ok (
    saved,
    record { action = action_text action; actor_id = actor; target_id = some event.id },
    record {
      db = record m.db { events = events };
      moderation_logs = append m.moderation_logs (log_of h actor event.id action reason);
    },
  )

unfoldable pub delete_event : Host → ℕ → ℕ → Text → Moderated → Result (AuditEntry × Moderated)
unfolding live_event
delete_event h actor event_id reason m = do
  event ← or_raise (live_event event_id m.db.events) not_found
  ok (
    entry "delete_event" actor event.id,
    record {
      db = record m.db { events = update event_key event.id (deleted h.now) m.db.events };
      moderation_logs = append m.moderation_logs (log_of h actor event.id Action.delete reason);
    },
  )
