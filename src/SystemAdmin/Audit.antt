-- ===== src/SystemAdmin/Audit.antt =====
-- AdminAuditService.log_action (apps/system_admin/services/audit_service.py): what an administrator
-- did, to what.
pub mod Masking
use Prim.Native.String.{String}
use uevent_backend.Base.{ℕ, Option, some}
use uevent_backend.Base.Texts.{Text, codes}

-- One call of `log_action`, with the action, the actor and the target.
pub record AuditEntry : Type 0 where
  pub action : Text
  pub actor_id : ℕ
  pub target_id : Option ℕ

abbrev pub entry : String → ℕ → ℕ → AuditEntry
entry action actor target = record {
  action = codes action;
  actor_id = actor;
  target_id = some target;
}
