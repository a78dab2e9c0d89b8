-- ===== src/Tests/Accounting.antt =====
-- An administrator who takes a role from a user and gives it back.
use uevent_backend.Base.{◌≡◌, List, refl, true, false, none, [], ◌∷◌, arith}
use uevent_backend.Base.Texts.{codes, text_eq}
use uevent_backend.Common.Errors.{ok, err, not_found, ◌>>=◌, integrity_error}
use uevent_backend.Orm.Table.{first, find, update, select, exists}
use uevent_backend.Users.{User}
use uevent_backend.OrganizerRequests.Models.{Role, UserRole}
use uevent_backend.SystemAdmin.Audit.{AuditEntry}
use uevent_backend.SystemAdmin.Accounts.{Accounts, get_user, role_of_code, assign_role, remove_role}
use uevent_backend.SystemAdmin.Accounts.Syncing.{
  sync_user_roles, dedupe, is_code_of, code_of_row, is_row_for, is_row_among, all_known, rows_of,
  target_primary, save_row, create_row, sync_codes,
}
use uevent_backend.SystemAdmin.Accounts.Syncing.Strays.{is_stray, sync_user_roles-strays}
use uevent_backend.SystemAdmin.Accounts.Roles.{IsSingle, assign_role-remove_role}
use uevent_backend.Tests.Data.{host, ann}
use uevent_backend.Tests.Organizers.{organizer, student}
use uevent_backend.Tests.Registering.{value_of}

-- The second role of the user.
abbrev second : UserRole
second = record student { id = 61; role_id = 50; is_primary = false }

abbrev accounts : Accounts
accounts = record { users = ann ∷ []; roles = organizer ∷ []; user_roles = second ∷ [] }

accounts-IsSingle : IsSingle accounts.user_roles
unfolding find
accounts-IsSingle i j a b found other same_user same_role = ground arith

abbrev taken : User × AuditEntry × Accounts
taken =
    value_of (ann, record { action = []; actor_id = 0; target_id = none }, accounts)
      (remove_role host 2 1 (codes "organizer") accounts)

assign_role-remove_role_example :
    assign_role host 2 1 (codes "organizer") taken.2 ≡ err integrity_error
unfolding remove_role get_user role_of_code first find update text_eq ◌>>=◌
assign_role-remove_role_example =
    assign_role-remove_role host host 2 2 1 (codes "organizer") accounts taken.0 taken.1 taken.2
      (refl, tt) accounts-IsSingle refl

-- Setting the roles of the user revives the row that was taken.
revives :
    sync_user_roles host 2 1
      (codes "organizer" ∷ codes "organizer" ∷ [])
      (organizer ∷ [])
      taken.2.user_roles
    ≡ ok (record second { is_primary = true } ∷ [])
unfolding remove_role get_user role_of_code first find update text_eq ◌>>=◌ sync_user_roles dedupe
    is_code_of code_of_row is_row_for is_row_among all_known rows_of target_primary save_row
    create_row sync_codes select exists
revives = refl

unknown_role :
    sync_user_roles host 2 1 (codes "dean" ∷ []) (organizer ∷ []) (student ∷ []) ≡ err not_found
unfolding sync_user_roles dedupe is_code_of all_known role_of_code first text_eq ◌>>=◌
unknown_role = refl

abbrev learner : Role
learner = record organizer { id = 51; code = codes "student" }

abbrev synced_rows : List UserRole
synced_rows =
    value_of []
      (sync_user_roles host 2 1 (codes "organizer" ∷ []) (organizer ∷ learner ∷ []) (student ∷ []))

-- The student becomes an organizer, and nothing else.
sync_user_roles-strays_example :
    exists (is_stray 1 (organizer ∷ learner ∷ []) (codes "organizer" ∷ [])) synced_rows ≡ false
unfolding role_of_code first find text_eq ◌>>=◌ sync_user_roles dedupe is_code_of code_of_row
    is_row_for is_row_among all_known rows_of target_primary save_row create_row sync_codes select
    exists
sync_user_roles-strays_example =
    sync_user_roles-strays host 2 1 (codes "organizer" ∷ []) (organizer ∷ learner ∷ [])
      (student ∷ []) synced_rows (refl, (refl, tt)) refl
