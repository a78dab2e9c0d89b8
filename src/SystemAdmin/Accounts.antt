-- ===== src/SystemAdmin/Accounts.antt =====
-- AdminUserService (apps/system_admin/services/user_services.py): banning, deleting and restoring
-- users, and their roles. The user is read from all rows, dead ones included.
pub mod Roles
pub mod Syncing
use uevent_backend.Base.{
  ℕ, Bool, true, false, not, ◌&&◌, ◌||◌, Option, none, some, List, ◌==◌, is_some, if◌then◌else◌,
}
use uevent_backend.Base.Texts.{Text, text_eq}
use uevent_backend.Common.Errors.{
  Result, ok, err, ◌>>=◌, ◌>>◌, raise_if, or_raise, not_found, validation_error, integrity_error,
  own_account, staff_account, already_banned, not_banned, already_deleted, not_deleted,
  already_has_role, primary_role,
}
use uevent_backend.Common.Host.{Host}
use uevent_backend.Orm.Table.{alive, first, find, exists, append, update}
use uevent_backend.Users.{User, AccountStatus}
use uevent_backend.OrganizerRequests.Models.{Role, UserRole, user_role_key}
use uevent_backend.SystemAdmin.Audit.{AuditEntry, entry}

pub record Accounts : Type 0 where
  pub users : List User
  pub roles : List Role
  pub user_roles : List UserRole

abbrev pub user_key : User → ℕ
user_key u = u.id

abbrev pub is_banned : AccountStatus → Bool
is_banned AccountStatus.active = false
is_banned AccountStatus.pending = false
is_banned AccountStatus.banned = true

unfoldable pub get_user : ℕ → Accounts → Result User
get_user user_id accounts = or_raise (find user_key user_id accounts.users) not_found

abbrev pub with_account_status : AccountStatus → User → User
with_account_status status u = record u { account_status = status }

-- `user.save(update_fields=...)`
abbrev pub save_user : ℕ → (User → User) → Accounts → Accounts
save_user user_id f accounts = record accounts { users = update user_key user_id f accounts.users }

unfoldable pub ban_user : ℕ → ℕ → Accounts → Result (User × AuditEntry × Accounts)
unfolding get_user
ban_user actor user_id accounts = do
  user ← get_user user_id accounts
  raise_if (user.id == actor) (validation_error own_account)
  raise_if (user.is_staff || user.is_superuser) (validation_error staff_account)
  raise_if (is_banned user.account_status) (validation_error already_banned)
  ok (
    with_account_status AccountStatus.banned user,
    entry "ban_user" actor user_id,
    save_user user.id (with_account_status AccountStatus.banned) accounts,
  )

unfoldable pub unban_user : ℕ → ℕ → Accounts → Result (User × AuditEntry × Accounts)
unfolding get_user
unban_user actor user_id accounts = do
  user ← get_user user_id accounts
  raise_if (not (is_banned user.account_status)) (validation_error not_banned)
  ok (
    with_account_status AccountStatus.active user,
    entry "unban_user" actor user_id,
    save_user user.id (with_account_status AccountStatus.active) accounts,
  )

-- `user.delete()` and `user.restore()`
abbrev pub removed : ℕ → User → User
removed now u = record u { deleted_at = some now }

abbrev pub brought_back : User → User
brought_back u = record u { deleted_at = none }

unfoldable pub soft_delete_user : Host → ℕ → ℕ → Accounts → Result (User × AuditEntry × Accounts)
unfolding get_user
soft_delete_user h actor user_id accounts = do
  user ← get_user user_id accounts
  raise_if (user.id == actor) (validation_error own_account)
  raise_if (user.is_staff || user.is_superuser) (validation_error staff_account)
  raise_if (is_some user.deleted_at) (validation_error already_deleted)
  ok (
    removed h.now user,
    entry "soft_delete_user" actor user_id,
    save_user user.id (removed h.now) accounts,
  )

unfoldable pub restore_user : ℕ → ℕ → Accounts → Result (User × AuditEntry × Accounts)
unfolding get_user
restore_user actor user_id accounts = do
  user ← get_user user_id accounts
  raise_if (not (is_some user.deleted_at)) (validation_error not_deleted)
  ok (
    brought_back user,
    entry "restore_user" actor user_id,
    save_user user.id brought_back accounts,
  )

-- `Role.objects.get(code=role_code)`
unfoldable pub role_of_code : Text → List Role → Option Role
role_of_code code = first (λ r. alive r.deleted_at && text_eq r.code code)

-- `user=user, role=role` of a live row, and of any row
abbrev pub is_assignment : ℕ → ℕ → UserRole → Bool
is_assignment user_id role_id r = r.user_id == user_id && r.role_id == role_id

abbrev pub is_live_assignment : ℕ → ℕ → UserRole → Bool
is_live_assignment user_id role_id r = alive r.deleted_at && is_assignment user_id role_id r

-- `UserRole.objects.create`, under the unique key, the unique pair of user and role and the one
-- primary role of a user, which all count dead rows.
unfoldable pub insert_assignment : UserRole → List UserRole → Result (List UserRole)
insert_assignment new rows =
    if exists
      (λ r.
        (r.id == new.id)
        || (is_assignment new.user_id new.role_id r
            || (new.is_primary && (r.is_primary && r.user_id == new.user_id))))
      rows
    then err integrity_error
    else ok (append rows new)

-- The row of `assign_role`: primary if the user has no live role.
unfoldable pub assignment : Host → ℕ → User → Role → List UserRole → UserRole
assignment h actor user role rows = record {
  id = h.new_id 0;
  deleted_at = none;
  user_id = user.id;
  role_id = role.id;
  is_primary = not (exists (λ r. alive r.deleted_at && r.user_id == user.id) rows);
  assigned_at = h.now;
  assigned_by = some actor;
}

unfoldable pub assign_role : Host → ℕ → ℕ → Text → Accounts → Result (User × AuditEntry × Accounts)
unfolding get_user role_of_code insert_assignment assignment
assign_role h actor user_id role_code accounts = do
  user ← get_user user_id accounts
  role ← or_raise (role_of_code role_code accounts.roles) not_found
  raise_if (exists (is_live_assignment user.id role.id) accounts.user_roles)
      (validation_error already_has_role)
  user_roles ←
      insert_assignment (assignment h actor user role accounts.user_roles) accounts.user_roles
  ok (user, entry "assign_role" actor user_id, record accounts { user_roles = user_roles })

abbrev pub unassigned : ℕ → UserRole → UserRole
unassigned now r = record r { deleted_at = some now }

unfoldable pub remove_role : Host → ℕ → ℕ → Text → Accounts → Result (User × AuditEntry × Accounts)
unfolding get_user role_of_code
remove_role h actor user_id role_code accounts = do
  user ← get_user user_id accounts
  role ← or_raise (role_of_code role_code accounts.roles) not_found
  user_role ← or_raise (first (is_live_assignment user.id role.id) accounts.user_roles) not_found
  raise_if user_role.is_primary (validation_error primary_role)
  ok (
    user,
    entry "remove_role" actor user_id,
    record accounts {
      user_roles = update user_role_key user_role.id (unassigned h.now) accounts.user_roles;
    },
  )
