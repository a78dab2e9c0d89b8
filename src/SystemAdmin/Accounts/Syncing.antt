-- ===== src/SystemAdmin/Accounts/Syncing.antt =====
-- AdminUserService._sync_user_roles (apps/system_admin/services/user_services.py): the roles of a
-- user are made those of a list of codes. Rows that leave are deleted for good.
pub mod Strays
use uevent_backend.Base.{
  ℕ, ◌+◌, Bool, true, false, not, ◌&&◌, ◌||◌, Option, none, some, List, [], ◌∷◌, ◌==◌, is_some,
  if◌then◌else◌,
}
use uevent_backend.Base.Texts.{Text, text_eq}
use uevent_backend.Common.Errors.{
  Result, ok, err, ◌>>=◌, ◌>>◌, raise_if, or_raise, not_found, integrity_error,
}
use uevent_backend.Common.Host.{Host}
use uevent_backend.Orm.Table.{alive, first, find, select, exists, update}
use uevent_backend.OrganizerRequests.Models.{Role, UserRole, user_role_key}
use uevent_backend.SystemAdmin.Accounts.{role_of_code, insert_assignment}

abbrev pub role_key : Role → ℕ
role_key r = r.id

-- `code in codes`
unfoldable pub is_code_of : List Text → Text → Bool
is_code_of [] code = false
is_code_of (c ∷ rest) code = text_eq c code || is_code_of rest code

-- `list(dict.fromkeys(role_codes))`, after those that were seen
unfoldable pub dedupe : List Text → List Text → List Text
unfolding is_code_of
dedupe seen [] = []
dedupe seen (c ∷ rest) =
    let others = dedupe (c ∷ seen) rest in if is_code_of seen c then others else c ∷ others

-- `ur.role.code`, of a role that is dead or not
unfoldable pub code_of_row : List Role → UserRole → Option Text
code_of_row roles r = elim (find role_key r.role_id roles) [
  | none ↦ none
  | some role ↦ some role.code
]

unfoldable pub is_row_for : List Role → Text → UserRole → Bool
unfolding code_of_row
is_row_for roles code r = elim (code_of_row roles r) [ none ↦ false | some c ↦ text_eq c code ]

unfoldable pub is_row_among : List Role → List Text → UserRole → Bool
unfolding code_of_row is_code_of
is_row_among roles codes r = elim (code_of_row roles r) [
  | none ↦ false
  | some c ↦ is_code_of codes c
]

unfoldable pub all_known : List Role → List Text → Bool
unfolding role_of_code
all_known roles [] = true
all_known roles (c ∷ rest) = is_some (role_of_code c roles) && all_known roles rest

-- `existing_rows`
unfoldable pub rows_of : ℕ → List UserRole → List UserRole
rows_of user_id = select (λ r. r.user_id == user_id)

abbrev head_code : List Text → Option Text
head_code [] = none
head_code (c ∷ _) = some c

unfoldable pub target_primary : List Role → List Text → List UserRole → Option Text
unfolding code_of_row is_code_of
target_primary roles codes existing =
    elim (first (λ r. r.is_primary && alive r.deleted_at) existing) [
      | none ↦ head_code codes
      | some r ↦ elim (code_of_row roles r) [
        | none ↦ head_code codes
        | some c ↦ if is_code_of codes c then some c else head_code codes
      ]
    ]

abbrev is_target : Option Text → Text → Bool
is_target none code = false
is_target (some c) code = text_eq c code

abbrev pub synced : Bool → UserRole → UserRole
synced primary r = record r { deleted_at = none; is_primary = primary }

-- A second primary role of the user breaks the constraint.
unfoldable pub save_row : ℕ → Bool → UserRole → List UserRole → Result (List UserRole)
save_row user_id primary ur rows =
    if alive ur.deleted_at && (if primary then ur.is_primary else not ur.is_primary)
    then ok rows
    else if primary
        && exists (λ r. not (r.id == ur.id) && (r.is_primary && r.user_id == user_id)) rows
    then err integrity_error
    else ok (update user_role_key ur.id (synced primary) rows)

unfoldable pub create_row : Host → ℕ → ℕ → ℕ → Bool → Role → List UserRole → Result (List UserRole)
unfolding insert_assignment
create_row h k actor user_id primary role rows =
    insert_assignment
      (record {
        id = h.new_id k;
        deleted_at = none;
        user_id = user_id;
        role_id = role.id;
        is_primary = primary;
        assigned_at = h.now;
        assigned_by = some actor;
      })
      rows

-- The loop over the codes; `k` counts the rows made so far.
unfoldable pub sync_codes :
    Host
    → ℕ
    → ℕ
    → ℕ
    → List Role
    → Option Text
    → List UserRole
    → List Text
    → List UserRole
    → Result (List UserRole)
unfolding is_row_for save_row create_row role_of_code
sync_codes h k actor user_id roles target existing [] rows = ok rows
sync_codes h k actor user_id roles target existing (code ∷ rest) rows = do
  saved ← elim (first (is_row_for roles code) existing) [
    | some ur ↦ save_row user_id (is_target target code) ur rows
    | none ↦ do
      role ← or_raise (role_of_code code roles) not_found
      create_row h k actor user_id (is_target target code) role rows
  ]
  sync_codes h (k + 1) actor user_id roles target existing rest saved

unfoldable pub sync_user_roles :
    Host → ℕ → ℕ → List Text → List Role → List UserRole → Result (List UserRole)
unfolding dedupe all_known rows_of target_primary is_row_among sync_codes
sync_user_roles h actor user_id role_codes roles rows =
    let codes : List Text = dedupe [] role_codes in
    let existing : List UserRole = rows_of user_id rows in
    do
      raise_if (not (all_known roles codes)) not_found
      sync_codes h 0 actor user_id roles (target_primary roles codes existing) existing codes
          (select (λ r. not (r.user_id == user_id) || is_row_among roles codes r) rows)
