-- ===== src/SystemAdmin/Accounts/Roles.antt =====
-- Taking a role away, and giving it back.
use uevent_backend.Base.{
  ℕ, ◌≡◌, refl, ap, subst, Bool, true, false, ◌&&◌, ◌||◌, some, List, arith, ◌==◌, inl, inr,
  Option-cases, Bool-cases,
}
use uevent_backend.Base.Texts.{Text}
use uevent_backend.Common.Errors.{
  ok, err, ◌>>=◌, raise_if, or_raise, or_raise-eq-ok, >>=-eq-ok, ok-injective, not_found,
  validation_error, integrity_error, primary_role,
}
use uevent_backend.Common.Host.{Host}
use uevent_backend.Orm.Table.{first, find, exists, update}
use uevent_backend.Orm.Table.Laws.{
  IsKeyed, first-eq-some, find-first, find-update_self, find-update-inv, IsKeyed-update,
  exists-of_find, exists-stronger,
}
use uevent_backend.Users.{User}
use uevent_backend.OrganizerRequests.Models.{Role, UserRole, user_role_key}
use uevent_backend.SystemAdmin.Audit.{AuditEntry, entry}
use uevent_backend.SystemAdmin.Accounts.{
  Accounts, get_user, role_of_code, is_assignment, is_live_assignment, assignment,
  insert_assignment, assign_role, unassigned, remove_role,
}

-- The tables after a role has been removed.
abbrev stripped : Host → UserRole → Accounts → Accounts
stripped h r accounts = record accounts {
  user_roles = update user_role_key r.id (unassigned h.now) accounts.user_roles;
}

remove_role-eq-ok :
    (h : Host) (actor user_id : ℕ) (code : Text) (accounts : Accounts) (u : User) (e : AuditEntry)
    (accounts' : Accounts)
    → remove_role h actor user_id code accounts ≡ ok (u, e, accounts')
    → (user : User) × (role : Role) × (r : UserRole) × (get_user user_id accounts ≡ ok user)
      × (role_of_code code accounts.roles ≡ some role)
      × (first (is_live_assignment user.id role.id) accounts.user_roles ≡ some r)
      × (stripped h r accounts ≡ accounts')
unfolding remove_role
remove_role-eq-ok h actor user_id code accounts u e accounts' done =
    let out : User × AuditEntry × Accounts = (u, e, accounts') in
    let (user, got, e₁) = >>=-eq-ok (get_user user_id accounts) _ out done in
    let (role, known, e₂) =
      >>=-eq-ok (or_raise (role_of_code code accounts.roles) not_found) _ out e₁ in
    let (r, found, e₃) =
      >>=-eq-ok
        (or_raise (first (is_live_assignment user.id role.id) accounts.user_roles) not_found) _ out
        e₂ in
    let (_, _, e₄) = >>=-eq-ok (raise_if r.is_primary (validation_error primary_role)) _ out e₃ in
    let mine : User × AuditEntry × Accounts =
      (user, entry "remove_role" actor user_id, stripped h r accounts) in
    (
      user,
      role,
      r,
      got,
      or_raise-eq-ok _ not_found role known,
      or_raise-eq-ok _ not_found r found,
      ap (λ (d : User × AuditEntry × Accounts). d.2) (ok-injective mine out e₄),
    )

-- The test that an insertion makes of the rows.
abbrev clashes : UserRole → UserRole → Bool
clashes new r =
    (r.id == new.id)
    || (is_assignment new.user_id new.role_id r
        || (new.is_primary && (r.is_primary && r.user_id == new.user_id)))

-- A row of the pair, dead or not, blocks a new one.
insert_assignment-blocked :
    (new : UserRole) (rows : List UserRole)
    → exists (is_assignment new.user_id new.role_id) rows ≡ true
    → insert_assignment new rows ≡ err integrity_error
unfolding insert_assignment
insert_assignment-blocked new rows held = elim (Bool-cases (exists (clashes new) rows)) [
  | inl e ↦ rw e refl
  | inr e ↦ absurd (
      ground (
        arith,
        exists-stronger (is_assignment new.user_id new.role_id) (clashes new) rows
            (λ r. ground arith) e,
      ))
]

-- `uq_user_roles_user_role`: no two rows, dead or not, are of one user and role.
abbrev pub IsSingle : List UserRole → Type 0
IsSingle rows =
    (i j : ℕ) (a b : UserRole)
    → find user_role_key i rows ≡ some a
    → find user_role_key j rows ≡ some b
    → a.user_id ≡ b.user_id
    → a.role_id ≡ b.role_id
    → i ≡ j

-- No live row of the pair is left once the one there was is dead.
none_live :
    (now user_id role_id : ℕ) (rows : List UserRole) (r : UserRole)
    → IsKeyed user_role_key rows
    → IsSingle rows
    → first (is_live_assignment user_id role_id) rows ≡ some r
    → exists (is_live_assignment user_id role_id) (update user_role_key r.id (unassigned now) rows)
      ≡ false
unfolding exists
none_live now user_id role_id rows r keyed single found =
    let p : UserRole → Bool = is_live_assignment user_id role_id in
    let after : List UserRole = update user_role_key r.id (unassigned now) rows in
    let row = find-first user_role_key p rows r keyed found in
    let passes = first-eq-some p rows r found in
    elim (Option-cases (first p after)) [
      | inl n ↦ rw n refl
      | inr (s, there) ↦
          let live = first-eq-some p after s there in
          let at =
            find-first user_role_key p after s
              (IsKeyed-update user_role_key (unassigned now) (λ c. refl) r.id rows keyed) there in
          elim (find-update-inv user_role_key (unassigned now) (λ c. refl) r.id s.id rows s at) [
            | inl (b, same, old, e) ↦ absurd (ground (arith, e))
            | inr (ne, old) ↦
                absurd (ne (single r.id s.id r s row old (ground arith) (ground arith)))
          ]
    ]

-- A role that has been taken from a user cannot be given back: under the unique keys and pairs of
-- user and role, which dead rows hold too, assigning the role after removing it breaks the
-- constraint.
pub assign_role-remove_role :
    (h later : Host) (actor other user_id : ℕ) (code : Text) (accounts : Accounts) (u : User)
    (e : AuditEntry) (accounts' : Accounts)
    → IsKeyed user_role_key accounts.user_roles
    → IsSingle accounts.user_roles
    → remove_role h actor user_id code accounts ≡ ok (u, e, accounts')
    → assign_role later other user_id code accounts' ≡ err integrity_error
unfolding assign_role get_user ◌>>=◌
assign_role-remove_role h later actor other user_id code accounts u e accounts' keyed single done =
    let (user, role, r, got, known, found, same) =
      remove_role-eq-ok h actor user_id code accounts u e accounts' done in
    let p : UserRole → Bool = is_live_assignment user.id role.id in
    let passes = first-eq-some p accounts.user_roles r found in
    let row = find-first user_role_key p accounts.user_roles r keyed found in
    let held : exists (is_assignment user.id role.id) (stripped h r accounts).user_roles ≡ true =
      exists-of_find user_role_key (is_assignment user.id role.id) r.id
        (stripped h r accounts).user_roles (unassigned h.now r)
        (find-update_self user_role_key (unassigned h.now) (λ c. refl) r.id accounts.user_roles r
          row)
        (ground arith) in
    subst (λ (d : Accounts). assign_role later other user_id code d ≡ err integrity_error) same
      (rw
        (
          got,
          known,
          none_live h.now user.id role.id accounts.user_roles r keyed single found,
          insert_assignment-blocked
              (assignment later other user role (stripped h r accounts).user_roles)
              (stripped h r accounts).user_roles held,
        )
        refl)
