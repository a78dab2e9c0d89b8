-- ===== src/SystemAdmin/Accounts/Syncing/Strays.antt =====
-- Setting the roles of a user leaves the user no row of another role.
use uevent_backend.Base.{
  ℕ, ◌+◌, ◌≡◌, refl, ◌∙◌, subst, Bool, true, false, not, ◌&&◌, ◌||◌, Option, none, some, List, [],
  ◌∷◌, arith, ◌==◌, inl, inr, Option-cases, Bool-cases,
}
use uevent_backend.Base.Texts.{Text, text_eq, text_eq_iff, text_eq_refl}
use uevent_backend.Common.Errors.{ok, or_raise-eq-ok, >>=-eq-ok, ok-injective, not_found}
use uevent_backend.Common.Host.{Host}
use uevent_backend.Orm.Table.{alive, first, find, select, exists, append, update}
use uevent_backend.Orm.Table.Laws.{IsKeyed, first-eq-some, find-first, exists-stronger}
use uevent_backend.OrganizerRequests.Models.{Role, UserRole, user_role_key}
use uevent_backend.SystemAdmin.Accounts.{role_of_code, insert_assignment}
use uevent_backend.SystemAdmin.Accounts.Syncing.{
  role_key, is_code_of, dedupe, code_of_row, is_row_for, is_row_among, rows_of, is_target, synced,
  save_row, create_row, sync_codes, sync_user_roles,
}

-- A row of the user, dead or not, whose role is not among the codes.
abbrev pub is_stray : ℕ → List Role → List Text → UserRole → Bool
is_stray user_id roles codes r = r.user_id == user_id && not (is_row_among roles codes r)

exists-select :
    (user_id : ℕ) (roles : List Role) (codes : List Text) (rows : List UserRole)
    → exists
        (is_stray user_id roles codes)
        (select (λ r. not (r.user_id == user_id) || is_row_among roles codes r) rows)
      ≡ false
unfolding exists first select
exists-select user_id roles codes [] = refl
exists-select user_id roles codes (r ∷ rows) =
    ground (arith, exists-select user_id roles codes rows)

exists-synced :
    (user_id : ℕ) (roles : List Role) (codes : List Text) (i : ℕ) (primary : Bool)
    (rows : List UserRole)
    → exists (is_stray user_id roles codes) (update user_role_key i (synced primary) rows)
      ≡ exists (is_stray user_id roles codes) rows
unfolding exists first update is_row_among code_of_row
exists-synced user_id roles codes i primary [] = refl
exists-synced user_id roles codes i primary (r ∷ rows) =
    ground (arith, exists-synced user_id roles codes i primary rows)

exists-appended :
    (p : UserRole → Bool) (new : UserRole) (rows : List UserRole)
    → exists p rows ≡ false
    → p new ≡ false
    → exists p (append rows new) ≡ false
unfolding exists first append
exists-appended p new [] none_before n = ground arith
exists-appended p new (r ∷ rows) none_before n = ground (arith, exists-appended p new rows)

save_row-strays :
    (user_id : ℕ) (roles : List Role) (codes : List Text) (primary : Bool) (ur : UserRole)
    (rows rows' : List UserRole)
    → exists (is_stray user_id roles codes) rows ≡ false
    → save_row user_id primary ur rows ≡ ok rows'
    → exists (is_stray user_id roles codes) rows' ≡ false
unfolding save_row
save_row-strays user_id roles codes primary ur rows rows' h done =
    ground (arith, exists-synced user_id roles codes ur.id primary rows)

insert_assignment-strays :
    (user_id : ℕ) (roles : List Role) (codes : List Text) (new : UserRole)
    (rows rows' : List UserRole)
    → exists (is_stray user_id roles codes) rows ≡ false
    → is_row_among roles codes new ≡ true
    → insert_assignment new rows ≡ ok rows'
    → exists (is_stray user_id roles codes) rows' ≡ false
unfolding insert_assignment
insert_assignment-strays user_id roles codes new rows rows' h among done =
    let kept = exists-appended (is_stray user_id roles codes) new rows h (ground arith) in
    ground (arith, kept)

-- A role that is found by its code is found by its key.
role_of_code-found :
    (code : Text) (roles : List Role) (role : Role)
    → IsKeyed role_key roles
    → role_of_code code roles ≡ some role
    → (find role_key role.id roles ≡ some role) × (role.code ≡ code)
unfolding role_of_code
role_of_code-found code roles role keyed found =
    let p : Role → Bool = λ r. alive r.deleted_at && text_eq r.code code in
    let passes = first-eq-some p roles role found in
    (find-first role_key p roles role keyed found, (text_eq_iff role.code code).0 (ground arith))

among-of_find :
    (roles : List Role) (codes : List Text) (r : UserRole) (role : Role)
    → find role_key r.role_id roles ≡ some role
    → is_row_among roles codes r ≡ is_code_of codes role.code
unfolding is_row_among code_of_row
among-of_find roles codes r role e = rw (is_row_among, code_of_row, e) refl

among-none :
    (roles : List Role) (codes : List Text) (r : UserRole)
    → find role_key r.role_id roles ≡ none
    → is_row_among roles codes r ≡ false
unfolding is_row_among code_of_row
among-none roles codes r e = rw (is_row_among, code_of_row, e) refl

create_row-strays :
    (h : Host) (k actor user_id : ℕ) (roles : List Role) (codes : List Text) (primary : Bool)
    (code : Text) (role : Role) (rows rows' : List UserRole)
    → IsKeyed role_key roles
    → is_code_of codes code ≡ true
    → role_of_code code roles ≡ some role
    → exists (is_stray user_id roles codes) rows ≡ false
    → create_row h k actor user_id primary role rows ≡ ok rows'
    → exists (is_stray user_id roles codes) rows' ≡ false
unfolding create_row is_row_among code_of_row
create_row-strays h k actor user_id roles codes primary code role rows rows' keyed there known
      none_yet done =
    let (found, same) = role_of_code-found code roles role keyed known in
    let new : UserRole = record {
      id = h.new_id k;
      deleted_at = none;
      user_id = user_id;
      role_id = role.id;
      is_primary = primary;
      assigned_at = h.now;
      assigned_by = some actor;
    } in
    insert_assignment-strays user_id roles codes new rows rows' none_yet
      (among-of_find roles codes new role found ∙ rw same there) done

sync_codes-strays :
    (h : Host) (k actor user_id : ℕ) (roles : List Role) (codes : List Text) (target : Option Text)
    (existing : List UserRole) (rest : List Text) (rows rows' : List UserRole)
    → IsKeyed role_key roles
    → ((c : Text) → is_code_of rest c ≡ true → is_code_of codes c ≡ true)
    → exists (is_stray user_id roles codes) rows ≡ false
    → sync_codes h k actor user_id roles target existing rest rows ≡ ok rows'
    → exists (is_stray user_id roles codes) rows' ≡ false
unfolding sync_codes is_code_of
sync_codes-strays h k actor user_id roles codes target existing [] rows rows' keyed within none_yet
      done =
    subst (λ (r : List UserRole). exists (is_stray user_id roles codes) r ≡ false)
      (ok-injective rows rows' done) none_yet
sync_codes-strays h k actor user_id roles codes target existing (code ∷ rest) rows rows' keyed
      within none_yet done =
    let (saved, wrote, e) = >>=-eq-ok _ _ rows' done in
    let after : exists (is_stray user_id roles codes) saved ≡ false =
      elim (Option-cases (first (is_row_for roles code) existing)) [
        | inl n ↦
            let (role, known, made) = >>=-eq-ok _ _ saved (rw n at wrote) in
            create_row-strays h k actor user_id roles codes (is_target target code) code role rows
              saved keyed (within code (rw (text_eq_refl code) refl))
              (or_raise-eq-ok _ not_found role known) none_yet made
        | inr (ur, s) ↦
            save_row-strays user_id roles codes (is_target target code) ur rows saved none_yet
              (rw s at wrote)
      ] in
    sync_codes-strays h (k + 1) actor user_id roles codes target existing rest saved rows' keyed
      (λ c there. within c (ground (arith, there))) after e

is_code_of-dedupe :
    (seen codes : List Text) (c : Text)
    → is_code_of (dedupe seen codes) c ≡ true
    → is_code_of codes c ≡ true
unfolding dedupe is_code_of
is_code_of-dedupe seen [] c there = there
is_code_of-dedupe seen (code ∷ rest) c there = elim (Bool-cases (is_code_of seen code)) [
  | inl e ↦ ground (arith, is_code_of-dedupe (code ∷ seen) rest c (rw e at there))
  | inr e ↦ let this = rw e at there in ground (arith, this, is_code_of-dedupe (code ∷ seen) rest c)
]

is_stray-dedupe :
    (user_id : ℕ) (roles : List Role) (codes : List Text) (r : UserRole)
    → is_stray user_id roles codes r ≡ true
    → is_stray user_id roles (dedupe [] codes) r ≡ true
is_stray-dedupe user_id roles codes r stray = elim (Option-cases (find role_key r.role_id roles)) [
  | inl n ↦ ground (arith, among-none roles codes r n, among-none roles (dedupe [] codes) r n)
  | inr (role, e) ↦ ground (
    arith,
    among-of_find roles codes r role e,
    among-of_find roles (dedupe [] codes) r role e,
    is_code_of-dedupe [] codes role.code,
  )
]

-- Where setting the roles of a user to a list of codes goes through, under unique keys of roles, the
-- user has no row left, dead or not, of a role whose code is not in the list.
pub sync_user_roles-strays :
    (h : Host) (actor user_id : ℕ) (role_codes : List Text) (roles : List Role)
    (rows rows' : List UserRole)
    → IsKeyed role_key roles
    → sync_user_roles h actor user_id role_codes roles rows ≡ ok rows'
    → exists (is_stray user_id roles role_codes) rows' ≡ false
unfolding sync_user_roles
sync_user_roles-strays h actor user_id role_codes roles rows rows' keyed done =
    let codes : List Text = dedupe [] role_codes in
    let (_, _, e) = >>=-eq-ok _ _ rows' done in
    exists-stronger (is_stray user_id roles role_codes) (is_stray user_id roles codes) rows'
      (λ r. is_stray-dedupe user_id roles role_codes r)
      (sync_codes-strays h 0 actor user_id roles codes _ (rows_of user_id rows) codes _ rows' keyed
        (λ c there. there) (exists-select user_id roles codes rows) e)
