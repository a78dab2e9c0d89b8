-- ===== src/OrganizerRequests/Primary.antt =====
-- The role that an approval grants is the one primary role of the user.
use uevent_backend.Base.{
  ℕ, ◌≤◌, ◌≡◌, refl, subst, Bool, true, false, ◌&&◌, Option, none, some, List, [], ◌∷◌, ◌==◌, arith,
  weight, Bool-cases, inl, inr,
}
use uevent_backend.Common.Errors.{ok, ok-injective}
use uevent_backend.Common.Host.{Host}
use uevent_backend.Orm.Table.{first, find, exists, count, update_where, append}
use uevent_backend.Orm.Table.Laws.{IsKeyed, find-first, first-eq-some, count-update, count-append}
use uevent_backend.OrganizerRequests.Models.{UserRole, user_role_key}
use uevent_backend.OrganizerRequests.Services.{
  demote_others, new_user_role, reassigned, clashes_with, insert_user_role, assign, grant_role,
}

abbrev pub is_primary_of : ℕ → UserRole → Bool
is_primary_of user_id r = r.user_id == user_id && r.is_primary

abbrev pub is_assignment : ℕ → ℕ → UserRole → Bool
is_assignment user_id role_id r = r.user_id == user_id && r.role_id == role_id

module _ (p q : UserRole → Bool) where
  count-of_subset :
      (rows : List UserRole)
      → ((r : UserRole) → q r ≡ true → p r ≡ true)
      → count q rows ≤ count p rows
  unfolding count
  count-of_subset [] sub = omega arith
  count-of_subset (r ∷ rows) sub = ground (arith, sub r, count-of_subset rows sub)

  count-of_none : (rows : List UserRole) → exists p rows ≡ false → count p rows ≡ 0
  unfolding exists first count
  count-of_none [] free = refl
  count-of_none (r ∷ rows) free = ground (arith, count-of_none rows)

-- Where one row at most passes `p`, those that also pass `q` are counted by that row.
count-of_only :
    (p q : UserRole → Bool) (rows : List UserRole) (r : UserRole)
    → first p rows ≡ some r
    → count p rows ≤ 1
    → count (λ s. p s && q s) rows ≡ weight (q r)
unfolding first count
count-of_only p q [] r found one = cc
count-of_only p q (s ∷ rows) r found one = ground (
  arith,
  count-of_only p q rows r,
  count-of_subset p (λ t. p t && q t) rows (λ t h. ground arith),
)

module _ (user_id role_id : ℕ) where
  -- The primary roles that are left are this one.
  count-demote_others :
      (rows : List UserRole)
      → count (is_primary_of user_id) (demote_others user_id role_id rows)
        ≡ count
            (λ r. is_assignment user_id role_id r && r.is_primary)
            (demote_others user_id role_id rows)
  unfolding demote_others update_where count
  count-demote_others [] = refl
  count-demote_others (r ∷ rows) = ground (arith, count-demote_others rows)

  count-demote_others_assignment :
      (rows : List UserRole)
      → count (is_assignment user_id role_id) (demote_others user_id role_id rows)
        ≡ count (is_assignment user_id role_id) rows
  unfolding demote_others update_where count
  count-demote_others_assignment [] = refl
  count-demote_others_assignment (r ∷ rows) = ground (arith, count-demote_others_assignment rows)

  find-demote_others :
      (i : ℕ) (rows : List UserRole)
      → find user_role_key i rows ≡ none
      → find user_role_key i (demote_others user_id role_id rows) ≡ none
  unfolding demote_others update_where find
  find-demote_others i [] e = refl
  find-demote_others i (r ∷ rows) e = ground (arith, find-demote_others i rows)

  demote_others-IsKeyed :
      (rows : List UserRole)
      → IsKeyed user_role_key rows
      → IsKeyed user_role_key (demote_others user_id role_id rows)
  unfolding demote_others update_where
  demote_others-IsKeyed [] k = tt
  demote_others-IsKeyed (r ∷ rows) k =
      (ground (arith, find-demote_others r.id rows k.0), demote_others-IsKeyed rows k.1)

  -- Assigning the role where only this role may be primary leaves one primary role.
  assign-primary :
      (h : Host) (actor : ℕ) (o : Option UserRole) (rows rows' : List UserRole)
      → IsKeyed user_role_key rows
      → count (is_assignment user_id role_id) rows ≤ 1
      → count (is_primary_of user_id) rows
        ≡ count (λ r. is_assignment user_id role_id r && r.is_primary) rows
      → first (is_assignment user_id role_id) rows ≡ o
      → assign h actor user_id role_id o rows ≡ ok rows'
      → count (is_primary_of user_id) rows' ≡ 1
  unfolding assign insert_user_role
  assign-primary h actor none rows rows' keyed one only s e =
      let new = new_user_role h actor user_id role_id in
      elim (Bool-cases (exists (clashes_with new) rows)) [
        | inl clash ↦ ground arith
        | inr free ↦
            let made : append rows new ≡ rows' = ground arith in
            subst (λ (rs : List UserRole). count (is_primary_of user_id) rs ≡ 1) made
              (ground (
                arith,
                count-append (is_primary_of user_id) rows new,
                count-of_none (clashes_with new) (is_primary_of user_id) rows free,
                count-of_subset (clashes_with new) (is_primary_of user_id) rows
                    (λ r p. ground arith),
              ))
      ]
  assign-primary h actor (some r) rows rows' keyed one only s e =
      subst (λ (rs : List UserRole). count (is_primary_of user_id) rs ≡ 1) (ok-injective _ rows' e)
        (ground (
          arith,
          only,
          first-eq-some (is_assignment user_id role_id) rows r s,
          count-of_only (is_assignment user_id role_id) (λ q. q.is_primary) rows r s one,
          count-update user_role_key (reassigned h actor) (is_primary_of user_id) r.id rows r
              (find-first user_role_key _ rows r keyed s),
        ))

-- Granting a role leaves the user with exactly one primary role, where keys are unique and the user
-- had the role at most once.
pub grant_role-primary :
    (h : Host) (actor user_id role_id : ℕ) (rows rows' : List UserRole)
    → IsKeyed user_role_key rows
    → count (is_assignment user_id role_id) rows ≤ 1
    → grant_role h actor user_id role_id rows ≡ ok rows'
    → count (is_primary_of user_id) rows' ≡ 1
unfolding grant_role
grant_role-primary h actor user_id role_id rows rows' keyed one e =
    assign-primary user_id role_id h actor _ (demote_others user_id role_id rows) rows'
      (demote_others-IsKeyed user_id role_id rows keyed)
      (rw (count-demote_others_assignment user_id role_id rows) one)
      (count-demote_others user_id role_id rows) refl e
