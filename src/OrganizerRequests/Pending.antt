-- ===== src/OrganizerRequests/Pending.antt =====
-- No user ever has two pending requests.
use uevent_backend.Base.{
  ℕ, ◌≤◌, ◌≡◌, refl, subst, Bool, true, false, ◌||◌, some, List, [], ◌∷◌, ◌==◌, arith, weight,
  eq-cases, inl, inr, Bool-cases,
}
use uevent_backend.Base.Texts.{Text}
use uevent_backend.Common.Errors.{ok, >>=-eq-ok, ok-injective, or_raise-eq-ok, not_found}
use uevent_backend.Common.Host.{Host}
use uevent_backend.Orm.Table.{first, find, exists, count, update, append}
use uevent_backend.Orm.Table.Laws.{
  IsKeyed, count-update, count-append, find-first, IsKeyed-update, IsKeyed-append, find-eq-none,
}
use uevent_backend.Users.{User}
use uevent_backend.OrganizerRequests.Models.{
  OrganizerRequest, RequestStatus, Desk, is_pending, request_key,
}
use uevent_backend.OrganizerRequests.Services.{
  pending_of, RequestData, new_request, insert_request, get_request_for_user, get_request,
  create_request, cancelled_request, cancel_request, reviewed, approve_request, reject_request,
}

-- Keys are unique, and each user has at most one live pending request.
pub record IsOrderly (rows : List OrganizerRequest) : Type 0 where
  pub keyed : IsKeyed request_key rows
  pub once : (user_id : ℕ) → count (pending_of user_id) rows ≤ 1

count-of_none :
    (p q : OrganizerRequest → Bool) (rows : List OrganizerRequest)
    → ((r : OrganizerRequest) → q r ≡ true → p r ≡ true)
    → exists p rows ≡ false
    → count q rows ≡ 0
unfolding exists first count
count-of_none p q [] includes free = refl
count-of_none p q (r ∷ rows) includes free =
    ground (arith, includes r, count-of_none p q rows includes)

-- A request that is no longer pending makes room for another.
update-IsOrderly :
    (f : OrganizerRequest → OrganizerRequest)
    (keeps : (r : OrganizerRequest) → request_key (f r) ≡ request_key r) (r : OrganizerRequest)
    (rows : List OrganizerRequest)
    → IsOrderly rows
    → find request_key r.id rows ≡ some r
    → is_pending (f r).status ≡ false
    → IsOrderly (update request_key r.id f rows)
update-IsOrderly f keeps r rows o row closed = record {
  keyed = IsKeyed-update request_key f keeps r.id rows o.keyed;
  once = λ u. ground (arith, o.once u, count-update request_key f (pending_of u) r.id rows r row);
}

weight-le-one : (b : Bool) → weight b ≤ 1
weight-le-one b = ground arith

insert_request-IsOrderly :
    (new : OrganizerRequest) (rows rows' : List OrganizerRequest)
    → IsOrderly rows
    → insert_request new rows ≡ ok rows'
    → IsOrderly rows'
unfolding insert_request
insert_request-IsOrderly new rows rows' o e =
    elim (Bool-cases (exists (λ r. (r.id == new.id) || pending_of new.user_id r) rows)) [
      | inl clash ↦ ground arith
      | inr free ↦
          let made : append rows new ≡ rows' = ground arith in
          subst IsOrderly made (record {
            keyed =
                IsKeyed-append request_key rows new o.keyed
                  (find-eq-none request_key _ new.id rows (λ r p. ground arith) free);
            once = λ u. elim (eq-cases new.user_id u) [
              | inl same ↦ omega (
                arith,
                count-append (pending_of u) rows new,
                count-of_none _ (pending_of u) rows (λ r p. ground arith) free,
                weight-le-one (pending_of u new),
              )
              | inr ne ↦ ground (arith, count-append (pending_of u) rows new, o.once u)
            ];
          })
    ]

pub create_request-IsOrderly :
    (h : Host) (actor : User) (input : RequestData) (desk : Desk) (r : OrganizerRequest)
    (desk' : Desk)
    → IsOrderly desk.requests
    → create_request h actor input desk ≡ ok (r, desk')
    → IsOrderly desk'.requests
unfolding create_request
create_request-IsOrderly h actor input desk r desk' o e =
    let (_, _, e₁) = >>=-eq-ok _ _ (r, desk') e in
    let (_, _, e₂) = >>=-eq-ok _ _ (r, desk') e₁ in
    let (_, _, e₃) = >>=-eq-ok _ _ (r, desk') e₂ in
    let (rows, inserted, e₄) = >>=-eq-ok _ _ (r, desk') e₃ in
    let (_, _, e₅) = >>=-eq-ok _ _ (r, desk') e₄ in
    subst (λ (d : OrganizerRequest × Desk). IsOrderly d.1.requests) (ok-injective _ (r, desk') e₅)
      (insert_request-IsOrderly (new_request h actor.id input) desk.requests rows o inserted)

pub cancel_request-IsOrderly :
    (actor request_id : ℕ) (desk : Desk) (r : OrganizerRequest) (desk' : Desk)
    → IsOrderly desk.requests
    → cancel_request actor request_id desk ≡ ok (r, desk')
    → IsOrderly desk'.requests
unfolding cancel_request get_request_for_user
cancel_request-IsOrderly actor request_id desk r desk' o e =
    let (old, found, e₁) = >>=-eq-ok _ _ (r, desk') e in
    let (_, _, e₂) = >>=-eq-ok _ _ (r, desk') e₁ in
    let (_, _, e₃) = >>=-eq-ok _ _ (r, desk') e₂ in
    subst (λ (d : OrganizerRequest × Desk). IsOrderly d.1.requests) (ok-injective _ (r, desk') e₃)
      (update-IsOrderly cancelled_request (λ _. refl) old desk.requests o
        (find-first request_key _ desk.requests old o.keyed (or_raise-eq-ok _ not_found old found))
        refl)

pub approve_request-IsOrderly :
    (h : Host) (actor request_id : ℕ) (note : Text) (desk : Desk) (r : OrganizerRequest)
    (desk' : Desk)
    → IsOrderly desk.requests
    → approve_request h actor request_id note desk ≡ ok (r, desk')
    → IsOrderly desk'.requests
unfolding approve_request get_request
approve_request-IsOrderly h actor request_id note desk r desk' o e =
    let (old, found, e₁) = >>=-eq-ok _ _ (r, desk') e in
    let (_, _, e₂) = >>=-eq-ok _ _ (r, desk') e₁ in
    let (_, _, e₃) = >>=-eq-ok _ _ (r, desk') e₂ in
    let (_, _, e₄) = >>=-eq-ok _ _ (r, desk') e₃ in
    let (_, _, e₅) = >>=-eq-ok _ _ (r, desk') e₄ in
    subst (λ (d : OrganizerRequest × Desk). IsOrderly d.1.requests) (ok-injective _ (r, desk') e₅)
      (update-IsOrderly (reviewed h actor note RequestStatus.approved) (λ _. refl) old desk.requests
        o
        (find-first request_key _ desk.requests old o.keyed (or_raise-eq-ok _ not_found old found))
        refl)

pub reject_request-IsOrderly :
    (h : Host) (actor request_id : ℕ) (note : Text) (desk : Desk) (r : OrganizerRequest)
    (desk' : Desk)
    → IsOrderly desk.requests
    → reject_request h actor request_id note desk ≡ ok (r, desk')
    → IsOrderly desk'.requests
unfolding reject_request get_request
reject_request-IsOrderly h actor request_id note desk r desk' o e =
    let (old, found, e₁) = >>=-eq-ok _ _ (r, desk') e in
    let (_, _, e₂) = >>=-eq-ok _ _ (r, desk') e₁ in
    let (_, _, e₃) = >>=-eq-ok _ _ (r, desk') e₂ in
    subst (λ (d : OrganizerRequest × Desk). IsOrderly d.1.requests) (ok-injective _ (r, desk') e₃)
      (update-IsOrderly (reviewed h actor note RequestStatus.rejected) (λ _. refl) old desk.requests
        o
        (find-first request_key _ desk.requests old o.keyed (or_raise-eq-ok _ not_found old found))
        refl)

-- A call of the service that has succeeded.
pub data Step (desk desk' : Desk) : Type 0 where
  create :
      (h : Host) (actor : User) (input : RequestData) (r : OrganizerRequest)
      → create_request h actor input desk ≡ ok (r, desk')
      → Step desk desk'
  cancel :
      (actor request_id : ℕ) (r : OrganizerRequest)
      → cancel_request actor request_id desk ≡ ok (r, desk')
      → Step desk desk'
  approve :
      (h : Host) (actor request_id : ℕ) (note : Text) (r : OrganizerRequest)
      → approve_request h actor request_id note desk ≡ ok (r, desk')
      → Step desk desk'
  reject :
      (h : Host) (actor request_id : ℕ) (note : Text) (r : OrganizerRequest)
      → reject_request h actor request_id note desk ≡ ok (r, desk')
      → Step desk desk'

pub data Reach (start : Desk) : Desk → Type 0 where
  here : Reach start start
  next : {desk desk' : Desk} → Reach start desk → Step desk desk' → Reach start desk'

Step-IsOrderly :
    {desk desk' : Desk} → IsOrderly desk.requests → Step desk desk' → IsOrderly desk'.requests
Step-IsOrderly {desk} {desk'} o (create h actor input r done) =
    create_request-IsOrderly h actor input desk r desk' o done
Step-IsOrderly {desk} {desk'} o (cancel actor i r done) =
    cancel_request-IsOrderly actor i desk r desk' o done
Step-IsOrderly {desk} {desk'} o (approve h actor i note r done) =
    approve_request-IsOrderly h actor i note desk r desk' o done
Step-IsOrderly {desk} {desk'} o (reject h actor i note r done) =
    reject_request-IsOrderly h actor i note desk r desk' o done

-- From tables with unique keys where each user has at most one live pending request, any sequence
-- of creations, cancellations, approvals and rejections leads to such tables.
pub Reach-IsOrderly :
    {start desk : Desk} → IsOrderly start.requests → Reach start desk → IsOrderly desk.requests
Reach-IsOrderly o here = o
Reach-IsOrderly o (next r s) = Step-IsOrderly (Reach-IsOrderly o r) s
