-- ===== src/OrganizerRequests/Review.antt =====
-- A request is decided once.
use uevent_backend.Base.{ℕ, ◌≡◌, refl, ap, subst, false, ◌&&◌, List, ◌==◌, arith}
use uevent_backend.Base.Texts.{Text}
use uevent_backend.Common.Errors.{
  ok, err, ◌>>=◌, >>=-eq-ok, ok-injective, or_raise-eq-ok, validation_error, not_found, not_pending,
}
use uevent_backend.Common.Host.{Host}
use uevent_backend.Orm.Table.{alive, update}
use uevent_backend.Orm.Table.Laws.{IsKeyed, first-eq-some}
use uevent_backend.Orm.Table.Reread.{first-update}
use uevent_backend.OrganizerRequests.Models.{
  OrganizerRequest, RequestStatus, Desk, is_pending, request_key,
}
use uevent_backend.OrganizerRequests.Services.{
  get_request, reviewed, approve_request, reject_request,
}

-- The request is live and no longer pending.
pub record IsDecided (request_id : ℕ) (desk : Desk) : Type 0 where
  pub request : OrganizerRequest
  pub row : get_request request_id desk.requests ≡ ok request
  pub closed : is_pending request.status ≡ false

-- What is read back after a write is what was written.
module _ (f : OrganizerRequest → OrganizerRequest)
    (keeps : (r : OrganizerRequest) → request_key (f r) ≡ request_key r) where
  written-IsDecided :
      (request_id : ℕ) (desk' : Desk) (rows : List OrganizerRequest) (old saved : OrganizerRequest)
      → IsKeyed request_key rows
      → get_request request_id rows ≡ ok old
      → get_request old.id (update request_key old.id f rows) ≡ ok saved
      → is_pending (f old).status ≡ false
      → update request_key old.id f rows ≡ desk'.requests
      → IsDecided request_id desk'
  unfolding get_request
  written-IsDecided request_id desk' rows old saved keyed found read closed is =
      let before = or_raise-eq-ok _ not_found old found in
      let at : old.id ≡ request_id =
        ground
          (arith, first-eq-some (λ r. alive r.deleted_at && r.id == request_id) rows old before) in
      let again : get_request request_id (update request_key old.id f rows) ≡ ok saved =
        subst (λ (n : ℕ). get_request n (update request_key old.id f rows) ≡ ok saved) at read in
      let written : saved ≡ f old =
        first-update request_key f keeps (λ r. alive r.deleted_at && r.id == request_id) request_id
          rows old saved keyed (λ r h. ground arith) before
          (or_raise-eq-ok _ not_found saved again) in
      record {
        request = saved;
        row = subst (λ (d : List OrganizerRequest). get_request request_id d ≡ ok saved) is again;
        closed = rw written closed;
      }

-- A decided request is not decided again.
refused :
    (h : Host) (actor request_id : ℕ) (note : Text) (desk : Desk)
    → IsDecided request_id desk
    → (approve_request h actor request_id note desk ≡ err (validation_error not_pending))
      × (reject_request h actor request_id note desk ≡ err (validation_error not_pending))
unfolding approve_request reject_request ◌>>=◌
refused h actor request_id note desk d = (rw (d.row, d.closed) refl, rw (d.row, d.closed) refl)

-- After an approval the request can be neither approved nor rejected: both raise that it is not
-- pending.
pub approve_request-once :
    (h h' : Host) (actor actor' request_id : ℕ) (note note' : Text) (desk : Desk)
    (r : OrganizerRequest) (desk' : Desk)
    → IsKeyed request_key desk.requests
    → approve_request h actor request_id note desk ≡ ok (r, desk')
    → (approve_request h' actor' request_id note' desk' ≡ err (validation_error not_pending))
      × (reject_request h' actor' request_id note' desk' ≡ err (validation_error not_pending))
unfolding approve_request
approve_request-once h h' actor actor' request_id note note' desk r desk' keyed e =
    let (old, found, e₁) = >>=-eq-ok _ _ (r, desk') e in
    let (_, _, e₂) = >>=-eq-ok _ _ (r, desk') e₁ in
    let (_, _, e₃) = >>=-eq-ok _ _ (r, desk') e₂ in
    let (_, _, e₄) = >>=-eq-ok _ _ (r, desk') e₃ in
    let (saved, read, e₅) = >>=-eq-ok _ _ (r, desk') e₄ in
    refused h' actor' request_id note' desk' (
      written-IsDecided (reviewed h actor note RequestStatus.approved) (λ _. refl) request_id desk'
        desk.requests old saved keyed found read refl
        (ap (λ (d : OrganizerRequest × Desk). d.1.requests) (ok-injective _ (r, desk') e₅)))

-- After a rejection the request can be neither approved nor rejected.
reject_request-once :
    (h h' : Host) (actor actor' request_id : ℕ) (note note' : Text) (desk : Desk)
    (r : OrganizerRequest) (desk' : Desk)
    → IsKeyed request_key desk.requests
    → reject_request h actor request_id note desk ≡ ok (r, desk')
    → (approve_request h' actor' request_id note' desk' ≡ err (validation_error not_pending))
      × (reject_request h' actor' request_id note' desk' ≡ err (validation_error not_pending))
unfolding reject_request
reject_request-once h h' actor actor' request_id note note' desk r desk' keyed e =
    let (old, found, e₁) = >>=-eq-ok _ _ (r, desk') e in
    let (_, _, e₂) = >>=-eq-ok _ _ (r, desk') e₁ in
    let (saved, read, e₃) = >>=-eq-ok _ _ (r, desk') e₂ in
    refused h' actor' request_id note' desk' (
      written-IsDecided (reviewed h actor note RequestStatus.rejected) (λ _. refl) request_id desk'
        desk.requests old saved keyed found read refl
        (ap (λ (d : OrganizerRequest × Desk). d.1.requests) (ok-injective _ (r, desk') e₃)))
