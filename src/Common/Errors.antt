-- ===== src/Common/Errors.antt =====
-- The exceptions that services raise (common/exceptions.py, Django's and DRF's), the results of
-- fallible calls, and the response status that `custom_exception_handler` gives each.
use uevent_backend.Base.{ℕ, ◌≡◌, refl, Bool, true, false, Option, none, some}

-- One constructor for each message that the modelled code raises.
pub data Reason : Type 0 where
  not_open_for_registration not_opened_yet already_closed already_ended : Reason
  already_registered ticket_exists not_registered : Reason
  already_cancelled already_checked_in : Reason
  no_ticket ticket_not_active inactive_registration : Reason
  used_ticket cancelled_ticket not_cancelled_ticket not_cancelled_registration : Reason
  ticket_expired event_unavailable event_full : Reason
  ticket_handled invalid_assignee : Reason
  own_account staff_account already_banned not_banned already_deleted not_deleted : Reason
  already_has_role primary_role : Reason
  unknown_email owner_protected invalid_slug invalid_status : Reason
  end_before_start close_before_open close_after_start deadline_after_start : Reason
  blank_title unknown_category inactive_category unknown_room no_capacity : Reason
  too_long no_choice : Reason
  banned_account has_organizer_role has_pending_request not_pending : Reason

pub data Error : Type 0 where
  -- common.exceptions and rest_framework.exceptions
  validation_error conflict : Reason → Error
  not_found permission_denied forbidden : Error
  -- `Model.DoesNotExist`, `Model.MultipleObjectsReturned`, a broken database constraint
  does_not_exist multiple_objects integrity_error : Error
  -- a value that its column cannot hold
  data_error : Error
  -- `django.core.exceptions.ValidationError`: a text that is no primary key
  invalid_key : Error
  -- Python's `TypeError`
  type_error : Error
  -- no exception: the draws that the model follows have run out
  out_of_draws : Error

pub data Result {ℓ} (A : Type ℓ) : Type ℓ where
  err : Error → Result A
  ok : A → Result A

infixl 5 ◌>>=◌ ◌>>◌
unfoldable pub ◌>>=◌ {ℓ κ} : {A : Type ℓ} {B : Type κ} → Result A → (A → Result B) → Result B
err e >>= next = err e
ok result >>= next = next result

abbrev pub ◌>>◌ {ℓ} : {B : Type ℓ} → Result (Unit {0}) → Result B → Result B
check >> next = check >>= λ _. next

-- `if b: raise e`
abbrev pub raise_if : Bool → Error → Result (Unit {0})
raise_if true e = err e
raise_if false e = ok tt

abbrev pub or_raise {ℓ} : {A : Type ℓ} → Option A → Error → Result A
or_raise none e = err e
or_raise (some a) e = ok a

-- The status of the response that `custom_exception_handler` builds for an exception. An exception
-- that neither DRF nor the handler knows is an internal error.
unfoldable pub status_code : Error → ℕ
status_code (validation_error _) = 400
status_code (conflict _) = 409
status_code not_found = 404
status_code permission_denied = 403
status_code forbidden = 403
status_code does_not_exist = 500
status_code multiple_objects = 500
status_code integrity_error = 409
status_code data_error = 500
status_code invalid_key = 400
status_code type_error = 500
status_code out_of_draws = 500

-- A chain that succeeds has succeeded in its first call, and goes on with that call's value.
pub >>=-eq-ok {ℓ κ} :
    {A : Type ℓ} {B : Type κ} (call : Result A) (next : A → Result B) (result : B)
    → (call >>= next) ≡ ok result
    → (a : A) × (call ≡ ok a) × (next a ≡ ok result)
unfolding ◌>>=◌
>>=-eq-ok (err e) next result done = cc
>>=-eq-ok (ok a) next result done = (a, cc, done)

pub raise_if-eq-ok : (b : Bool) (e : Error) (u : Unit) → raise_if b e ≡ ok u → b ≡ false
raise_if-eq-ok true e u h = cc
raise_if-eq-ok false e u h = refl

pub or_raise-eq-ok {ℓ} :
    {A : Type ℓ} (o : Option A) (e : Error) (a : A) → or_raise o e ≡ ok a → o ≡ some a
or_raise-eq-ok none e a h = cc
or_raise-eq-ok (some b) e a h = cc

pub ok-injective {ℓ} : {A : Type ℓ} (a b : A) → ok a ≡ ok b → a ≡ b
ok-injective a b h = cc
