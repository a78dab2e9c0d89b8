-- ===== src/OrganizerRequests/Services.antt =====
-- OrganizerRequestService (apps/organizer_requests/services.py), without its lines in the audit log.
use uevent_backend.Base.{
  ℕ, Bool, true, false, not, ◌&&◌, ◌||◌, Option, none, some, List, [], ◌∷◌, ◌++◌, ◌==◌,
  if◌then◌else◌,
}
use uevent_backend.Base.Texts.{Text, codes, text_eq}
use uevent_backend.Common.Errors.{
  Result, ok, err, ◌>>=◌, ◌>>◌, raise_if, or_raise, validation_error, not_found, integrity_error,
  banned_account, has_organizer_role, has_pending_request, not_pending,
}
use uevent_backend.Common.Host.{Host}
use uevent_backend.Orm.Table.{alive, first, find, exists, update, update_where, append}
use uevent_backend.Users.{User, AccountStatus}
use uevent_backend.OrganizerRequests.Models.{
  OrganizerRequest, RequestStatus, Role, UserRole, Announcement, Desk, is_pending, request_key,
  user_role_key,
}

abbrev pub is_banned : AccountStatus → Bool
is_banned AccountStatus.banned = true
is_banned _ = false

-- A role with the code "organizer", dead or not: the join takes no notice.
abbrev is_organizer_role : List Role → ℕ → Bool
is_organizer_role roles role_id = elim (find (λ (r : Role). r.id) role_id roles) [
  | none ↦ false
  | some r ↦ text_eq r.code (codes "organizer")
]

-- `_user_has_organizer_role`
unfoldable pub user_has_organizer_role : ℕ → Desk → Bool
user_has_organizer_role user_id desk =
    exists
      (λ r. alive r.deleted_at && (r.user_id == user_id && is_organizer_role desk.roles r.role_id))
      desk.user_roles

-- A live pending request of the user.
abbrev pub pending_of : ℕ → OrganizerRequest → Bool
pending_of user_id r = alive r.deleted_at && (r.user_id == user_id && is_pending r.status)

-- The validated data of a request.
pub record RequestData : Type 0 where
  pub reason : Text
  pub proof_file_key : Text
  pub proof_file_name : Text

abbrev pub new_request : Host → ℕ → RequestData → OrganizerRequest
new_request h user_id input = record {
  id = h.new_id 0;
  deleted_at = none;
  user_id = user_id;
  status = RequestStatus.pending;
  reason = input.reason;
  proof_file_key = input.proof_file_key;
  proof_file_name = input.proof_file_name;
  reviewed_by = none;
  reviewed_at = none;
  review_note = [];
}

-- The INSERT of a pending request, under the unique key and uq_organizer_requests_user_pending.
unfoldable pub insert_request :
    OrganizerRequest → List OrganizerRequest → Result (List OrganizerRequest)
insert_request new rows =
    if exists (λ r. (r.id == new.id) || pending_of new.user_id r) rows
    then err integrity_error
    else ok (append rows new)

-- `get_request_for_user`
unfoldable pub get_request_for_user : ℕ → ℕ → List OrganizerRequest → Result OrganizerRequest
get_request_for_user user_id request_id rows =
    or_raise (first (λ r. alive r.deleted_at && (r.id == request_id && r.user_id == user_id)) rows)
      not_found

-- `get_request`, and the lock of a review
unfoldable pub get_request : ℕ → List OrganizerRequest → Result OrganizerRequest
get_request request_id rows =
    or_raise (first (λ r. alive r.deleted_at && r.id == request_id) rows) not_found

unfoldable pub create_request : Host → User → RequestData → Desk → Result (OrganizerRequest × Desk)
create_request h actor input desk = do
  raise_if (is_banned actor.account_status) (validation_error banned_account)
  raise_if (user_has_organizer_role actor.id desk) (validation_error has_organizer_role)
  raise_if (exists (pending_of actor.id) desk.requests) (validation_error has_pending_request)
  requests ← insert_request (new_request h actor.id input) desk.requests
  request ← get_request_for_user actor.id (h.new_id 0) requests
  ok (request, record desk { requests = requests })

abbrev pub cancelled_request : OrganizerRequest → OrganizerRequest
cancelled_request r = record r { status = RequestStatus.cancelled }

unfoldable pub cancel_request : ℕ → ℕ → Desk → Result (OrganizerRequest × Desk)
cancel_request actor request_id desk = do
  request ← get_request_for_user actor request_id desk.requests
  raise_if (not (is_pending request.status)) (validation_error not_pending)
  let requests = update request_key request.id cancelled_request desk.requests
  saved ← get_request_for_user actor request_id requests
  ok (saved, record desk { requests = requests })

-- The role that an approval grants.
unfoldable pub organizer_role : List Role → Option Role
organizer_role =
    first (λ r. alive r.deleted_at && (text_eq r.code (codes "organizer") && r.is_active))

-- The primary roles of the user other than this one, dead rows included, are primary no longer.
abbrev pub unset_primary : UserRole → UserRole
unset_primary r = record r { is_primary = false }

unfoldable pub demote_others : ℕ → ℕ → List UserRole → List UserRole
demote_others user_id role_id =
    update_where (λ r. r.user_id == user_id && (r.is_primary && not (r.role_id == role_id)))
      unset_primary

abbrev pub new_user_role : Host → ℕ → ℕ → ℕ → UserRole
new_user_role h actor user_id role_id = record {
  id = h.new_id 1;
  deleted_at = none;
  user_id = user_id;
  role_id = role_id;
  is_primary = true;
  assigned_at = h.now;
  assigned_by = some actor;
}

-- What an assignment that was there before is saved with.
abbrev pub reassigned : Host → ℕ → UserRole → UserRole
reassigned h actor r = record r {
  deleted_at = none;
  is_primary = true;
  assigned_at = h.now;
  assigned_by = some actor;
}

-- A row that shares the key, the (user, role), or the one primary role of the user.
abbrev pub clashes_with : UserRole → UserRole → Bool
clashes_with new r =
    (r.id == new.id)
    || (r.user_id == new.user_id && r.role_id == new.role_id)
    || (r.user_id == new.user_id && r.is_primary)

unfoldable pub insert_user_role : UserRole → List UserRole → Result (List UserRole)
insert_user_role new rows =
    if exists (clashes_with new) rows then err integrity_error else ok (append rows new)

-- By the assignment of the role to the user, dead or not.
unfoldable pub assign : Host → ℕ → ℕ → ℕ → Option UserRole → List UserRole → Result (List UserRole)
assign h actor user_id role_id none rows =
    insert_user_role (new_user_role h actor user_id role_id) rows
assign h actor user_id role_id (some r) rows =
    ok (update user_role_key r.id (reassigned h actor) rows)

-- The part of `approve_request` that grants the role.
unfoldable pub grant_role : Host → ℕ → ℕ → ℕ → List UserRole → Result (List UserRole)
grant_role h actor user_id role_id rows =
    let demoted = demote_others user_id role_id rows in
    assign h actor user_id role_id
      (first (λ r. r.user_id == user_id && r.role_id == role_id) demoted) demoted

-- What a review writes.
abbrev pub reviewed : Host → ℕ → Text → RequestStatus → OrganizerRequest → OrganizerRequest
reviewed h actor note status r = record r {
  status = status;
  reviewed_by = some actor;
  reviewed_at = some h.now;
  review_note = note;
}

unfoldable pub approve_request : Host → ℕ → ℕ → Text → Desk → Result (OrganizerRequest × Desk)
approve_request h actor request_id note desk = do
  request ← get_request request_id desk.requests
  raise_if (not (is_pending request.status)) (validation_error not_pending)
  role ← or_raise (organizer_role desk.roles) not_found
  user_roles ← grant_role h actor request.user_id role.id desk.user_roles
  let requests =
      update request_key request.id (reviewed h actor note RequestStatus.approved) desk.requests
  saved ← get_request request.id requests
  ok (
    saved,
    record desk {
      requests = requests;
      user_roles = user_roles;
      on_commit = desk.on_commit ++ Announcement.request_approved request.id ∷ [];
    },
  )

unfoldable pub reject_request : Host → ℕ → ℕ → Text → Desk → Result (OrganizerRequest × Desk)
reject_request h actor request_id note desk = do
  request ← get_request request_id desk.requests
  raise_if (not (is_pending request.status)) (validation_error not_pending)
  let requests =
      update request_key request.id (reviewed h actor note RequestStatus.rejected) desk.requests
  saved ← get_request request.id requests
  ok (
    saved,
    record desk {
      requests = requests;
      on_commit = desk.on_commit ++ Announcement.request_rejected request.id ∷ [];
    },
  )
