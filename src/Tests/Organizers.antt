-- ===== src/Tests/Organizers.antt =====
-- A user who asks to become an organizer, and an administrator who decides.
use uevent_backend.Base.{◌≡◌, refl, true, none, List, [], ◌∷◌, arith}
use uevent_backend.Base.Texts.{codes, text_eq}
use uevent_backend.Common.Errors.{err, ◌>>=◌, validation_error, not_pending}
use uevent_backend.Orm.Table.{first, find, exists, count, append, update, update_where}
use uevent_backend.OrganizerRequests.Models.{OrganizerRequest, Role, UserRole, Desk}
use uevent_backend.OrganizerRequests.Services.{
  RequestData, new_request, create_request, user_has_organizer_role, insert_request,
  get_request_for_user, get_request, approve_request, reject_request, organizer_role, grant_role,
  demote_others, assign, insert_user_role,
}
use uevent_backend.OrganizerRequests.Pending.{IsOrderly, Reach, here, next, create, Reach-IsOrderly}
use uevent_backend.OrganizerRequests.Review.{approve_request-once}
use uevent_backend.OrganizerRequests.Primary.{is_primary_of, grant_role-primary}
use uevent_backend.Tests.Data.{host, ann}
use uevent_backend.Tests.Registering.{value_of}

abbrev pub organizer : Role
organizer = record { id = 50; deleted_at = none; code = codes "organizer"; is_active = true }

-- A primary role of another kind.
abbrev pub student : UserRole
student = record {
  id = 60;
  deleted_at = none;
  user_id = 1;
  role_id = 51;
  is_primary = true;
  assigned_at = 0;
  assigned_by = none;
}

abbrev desk : Desk
desk = record { requests = []; roles = organizer ∷ []; user_roles = student ∷ []; on_commit = [] }

abbrev input : RequestData
input = record {
  reason = codes "club";
  proof_file_key = codes "k";
  proof_file_name = codes "f.pdf";
}

abbrev asked : OrganizerRequest × Desk
asked = value_of (new_request host 1 input, desk) (create_request host ann input desk)

reached : Reach desk asked.1
unfolding create_request user_has_organizer_role exists first find insert_request append
    get_request_for_user ◌>>=◌
reached = next here (create host ann input asked.0 refl)

Reach-IsOrderly_example : IsOrderly asked.1.requests
unfolding count
Reach-IsOrderly_example = Reach-IsOrderly (record { keyed = tt; once = λ u. omega arith }) reached

abbrev waiting : Desk
waiting = record desk { requests = new_request host 1 input ∷ [] }

abbrev approved : OrganizerRequest × Desk
approved =
    value_of (new_request host 1 input, waiting)
      (approve_request host 2 1000 (codes "fine") waiting)

approve_request-once_example :
    (approve_request host 3 1000 [] approved.1 ≡ err (validation_error not_pending))
    × (reject_request host 3 1000 [] approved.1 ≡ err (validation_error not_pending))
unfolding approve_request get_request first organizer_role text_eq grant_role demote_others
    update_where assign insert_user_role exists append update find ◌>>=◌
approve_request-once_example =
    approve_request-once host host 2 3 1000 (codes "fine") [] waiting approved.0 approved.1
      (refl, tt) refl

abbrev granted : List UserRole
granted = value_of [] (grant_role host 2 1 50 (student ∷ []))

grant_role-primary_example : count (is_primary_of 1) granted ≡ 1
unfolding grant_role demote_others update_where assign insert_user_role exists first append find
    count
grant_role-primary_example =
    grant_role-primary host 2 1 50 (student ∷ []) granted (refl, tt) (omega arith) refl
