-- ===== src/Lifecycle/Safety.antt =====
-- What holds after any sequence of requests.
use uevent_backend.Base.{ℕ, ◌≡◌, subst}
use uevent_backend.Common.Errors.{ok, >>=-eq-ok, ok-injective}
use uevent_backend.Common.Host.{Host}
use uevent_backend.Registrations.State.{Db}
use uevent_backend.Registrations.Cancel.{grant_cohost_role_to_registration}
use uevent_backend.Registrations.Invariant.{IsConsistent, IsConsistent-organizers}
use uevent_backend.Registrations.Registering.Issuing.{create_ticket_for_registration-IsConsistent}
use uevent_backend.Registrations.Registering.Consistency.{create_event_registration-IsConsistent}
use uevent_backend.Registrations.Cancelling.Consistency.{
  cancel_event_registration-IsConsistent, load-IsCurrent,
}
use uevent_backend.Registrations.Scanning.Consistency.{process_checkin_scan-IsConsistent}
use uevent_backend.SystemAdmin.Tickets.Consistency.{
  cancel_ticket-IsConsistent, restore_ticket-IsConsistent, process_admin_checkin-IsConsistent,
}
use uevent_backend.Lifecycle.{
  Step, register, cancel, issue, scan, grant_cohost, admin_cancel, admin_restore, admin_scan, Reach,
  here, next,
}

grant_cohost-IsConsistent :
    (h : Host) (event_id registration_id : ℕ) (db db' : Db)
    → IsConsistent db
    → grant_cohost_role_to_registration h event_id registration_id db ≡ ok db'
    → IsConsistent db'
unfolding grant_cohost_role_to_registration
grant_cohost-IsConsistent h event_id registration_id db db' c e =
    let (_, _, e₁) = >>=-eq-ok _ _ db' e in
    let (_, _, e₂) = >>=-eq-ok _ _ db' e₁ in
    let (o, _, e₃) = >>=-eq-ok _ _ db' e₂ in
    subst IsConsistent (ok-injective _ db' e₃) (IsConsistent-organizers o c)

-- Every request that succeeds keeps the registration tables consistent.
pub Step-IsConsistent : {db db' : Db} → IsConsistent db → Step db db' → IsConsistent db'
Step-IsConsistent {db} {db'} c (register h u e a r done) =
    create_event_registration-IsConsistent h u e a db r db' c done
Step-IsConsistent {db} {db'} c (cancel h p seen reason r loaded done) =
    cancel_event_registration-IsConsistent h seen reason db r db' c
      (load-IsCurrent p db seen c loaded) done
Step-IsConsistent {db} {db'} c (issue h i t done) =
    create_ticket_for_registration-IsConsistent h i db t db' c done
Step-IsConsistent {db} {db'} c (scan h input log done) =
    process_checkin_scan-IsConsistent h input db log db' c done
Step-IsConsistent {db} {db'} c (grant_cohost h e r done) =
    grant_cohost-IsConsistent h e r db db' c done
Step-IsConsistent {db} {db'} c (admin_cancel h a i reason entry done) =
    cancel_ticket-IsConsistent h a i reason db entry db' c done
Step-IsConsistent {db} {db'} c (admin_restore h a i entry done) =
    restore_ticket-IsConsistent h a i db entry db' c done
Step-IsConsistent {db} {db'} c (admin_scan h a input log entry done) =
    process_admin_checkin-IsConsistent h a input db log entry db' c done

-- Whatever requests have been answered since the tables were consistent, they still are.
pub Reach-IsConsistent : {start db : Db} → IsConsistent start → Reach start db → IsConsistent db
Reach-IsConsistent c here = c
Reach-IsConsistent c (next r s) = Step-IsConsistent (Reach-IsConsistent c r) s
