-- ===== src/Events/Organizing/Joining.antt =====
-- Who organizes an event after someone has been added to it.
use uevent_backend.Base.{
  ℕ, ◌≡◌, refl, sym, subst, ◌∙◌, true, false, none, some, List, arith, ◌==◌, ==_refl, inl, inr,
  Option-cases,
}
use uevent_backend.Base.Texts.{Text}
use uevent_backend.Common.Errors.{
  ok, ◌>>=◌, or_raise, or_raise-eq-ok, >>=-eq-ok, ok-injective, validation_error, unknown_email,
  does_not_exist,
}
use uevent_backend.Common.Host.{Host}
use uevent_backend.Orm.Table.{first, exists, find, append}
use uevent_backend.Orm.Table.Laws.{
  IsKeyed, first-eq-some, find-first, find-update_self, find-append_self, find-eq-none, exists-or,
  exists-of_find,
}
use uevent_backend.Orm.Table.Reread.{some-injective}
use uevent_backend.Users.{User}
use uevent_backend.Registrations.State.{Db, live_event}
use uevent_backend.Events.Models.{Event, EventOrganizer, OrganizerRole}
use uevent_backend.Events.Access.{is_role_of, is_event_organizer, get_event}
use uevent_backend.Events.Editing.{insert_organizer, new_organizer}
use uevent_backend.Events.Editing.Updates.{get_event-live}
use uevent_backend.Events.Organizing.{
  organizer_key, assert_event_owner, revived, promoted, enroll, user_of_email,
  add_organizer_by_email,
}
use uevent_backend.Events.Organizing.Members.{is_member}

insert_organizer-eq-ok :
    (new : EventOrganizer) (organizers rows : List EventOrganizer)
    → insert_organizer new organizers ≡ ok rows
    → (rows ≡ append organizers new) × (exists (λ o. o.id == new.id) organizers ≡ false)
unfolding insert_organizer
insert_organizer-eq-ok new organizers rows done =
    let split = exists-or (λ o. o.id == new.id) (is_role_of new.event_id new.user_id) organizers in
    (ground arith, ground arith)

-- The row of a user who has just been added is live and theirs at the event.
enroll_new-is_member :
    (h : Host) (event : Event) (user : User) (i : ℕ) (organizers rows : List EventOrganizer)
    (role : EventOrganizer)
    → enroll h event user none organizers ≡ ok (i, rows)
    → find organizer_key i rows ≡ some role
    → is_member event.id user.id role ≡ true
unfolding enroll new_organizer
enroll_new-is_member h event user i organizers rows role done there =
    let new : EventOrganizer = new_organizer h 0 event.id user.id OrganizerRole.co_host in
    let out : ℕ × List EventOrganizer = (i, rows) in
    let (rows', inserted, e) =
      >>=-eq-ok (insert_organizer new organizers) (λ r. ok (new.id, r)) out done in
    let (appended, fresh) = insert_organizer-eq-ok new organizers rows' inserted in
    let mine : ℕ × List EventOrganizer = (new.id, rows') in
    let same : mine ≡ out = ok-injective mine out e in
    let free =
      find-eq-none organizer_key (λ o. o.id == new.id) new.id organizers (λ o. ground arith)
        fresh in
    let row : find organizer_key i rows ≡ some new =
      subst (λ (d : ℕ × List EventOrganizer). find organizer_key d.0 d.1 ≡ some new) same
        (rw appended (find-append_self organizer_key organizers new free)) in
    subst (λ (o : EventOrganizer). is_member event.id user.id o ≡ true)
      (some-injective new role (sym row ∙ there))
      (ground (arith, ==_refl event.id, ==_refl user.id))

enroll_old-is_member :
    (h : Host) (event : Event) (user : User) (old : EventOrganizer) (i : ℕ)
    (organizers rows : List EventOrganizer) (role : EventOrganizer)
    → IsKeyed organizer_key organizers
    → first (is_role_of event.id user.id) organizers ≡ some old
    → enroll h event user (some old) organizers ≡ ok (i, rows)
    → find organizer_key i rows ≡ some role
    → is_member event.id user.id role ≡ true
unfolding enroll
enroll_old-is_member h event user old i organizers rows role keyed found done there =
    let passes = first-eq-some (is_role_of event.id user.id) organizers old found in
    let row = find-first organizer_key (is_role_of event.id user.id) organizers old keyed found in
    let anew =
      find-update_self organizer_key (revived h.now) (λ o. refl) old.id organizers old row in
    let up = find-update_self organizer_key promoted (λ o. refl) old.id organizers old row in
    ground arith

enroll-is_member :
    (h : Host) (event : Event) (user : User) (i : ℕ) (organizers rows : List EventOrganizer)
    (role : EventOrganizer)
    → IsKeyed organizer_key organizers
    → enroll h event user (first (is_role_of event.id user.id) organizers) organizers ≡ ok (i, rows)
    → find organizer_key i rows ≡ some role
    → is_member event.id user.id role ≡ true
enroll-is_member h event user i organizers rows role keyed done there =
    elim (Option-cases (first (is_role_of event.id user.id) organizers)) [
      | inl n ↦ enroll_new-is_member h event user i organizers rows role (rw n at done) there
      | inr (old, s) ↦
          enroll_old-is_member h event user old i organizers rows role keyed s (rw s at done) there
    ]

get_event-member :
    (user_id event_id : ℕ) (event : Event) (db : Db)
    → live_event event_id db.events ≡ some event
    → exists (is_member event.id user_id) db.organizers ≡ true
    → get_event user_id event_id db ≡ ok event
unfolding get_event is_event_organizer ◌>>=◌
get_event-member user_id event_id event db living member = ground arith

-- Whoever is added by an address is the user of that address, has a live row at the event, and
-- reaches the event from then on.
pub add_organizer_by_email-grants :
    (h : Host) (actor event_id : ℕ) (email : Text) (db : Db) (role : EventOrganizer) (db' : Db)
    → IsKeyed organizer_key db.organizers
    → add_organizer_by_email h actor event_id email db ≡ ok (role, db')
    → (user : User) × (event : Event) × (user_of_email h email db.users ≡ some user)
      × (get_event actor event_id db ≡ ok event)
      × (is_member event.id user.id role ≡ true)
      × (get_event user.id event_id db' ≡ ok event)
unfolding add_organizer_by_email
add_organizer_by_email-grants h actor event_id email db role db' keyed done =
    let out : EventOrganizer × Db = (role, db') in
    let (event, got, e₁) = >>=-eq-ok (get_event actor event_id db) _ out done in
    let (_, _, e₂) = >>=-eq-ok (assert_event_owner actor event db.organizers) _ out e₁ in
    let (user, known, e₃) =
      >>=-eq-ok (or_raise (user_of_email h email db.users) (validation_error unknown_email)) _ out
        e₂ in
    let ((i, rows), enrolled, e₄) =
      >>=-eq-ok
        (enroll h event user (first (is_role_of event.id user.id) db.organizers) db.organizers) _
        out e₃ in
    let (row, read, e₅) =
      >>=-eq-ok (or_raise (find organizer_key i rows) does_not_exist)
        (λ r. ok (r, record db { organizers = rows })) out e₄ in
    let there = or_raise-eq-ok (find organizer_key i rows) does_not_exist row read in
    let member = enroll-is_member h event user i db.organizers rows row keyed enrolled there in
    let mine : EventOrganizer × Db = (row, record db { organizers = rows }) in
    let (is_theirs, reached) =
      subst
        (λ (d : EventOrganizer × Db).
          (is_member event.id user.id d.0 ≡ true) × (get_event user.id event_id d.1 ≡ ok event))
        (ok-injective mine out e₅)
        (
          member,
          get_event-member user.id event_id event (record db { organizers = rows })
              (get_event-live actor event_id db event got)
              (exists-of_find organizer_key (is_member event.id user.id) i rows row there member),
        ) in
    (user, event, or_raise-eq-ok _ _ user known, got, is_theirs, reached)
