-- ===== src/Lifecycle/Override.antt =====
-- What organizers may write past the invariant: the status of a ticket (TicketDetailView.patch of
-- apps/registrations/views.py) and the capacity of an event (`update_event` of
-- apps/events/services.py).
use uevent_backend.Base.{
  ℕ, suc, ◌≤◌, ◌<◌, ◌≡◌, refl, ap, subst, ◌∙◌, true, false, ◌&&◌, some, none, arith, ◌==◌,
}
use uevent_backend.Common.Errors.{ok, ◌>>=◌, >>=-eq-ok, ok-injective, or_raise-eq-ok, not_found}
use uevent_backend.Common.Host.{Host}
use uevent_backend.Orm.Table.{alive, first, find, update}
use uevent_backend.Orm.Table.Laws.{IsKeyed, find-first, find-update_self}
use uevent_backend.Events.Models.{Event}
use uevent_backend.Events.Access.{get_event}
use uevent_backend.Events.Input.{
  EventData, is_valid, fits, validate_fields, validate, validate_title, validate_category,
  validate_room, validate_max_capacity,
}
use uevent_backend.Events.Editing.{
  update_event, updated_event, check_columns, fits_columns, has_references,
}
use uevent_backend.Events.Editing.Schedule.{only_start}
use uevent_backend.Events.Editing.Updates.{update_event-total, outcome, get_event-live}
use uevent_backend.Registrations.Models.{Ticket, TicketStatus, CheckinLog, is_success, is_used}
use uevent_backend.Registrations.State.{
  Db, event_key, live_event, ticket_key, active_registration_count,
}
use uevent_backend.Registrations.Checkin.{Scan, process_checkin_scan}
use uevent_backend.Registrations.Override.{
  TicketData, is_live_of, get_object, patched, patch_ticket,
}
use uevent_backend.Registrations.Admission.{successes}
use uevent_backend.Registrations.Invariant.{IsConsistent}
use uevent_backend.Registrations.Scanning.Outcome.{process_checkin_scan-success}
use uevent_backend.Registrations.Scanning.Consistency.{process_checkin_scan-IsConsistent}
use uevent_backend.Lifecycle.Race.{successes-append}

-- The ticket that is written, and the tables after.
abbrev rewritten : TicketData → Ticket → Db → Ticket × Db
rewritten input t db =
    (patched input t, record db { tickets = update ticket_key t.id (patched input) db.tickets })

patch_ticket-eq-ok :
    (actor registration_id : ℕ) (input : TicketData) (db : Db) (t' : Ticket) (db' : Db)
    → patch_ticket actor registration_id input db ≡ ok (t', db')
    → (t : Ticket) × (first (is_live_of registration_id) db.tickets ≡ some t)
      × (rewritten input t db ≡ (t', db'))
unfolding patch_ticket get_object
patch_ticket-eq-ok actor registration_id input db t' db' done =
    let ((t, event), got, e₁) = >>=-eq-ok _ _ (t', db') done in
    let (_, _, e₂) = >>=-eq-ok _ _ (t', db') e₁ in
    let (ticket, found, f₁) = >>=-eq-ok _ _ (t, event) got in
    let (_, _, f₂) = >>=-eq-ok _ _ (t, event) f₁ in
    let (_, _, f₃) = >>=-eq-ok _ _ (t, event) f₂ in
    let (_, _, f₄) = >>=-eq-ok _ _ (t, event) f₃ in
    let same : ticket ≡ t = ap (λ (d : Ticket × Event). d.0) (ok-injective _ (t, event) f₄) in
    (t, or_raise-eq-ok _ not_found ticket found ∙ ap some same, ok-injective _ (t', db') e₂)

-- A ticket that has been admitted and then given another status by an organizer: the log has its
-- admission, and the ticket is not used. Before the scan the tables are consistent.
pub patch_ticket-process_checkin_scan :
    (h : Host) (scan : Scan) (actor registration_id : ℕ) (input : TicketData)
    (status : TicketStatus) (db : Db) (log : CheckinLog) (db' : Db) (t' : Ticket) (db'' : Db)
    → IsConsistent db
    → process_checkin_scan h scan db ≡ ok (log, db')
    → is_success log.result ≡ true
    → log.ticket_id ≡ some t'.id
    → input.status ≡ some status
    → is_used status ≡ false
    → patch_ticket actor registration_id input db' ≡ ok (t', db'')
    → (1 ≤ successes t'.id db''.checkin_logs)
      × (find ticket_key t'.id db''.tickets ≡ some t')
      × (is_used t'.status ≡ false)
      × (¬ IsConsistent db'')
patch_ticket-process_checkin_scan h scan actor registration_id input status db log db' t' db'' c
      scans s named given unused done =
    let c' = process_checkin_scan-IsConsistent h scan db log db' c scans in
    let a = process_checkin_scan-success h scan db log db' scans s in
    let (t, found, out) = patch_ticket-eq-ok actor registration_id input db' t' db'' done in
    let row =
      find-first ticket_key (is_live_of registration_id) db'.tickets t c'.tickets_keyed found in
    let written : find ticket_key t'.id db''.tickets ≡ some t' =
      subst (λ (d : Ticket × Db). find ticket_key d.0.id d.1.tickets ≡ some d.0) out
        (find-update_self ticket_key (patched input) (λ _. refl) t.id db'.tickets t row) in
    let now : is_used t'.status ≡ false =
      subst (λ (d : Ticket × Db). is_used d.0.status ≡ false) out (rw given unused) in
    let kept : db'.checkin_logs ≡ db''.checkin_logs =
      ap (λ (d : Ticket × Db). d.1.checkin_logs) out in
    let counted : 1 ≤ successes t'.id db''.checkin_logs = rw (← kept) (
      rw (ap (λ (d : Db). d.checkin_logs) a.tables)
        (successes-append log db.checkin_logs t'.id s named)) in
    (counted, written, now, λ broken. ground (arith, rw (written, now) at (broken.logged t'.id)))

-- A request that holds nothing but a capacity.
abbrev pub only_capacity : ℕ → EventData
only_capacity capacity = record (only_start 0) {
  start_at = none;
  max_capacity = some (some capacity);
}

-- With unique keys, an organizer may set the capacity of an event to a number above 0 that is below
-- the number of its registrations that take a place: the request passes the serializer and is
-- carried out, and the registrations stay.
pub update_event-overbooks :
    (actor event_id capacity : ℕ) (db : Db) (event : Event)
    → IsKeyed event_key db.events
    → get_event actor event_id db ≡ ok event
    → suc capacity < 2_147_483_648
    → suc capacity < active_registration_count event.id db.registrations
    → (saved : Event) × (db' : Db) × (is_valid (only_capacity (suc capacity)) db ≡ ok tt)
      × (update_event actor event_id (only_capacity (suc capacity)) db ≡ ok (saved, db'))
      × (find event_key event.id db'.events ≡ some saved)
      × (saved.max_capacity ≡ some (suc capacity))
      × (suc capacity < active_registration_count saved.id db'.registrations)
unfolding is_valid validate_fields fits check_columns fits_columns has_references validate
    validate_title validate_category validate_room validate_max_capacity ◌>>=◌ updated_event
    live_event
update_event-overbooks actor event_id capacity db event keyed got small taken =
    let input : EventData = only_capacity (suc capacity) in
    (
      (outcome actor input event db).0,
      (outcome actor input event db).1,
      ground arith,
      update_event-total actor event_id input db event keyed got (ground arith),
      find-update_self event_key (updated_event input) (λ _. refl) event.id db.events event
          (find-first event_key (λ e. alive e.deleted_at && e.id == event_id) db.events event keyed
            (get_event-live actor event_id db event got)),
      refl,
      taken,
    )
