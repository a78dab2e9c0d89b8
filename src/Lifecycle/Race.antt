-- ===== src/Lifecycle/Race.antt =====
-- A cancellation that overlaps a scan. The view loads the registration and its ticket, and
-- `cancel_event_registration` (apps/registrations/services.py) neither locks them nor reads them
-- again, so that a scan may come in between.
use uevent_backend.Base.{
  ◌≡◌, ◌≤◌, refl, ap, subst, sym, ◌∙◌, ℕ, Bool, Option, some, true, List, arith,
}
use uevent_backend.Base.Texts.{Text}
use uevent_backend.Common.Errors.{ok, >>=-eq-ok, ok-injective}
use uevent_backend.Common.Host.{Host}
use uevent_backend.Orm.Table.{find, update, append}
use uevent_backend.Orm.Table.Laws.{find-update_self, count-append}
use uevent_backend.Registrations.Models.{
  EventRegistration, Ticket, TicketStatus, CheckinLog, is_success, is_cancelled_ticket,
}
use uevent_backend.Registrations.State.{Db, ticket_key}
use uevent_backend.Registrations.Cancel.{
  Snapshot, load, cancel_ticket_of, cancelled_ticket, cancel_event_registration,
}
use uevent_backend.Registrations.Checkin.{Scan, used_ticket, process_checkin_scan}
use uevent_backend.Registrations.Admission.{is_success_of, successes, uses}
use uevent_backend.Registrations.Invariant.{IsConsistent}
use uevent_backend.Registrations.Scanning.Found.{resolve-IsRow}
use uevent_backend.Registrations.Scanning.Outcome.{IsAdmission, process_checkin_scan-success}
use uevent_backend.Registrations.Cancelling.Consistency.{load-IsCurrent}

-- The tickets after a cancellation are those that the loaded ticket leads to.
cancel_event_registration-tickets :
    (h : Host) (seen : Snapshot) (reason : Option Text) (db : Db) (r : EventRegistration) (db' : Db)
    → cancel_event_registration h seen reason db ≡ ok (r, db')
    → (cancel_ticket_of seen.ticket db.tickets ≡ db'.tickets) × (db.checkin_logs ≡ db'.checkin_logs)
unfolding cancel_event_registration
cancel_event_registration-tickets h seen reason db r db' e =
    let (_, _, e₁) = >>=-eq-ok _ _ (r, db') e in
    let (_, _, e₂) = >>=-eq-ok _ _ (r, db') e₁ in
    let (_, _, e₃) = >>=-eq-ok _ _ (r, db') e₂ in
    let out = ok-injective _ (r, db') e₃ in
    (
      ap (λ (d : EventRegistration × Db). d.1.tickets) out,
      ap (λ (d : EventRegistration × Db). d.1.checkin_logs) out,
    )

-- Cancelling the ticket that was valid when it was loaded.
cancelled-used :
    (now : ℕ) (t : Ticket) (tickets : List Ticket)
    → find ticket_key t.id tickets ≡ some t
    → t.status ≡ TicketStatus.valid
    → find ticket_key t.id
        (cancel_ticket_of (some t) (update ticket_key t.id (used_ticket now) tickets))
      ≡ some (cancelled_ticket (used_ticket now t))
unfolding cancel_ticket_of
cancelled-used now t tickets row valid =
    let used = find-update_self ticket_key (used_ticket now) (λ _. refl) t.id tickets t row in
    rw (ap (λ (s : TicketStatus). is_cancelled_ticket s) valid)
      (find-update_self ticket_key cancelled_ticket (λ _. refl) t.id _ (used_ticket now t) used)

pub successes-append :
    (l : CheckinLog) (logs : List CheckinLog) (i : ℕ)
    → is_success l.result ≡ true
    → l.ticket_id ≡ some i
    → 1 ≤ successes i (append logs l)
unfolding successes
successes-append l logs i s named = ground (arith, count-append (is_success_of i) logs l)

-- The tickets and the log that a scan leaves, where it has admitted `t`.
admission-tickets :
    (h : Host) (scan : Scan) (db : Db) (log : CheckinLog) (db' : Db) (t : Ticket)
    (a : IsAdmission h scan db log db')
    → a.ticket ≡ t
    → (db'.tickets ≡ update ticket_key t.id (used_ticket h.now) db.tickets)
      × (db'.checkin_logs ≡ append db.checkin_logs log)
admission-tickets h scan db log db' t a same = (
  ap (λ (d : Db). d.tickets) a.tables
      ∙ ap (λ (u : Ticket). update ticket_key u.id (used_ticket h.now) db.tickets) same,
  ap (λ (d : Db). d.checkin_logs) a.tables,
)

-- The ticket that the log names is the one that was loaded.
admission-ticket :
    (h : Host) (scan : Scan) (db : Db) (log : CheckinLog) (db' : Db) (t : Ticket)
    (a : IsAdmission h scan db log db')
    → IsConsistent db
    → find ticket_key t.id db.tickets ≡ some t
    → log.ticket_id ≡ some t.id
    → a.ticket ≡ t
admission-ticket h scan db log db' t a c row named =
    let found = resolve-IsRow h db c.tickets_keyed a.event.id scan a.ticket a.found in
    let key : some a.ticket.id ≡ some t.id =
      sym (ap (λ (l : CheckinLog). l.ticket_id) a.entry) ∙ named in
    let key' : a.ticket.id ≡ t.id = cc key in cc (ap (λ (i : ℕ). find ticket_key i db.tickets) key')

-- A cancellation that has loaded a registration from consistent tables, before a scan admits its
-- ticket, and that goes through after the scan, leaves tables that are not consistent: the log has
-- admitted a ticket that is not used.
pub late_cancel-not-IsConsistent :
    (h h' : Host) (p : EventRegistration → Bool) (scan : Scan) (reason : Option Text) (db : Db)
    (seen : Snapshot) (t : Ticket) (log : CheckinLog) (db' : Db) (r : EventRegistration) (db'' : Db)
    → IsConsistent db
    → load p db ≡ ok seen
    → seen.ticket ≡ some t
    → process_checkin_scan h scan db ≡ ok (log, db')
    → is_success log.result ≡ true
    → log.ticket_id ≡ some t.id
    → cancel_event_registration h' seen reason db' ≡ ok (r, db'')
    → ¬ IsConsistent db''
late_cancel-not-IsConsistent h h' p scan reason db seen t log db' r db'' c loads has scans s named e
      broken =
    let row = (load-IsCurrent p db seen c loads).ticket_row t has in
    let a = process_checkin_scan-success h scan db log db' scans s in
    let same = admission-ticket h scan db log db' t a c row named in
    let (tickets', logs') = admission-tickets h scan db log db' t a same in
    let (tickets, logs) = cancel_event_registration-tickets h' seen reason db' r db'' e in
    let valid : t.status ≡ TicketStatus.valid =
      subst (λ (u : Ticket). u.status ≡ TicketStatus.valid) same a.admissible.valid in
    let found : find ticket_key t.id db''.tickets ≡ some (cancelled_ticket (used_ticket h.now t)) =
      ap (find ticket_key t.id) (sym tickets ∙ rw (has, tickets') refl)
      ∙ cancelled-used h.now t db.tickets row valid in
    let unused : uses (find ticket_key t.id db''.tickets) ≡ 0 = ap uses found in
    let counted : 1 ≤ successes t.id db''.checkin_logs =
      subst (λ (l : List CheckinLog). 1 ≤ successes t.id l) (sym logs' ∙ logs)
        (successes-append log db.checkin_logs t.id s named) in
    omega (arith, broken.logged t.id)
