-- ===== src/Registrations/Scanning/Outcome.antt =====
-- When a scan is a success, and what it then does.
use uevent_backend.Base.{ℕ, ◌≡◌, refl, ap, ◌∙◌, subst, true, false, none, some}
use uevent_backend.Common.Errors.{ok, >>=-eq-ok, or_raise-eq-ok, ok-injective, does_not_exist}
use uevent_backend.Common.Host.{Host}
use uevent_backend.Orm.Table.{find, update, append}
use uevent_backend.Events.Models.{Event}
use uevent_backend.Registrations.Models.{
  EventRegistration, Ticket, CheckinResult, CheckinLog, is_success, is_checked_in,
}
use uevent_backend.Registrations.State.{Db, registration_key, ticket_key, live_event}
use uevent_backend.Registrations.Checkin.{
  Scan, Resolved, bad_signature, resolved, Verdict, refuse, expire, admit, judge, carry_out,
  used_ticket, checked_in_registration, scan_ticket, resolve, log_entry, process_checkin_scan,
}
use uevent_backend.Registrations.Scanning.Verdicts.{IsAdmissible, judge-admit_iff, judge-refuse}

-- The tables after a ticket and its registration have been admitted.
abbrev pub admitted_tables : Host → Ticket → EventRegistration → CheckinLog → Db → Db
admitted_tables h t r log db = record db {
  tickets = update ticket_key t.id (used_ticket h.now) db.tickets;
  registrations = update registration_key r.id checked_in_registration db.registrations;
  checkin_logs = append db.checkin_logs log;
}

-- What a scan found, where it has logged a success.
pub record IsAdmission (h : Host) (scan : Scan) (db : Db) (log : CheckinLog) (db' : Db)
    : Type 0 where
  pub event : Event
  pub ticket : Ticket
  pub registration : EventRegistration
  pub live : live_event scan.event_id db.events ≡ some event
  pub found : resolve h event.id scan db ≡ ok (resolved (some ticket))
  pub owner : find registration_key ticket.registration_id db.registrations ≡ some registration
  pub admissible : IsAdmissible h.now event ticket registration
  pub entry : log ≡ log_entry h event (resolved (some ticket)) scan CheckinResult.success
  pub tables : db' ≡ admitted_tables h ticket registration log db

carry_out-success :
    (now : ℕ) (v : Verdict) (t : Ticket) (r : EventRegistration) (db : Db)
    → ((result : CheckinResult) → v ≡ refuse result → is_success result ≡ false)
    → is_success (carry_out now v t r db).0 ≡ true
    → v ≡ admit
unfolding carry_out
carry_out-success now (refuse result) t r db fails s = cc (fails result refl)
carry_out-success now expire t r db fails s = cc
carry_out-success now admit t r db fails s = refl

-- The tables that an admission leaves, its log entry still to be written.
abbrev carried : Host → Ticket → EventRegistration → Db → Db
carried h t r db = record db {
  tickets = update ticket_key t.id (used_ticket h.now) db.tickets;
  registrations = update registration_key r.id checked_in_registration db.registrations;
}

carried-of :
    (h : Host) (t : Ticket) (r : EventRegistration) (db : Db) (done : CheckinResult × Db)
    → is_checked_in r.status ≡ false
    → carry_out h.now admit t r db ≡ done
    → (CheckinResult.success, carried h t r db) ≡ done
unfolding carry_out
carried-of h t r db done coming out = rw coming at out

scan_ticket-success :
    (h : Host) (event : Event) (found : Resolved) (db : Db) (done : CheckinResult × Db)
    → scan_ticket h event found db ≡ ok done
    → is_success done.0 ≡ true
    → (t : Ticket) × (r : EventRegistration) × (found ≡ resolved (some t))
      × (find registration_key t.registration_id db.registrations ≡ some r)
      × IsAdmissible h.now event t r
      × ((CheckinResult.success, carried h t r db) ≡ done)
unfolding scan_ticket
scan_ticket-success h event bad_signature db done e s =
    cc (ap (λ (d : CheckinResult × Db). is_success d.0) (ok-injective _ done e))
scan_ticket-success h event (resolved none) db done e s =
    cc (ap (λ (d : CheckinResult × Db). is_success d.0) (ok-injective _ done e))
scan_ticket-success h event (resolved (some t)) db done e s =
    let (r, owner, e₁) = >>=-eq-ok _ _ done e in
    let out = ok-injective _ done e₁ in
    let admits =
      carry_out-success h.now (judge h.now event t r) t r db
        (λ result. judge-refuse h.now event t r result) (rw out s) in
    let a = (judge-admit_iff h.now event t r).0 admits in
    (
      t,
      r,
      refl,
      or_raise-eq-ok _ does_not_exist r owner,
      a,
      carried-of h t r db done a.coming (rw admits at out),
    )

logged-IsAdmission :
    (h : Host) (scan : Scan) (event : Event) (db : Db) (found : Resolved)
    (done : CheckinResult × Db) (t : Ticket) (r : EventRegistration)
    → live_event scan.event_id db.events ≡ some event
    → resolve h event.id scan db ≡ ok found
    → found ≡ resolved (some t)
    → find registration_key t.registration_id db.registrations ≡ some r
    → IsAdmissible h.now event t r
    → (CheckinResult.success, carried h t r db) ≡ done
    → IsAdmission h scan db (log_entry h event found scan done.0) (record done.1 {
      checkin_logs = append done.1.checkin_logs (log_entry h event found scan done.0);
    })
logged-IsAdmission h scan event db found done t r live resolves is owner a out =
    subst
      (λ (d : CheckinResult × Db).
        IsAdmission h scan db (log_entry h event found scan d.0) (record d.1 {
          checkin_logs = append d.1.checkin_logs (log_entry h event found scan d.0);
        }))
      out
      (record {
        event = event;
        ticket = t;
        registration = r;
        live = live;
        found = resolves ∙ ap ok is;
        owner = owner;
        admissible = a;
        entry = ap (λ (f : Resolved). log_entry h event f scan CheckinResult.success) is;
        tables = refl;
      })

-- Where a scan logs a success, it has found an admissible ticket, and has admitted it.
pub process_checkin_scan-success :
    (h : Host) (scan : Scan) (db : Db) (log : CheckinLog) (db' : Db)
    → process_checkin_scan h scan db ≡ ok (log, db')
    → is_success log.result ≡ true
    → IsAdmission h scan db log db'
unfolding process_checkin_scan
process_checkin_scan-success h scan db log db' e s =
    let (event, live, e₁) = >>=-eq-ok _ _ (log, db') e in
    let (found, resolves, e₂) = >>=-eq-ok _ _ (log, db') e₁ in
    let ((result, done), scans, e₃) = >>=-eq-ok _ _ (log, db') e₂ in
    let logs = ok-injective _ (log, db') e₃ in
    let (t, r, is, owner, a, out) =
      scan_ticket-success h event found db (result, done) scans
        (ap (λ (d : CheckinLog × Db). is_success d.0.result) logs ∙ s) in
    subst (λ (d : CheckinLog × Db). IsAdmission h scan db d.0 d.1) logs
      (logged-IsAdmission h scan event db found (result, done) t r
        (or_raise-eq-ok _ does_not_exist event live) resolves is owner a out)
