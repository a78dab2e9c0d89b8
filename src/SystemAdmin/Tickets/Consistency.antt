-- ===== src/SystemAdmin/Tickets/Consistency.antt =====
-- What administrators do to tickets keeps the registration tables consistent.
use uevent_backend.Base.{◌≡◌, refl, subst, sym, ap, ◌∙◌, ℕ, some, true, false, not-eq-false, arith}
use uevent_backend.Base.Texts.{Text}
use uevent_backend.Common.Errors.{
  ok, >>=-eq-ok, or_raise-eq-ok, ok-injective, raise_if-eq-ok, not_found, does_not_exist,
}
use uevent_backend.Common.Host.{Host}
use uevent_backend.Orm.Table.{find, update}
use uevent_backend.Orm.Table.Laws.{IsKeyed-update, find-first, key-find}
use uevent_backend.Events.Models.{Event}
use uevent_backend.Registrations.Models.{
  EventRegistration, Ticket, CheckinLog, is_used, is_cancelled_ticket,
}
use uevent_backend.Registrations.State.{
  Db, event_key, registration_key, ticket_key, live_ticket, active_registration_count,
}
use uevent_backend.Registrations.Register.{is_full}
use uevent_backend.Registrations.Cancel.{Snapshot}
use uevent_backend.Registrations.Checkin.{Scan}
use uevent_backend.Registrations.Linkage.{Linked-update_both, OneEach-update}
use uevent_backend.Registrations.Capacity.{Fits-next, active-update}
use uevent_backend.Registrations.Admission.{Logged-update}
use uevent_backend.Registrations.Invariant.{IsConsistent}
use uevent_backend.Registrations.Cancelling.Consistency.{cancel_event_registration-IsConsistent}
use uevent_backend.Registrations.Scanning.Consistency.{process_checkin_scan-IsConsistent}
use uevent_backend.SystemAdmin.Audit.{AuditEntry}
use uevent_backend.SystemAdmin.Tickets.{
  cancel_ticket, check_restorable, restore_ticket, reinstated, revalidated, process_admin_checkin,
}

-- The row behind a live ticket, and the row behind its registration.
live_ticket-row :
    (i : ℕ) (db : Db) (t : Ticket)
    → IsConsistent db
    → live_ticket i db.tickets ≡ some t
    → find ticket_key t.id db.tickets ≡ some t
unfolding live_ticket
live_ticket-row i db t c e = find-first ticket_key _ db.tickets t c.tickets_keyed e

owner-row :
    (db : Db) (t : Ticket) (r : EventRegistration)
    → find registration_key t.registration_id db.registrations ≡ some r
    → find registration_key r.id db.registrations ≡ some r
owner-row db t r e =
    ap (λ (n : ℕ). find registration_key n db.registrations)
      (key-find registration_key t.registration_id db.registrations r e)
    ∙ e

pub cancel_ticket-IsConsistent :
    (h : Host) (actor ticket_id : ℕ) (reason : Text) (db : Db) (a : AuditEntry) (db' : Db)
    → IsConsistent db
    → cancel_ticket h actor ticket_id reason db ≡ ok (a, db')
    → IsConsistent db'
unfolding cancel_ticket
cancel_ticket-IsConsistent h actor ticket_id reason db a db' c e =
    let (t, found, e₁) = >>=-eq-ok _ _ (a, db') e in
    let (r, owner, e₂) = >>=-eq-ok _ _ (a, db') e₁ in
    let (_, _, e₃) = >>=-eq-ok _ _ (a, db') e₂ in
    let (_, _, e₄) = >>=-eq-ok _ _ (a, db') e₃ in
    let ((r', done), cancels, e₅) = >>=-eq-ok _ _ (a, db') e₄ in
    let row = live_ticket-row ticket_id db t c (or_raise-eq-ok _ not_found t found) in
    let owned = or_raise-eq-ok _ does_not_exist r owner in
    let same : t.registration_id ≡ r.id =
      sym (key-find registration_key t.registration_id db.registrations r owned) in
    let seen : Snapshot = record { registration = r; ticket = some t } in
    subst (λ (d : AuditEntry × Db). IsConsistent d.1) (ok-injective _ (a, db') e₅)
      (cancel_event_registration-IsConsistent h seen (some reason) db r' done c
        (record {
          registration = owner-row db t r owned;
          ticket_row =
              λ u s. subst (λ (x : Ticket). find ticket_key x.id db.tickets ≡ some x) (cc s) row;
          ticket_owner =
              λ u s. let tu : u ≡ t = cc s in ap (λ (x : Ticket). x.registration_id) tu ∙ same;
          no_ticket = λ n i u s p. cc;
        })
        cancels)

module _ (db : Db) (c : IsConsistent db) (t : Ticket) (r : EventRegistration) (event : Event)
    (row : find ticket_key t.id db.tickets ≡ some t)
    (owner : find registration_key t.registration_id db.registrations ≡ some r)
    (here : find event_key r.event_id db.events ≡ some event)
    (cancelled : is_cancelled_ticket t.status ≡ true)
    (room : is_full event.max_capacity (active_registration_count event.id db.registrations)
      ≡ false) where
  reinstated-IsConsistent : IsConsistent (record db {
    registrations = update registration_key r.id reinstated db.registrations;
    tickets = update ticket_key t.id revalidated db.tickets;
  })
  reinstated-IsConsistent =
      let at : event.id ≡ r.event_id = key-find event_key r.event_id db.events event here in
      let found = owner-row db t r owner in
      record {
        events_keyed = c.events_keyed;
        registrations_keyed =
            IsKeyed-update registration_key reinstated (λ _. refl) r.id db.registrations
              c.registrations_keyed;
        tickets_keyed =
            IsKeyed-update ticket_key revalidated (λ _. refl) t.id db.tickets c.tickets_keyed;
        linked =
            Linked-update_both reinstated (λ _. refl) revalidated (λ _. refl) (λ _. refl) r.id t.id
              r t db.registrations db.tickets c.linked c.one_each found row
              (sym (key-find registration_key t.registration_id db.registrations r owner)) refl;
        one_each = OneEach-update revalidated (λ _. refl) (λ _. refl) t.id db.tickets c.one_each;
        logged =
            Logged-update revalidated (λ _. refl) t.id t db.checkin_logs db.tickets c.logged row
              (λ used. absurd (not_both t used));
        fits =
            Fits-next db.events db.registrations _ event (reinstated r) c.fits
              (ap (λ (n : ℕ). find event_key n db.events) at ∙ here) room (sym at)
              (active-update reinstated r.id r db.registrations found);
      }
    where
      not_both : (u : Ticket) → is_used t.status ≡ true → ⊥
      not_both u used = ground arith

check_restorable-eq-ok :
    (now : ℕ) (t : Ticket) (r : EventRegistration) (event : Event) (active : ℕ) (u : Unit)
    → check_restorable now t r event active ≡ ok u
    → (is_cancelled_ticket t.status ≡ true) × (is_full event.max_capacity active ≡ false)
unfolding check_restorable
check_restorable-eq-ok now t r event active u e =
    let (u₁, cancelled, e₁) = >>=-eq-ok _ _ u e in
    let (_, _, e₂) = >>=-eq-ok _ _ u e₁ in
    let (_, _, e₃) = >>=-eq-ok _ _ u e₂ in
    let (_, _, e₄) = >>=-eq-ok _ _ u e₃ in
    let (_, _, e₅) = >>=-eq-ok _ _ u e₄ in
    (not-eq-false _ (raise_if-eq-ok _ _ u₁ cancelled), raise_if-eq-ok _ _ u e₅)

pub restore_ticket-IsConsistent :
    (h : Host) (actor ticket_id : ℕ) (db : Db) (a : AuditEntry) (db' : Db)
    → IsConsistent db
    → restore_ticket h actor ticket_id db ≡ ok (a, db')
    → IsConsistent db'
unfolding restore_ticket
restore_ticket-IsConsistent h actor ticket_id db a db' c e =
    let (t, found, e₁) = >>=-eq-ok _ _ (a, db') e in
    let (r, owner, e₂) = >>=-eq-ok _ _ (a, db') e₁ in
    let (event, here, e₃) = >>=-eq-ok _ _ (a, db') e₂ in
    let (u, checked, e₄) = >>=-eq-ok _ _ (a, db') e₃ in
    let (cancelled, room) = check_restorable-eq-ok h.now t r event _ u checked in
    subst (λ (d : AuditEntry × Db). IsConsistent d.1) (ok-injective _ (a, db') e₄)
      (reinstated-IsConsistent db c t r event
        (live_ticket-row ticket_id db t c (or_raise-eq-ok _ not_found t found))
        (or_raise-eq-ok _ does_not_exist r owner) (or_raise-eq-ok _ does_not_exist event here)
        cancelled room)

pub process_admin_checkin-IsConsistent :
    (h : Host) (actor : ℕ) (scan : Scan) (db : Db) (log : CheckinLog) (a : AuditEntry) (db' : Db)
    → IsConsistent db
    → process_admin_checkin h actor scan db ≡ ok (log, a, db')
    → IsConsistent db'
unfolding process_admin_checkin
process_admin_checkin-IsConsistent h actor scan db log a db' c e =
    let (_, _, e₁) = >>=-eq-ok _ _ (log, a, db') e in
    let ((log', done), scanned, e₂) = >>=-eq-ok _ _ (log, a, db') e₁ in
    subst (λ (d : CheckinLog × AuditEntry × Db). IsConsistent d.2) (ok-injective _ (log, a, db') e₂)
      (process_checkin_scan-IsConsistent h scan db log' done c scanned)
