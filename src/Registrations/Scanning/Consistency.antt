-- ===== src/Registrations/Scanning/Consistency.antt =====
-- Every scan keeps the registration tables consistent.
use uevent_backend.Base.{◌≡◌, refl, ap, subst, ◌∙◌, ℕ, none, some, false}
use uevent_backend.Common.Errors.{ok, >>=-eq-ok, or_raise-eq-ok, ok-injective, does_not_exist}
use uevent_backend.Common.Host.{Host}
use uevent_backend.Orm.Table.{find, update, append}
use uevent_backend.Orm.Table.Laws.{key-find, IsKeyed-update}
use uevent_backend.Events.Models.{Event}
use uevent_backend.Registrations.Models.{
  EventRegistration, RegistrationStatus, Ticket, TicketStatus, CheckinResult, CheckinLog,
  is_success,
}
use uevent_backend.Registrations.State.{Db, registration_key, ticket_key}
use uevent_backend.Registrations.Checkin.{
  Scan, Resolved, bad_signature, resolved, Verdict, refuse, expire, admit, judge, carry_out,
  expired_ticket, used_ticket, checked_in_registration, scan_ticket, log_entry,
  process_checkin_scan,
}
use uevent_backend.Registrations.Linkage.{
  IsLinked, Linked-update_both, Linked-update_ticket, OneEach-update,
}
use uevent_backend.Registrations.Capacity.{Fits-fewer, active-update-fewer}
use uevent_backend.Registrations.Admission.{
  Logged-append_failure, Logged-append_success, Logged-update,
}
use uevent_backend.Registrations.Invariant.{IsConsistent}
use uevent_backend.Registrations.Scanning.Found.{IsRow, resolve-IsRow}
use uevent_backend.Registrations.Scanning.Verdicts.{judge-admit_iff, judge-expire, judge-refuse}

-- The state after a scan that has logged `l`.
abbrev with_log : Db → CheckinLog → Db
with_log db l = record db { checkin_logs = append db.checkin_logs l }

module _ {db : Db} (c : IsConsistent db) where
  -- A scan that writes nothing else logs a failure.
  refuse-IsConsistent :
      (l : CheckinLog) → is_success l.result ≡ false → IsConsistent (with_log db l)
  refuse-IsConsistent l failed = record {
    events_keyed = c.events_keyed;
    registrations_keyed = c.registrations_keyed;
    tickets_keyed = c.tickets_keyed;
    linked = c.linked;
    one_each = c.one_each;
    logged = Logged-append_failure l db.checkin_logs db.tickets c.logged failed;
    fits = c.fits;
  }

  module _ (t : Ticket) (row : IsRow db.tickets t) (is_valid : t.status ≡ TicketStatus.valid) where
    expire-IsConsistent :
        (l : CheckinLog)
        → is_success l.result ≡ false
        → IsConsistent
            (with_log (record db { tickets = update ticket_key t.id expired_ticket db.tickets }) l)
    expire-IsConsistent l failed = record {
      events_keyed = c.events_keyed;
      registrations_keyed = c.registrations_keyed;
      tickets_keyed =
          IsKeyed-update ticket_key expired_ticket (λ _. refl) t.id db.tickets c.tickets_keyed;
      linked =
          Linked-update_ticket expired_ticket (λ _. refl) (λ _. refl) t.id t db.registrations
            db.tickets c.linked row tt;
      one_each = OneEach-update expired_ticket (λ _. refl) (λ _. refl) t.id db.tickets c.one_each;
      logged =
          Logged-append_failure l db.checkin_logs _
            (Logged-update expired_ticket (λ _. refl) t.id t db.checkin_logs db.tickets c.logged row
              (rw is_valid (λ e. cc)))
            failed;
      fits = c.fits;
    }

    -- The registration of a valid ticket is registered.
    registered :
        (r : EventRegistration)
        → find registration_key t.registration_id db.registrations ≡ some r
        → r.status ≡ RegistrationStatus.registered
    registered r found =
        subst (λ (s : TicketStatus). IsLinked s (some r)) is_valid
          (rw found at (c.linked t.id t row))

    admit-IsConsistent :
        (now : ℕ) (r : EventRegistration) (l : CheckinLog)
        → find registration_key t.registration_id db.registrations ≡ some r
        → l.ticket_id ≡ some t.id
        → IsConsistent (
            with_log
              (record db {
                tickets = update ticket_key t.id (used_ticket now) db.tickets;
                registrations =
                    update registration_key t.registration_id checked_in_registration
                      db.registrations;
              })
              l)
    admit-IsConsistent now r l found named = record {
      events_keyed = c.events_keyed;
      registrations_keyed =
          IsKeyed-update registration_key checked_in_registration (λ _. refl) t.registration_id
            db.registrations c.registrations_keyed;
      tickets_keyed =
          IsKeyed-update ticket_key (used_ticket now) (λ _. refl) t.id db.tickets c.tickets_keyed;
      linked =
          Linked-update_both checked_in_registration (λ _. refl) (used_ticket now) (λ _. refl)
            (λ _. refl) t.registration_id t.id r t db.registrations db.tickets c.linked c.one_each
            found row refl refl;
      one_each =
          OneEach-update (used_ticket now) (λ _. refl) (λ _. refl) t.id db.tickets c.one_each;
      logged =
          Logged-append_success (used_ticket now) (λ _. refl) t.id t l db.checkin_logs db.tickets
            c.logged row (rw is_valid refl) refl named;
      fits = Fits-fewer db.events db.registrations _ c.fits (
          active-update-fewer checked_in_registration t.registration_id r db.registrations found
            refl refl (λ _. rw (registered r found) refl));
    }

module _ (h : Host) (event : Event) (scan : Scan) {db : Db} (c : IsConsistent db) where
  -- The state that a scan leaves, its log entry written.
  abbrev logged_state : Resolved → CheckinResult × Db → Db
  logged_state found (result, db') = with_log db' (log_entry h event found scan result)

  carry_out-IsConsistent :
      (t : Ticket) (r : EventRegistration) (v : Verdict)
      → IsRow db.tickets t
      → find registration_key t.registration_id db.registrations ≡ some r
      → judge h.now event t r ≡ v
      → IsConsistent (logged_state (resolved (some t)) (carry_out h.now v t r db))
  unfolding carry_out
  carry_out-IsConsistent t r (refuse result) row found e =
      refuse-IsConsistent c _ (judge-refuse h.now event t r result e)
  carry_out-IsConsistent t r expire row found e =
      expire-IsConsistent c t row (judge-expire h.now event t r e) _ refl
  carry_out-IsConsistent t r admit row found e =
      let a = (judge-admit_iff h.now event t r).0 e in
      let same : r.id ≡ t.registration_id =
        key-find registration_key t.registration_id db.registrations r found in
      rw (a.coming, same)
        (admit-IsConsistent c t row a.valid h.now r
          (log_entry h event (resolved (some t)) scan CheckinResult.success) found refl)

  scan_ticket-IsConsistent :
      (found : Resolved) (done : CheckinResult × Db)
      → ((t : Ticket) → found ≡ resolved (some t) → IsRow db.tickets t)
      → scan_ticket h event found db ≡ ok done
      → IsConsistent (logged_state found done)
  unfolding scan_ticket
  scan_ticket-IsConsistent bad_signature done rows e =
      subst (λ (d : CheckinResult × Db). IsConsistent (logged_state bad_signature d))
        (ok-injective (CheckinResult.invalid_format, db) done e) (refuse-IsConsistent c _ refl)
  scan_ticket-IsConsistent (resolved none) done rows e =
      subst (λ (d : CheckinResult × Db). IsConsistent (logged_state (resolved none) d))
        (ok-injective (CheckinResult.invalid_ticket, db) done e) (refuse-IsConsistent c _ refl)
  scan_ticket-IsConsistent (resolved (some t)) done rows e =
      let (r, found, judged) = >>=-eq-ok _ _ done e in
      subst (λ (d : CheckinResult × Db). IsConsistent (logged_state (resolved (some t)) d))
        (ok-injective _ done judged)
        (carry_out-IsConsistent t r _ (rows t refl) (or_raise-eq-ok _ does_not_exist r found) refl)

-- A scan that returns leaves consistent tables.
pub process_checkin_scan-IsConsistent :
    (h : Host) (scan : Scan) (db : Db) (log : CheckinLog) (db' : Db)
    → IsConsistent db
    → process_checkin_scan h scan db ≡ ok (log, db')
    → IsConsistent db'
unfolding process_checkin_scan
process_checkin_scan-IsConsistent h scan db log db' c e =
    let (event, _, e₁) = >>=-eq-ok _ _ (log, db') e in
    let (found, resolves, e₂) = >>=-eq-ok _ _ (log, db') e₁ in
    let (done, scanned, e₃) = >>=-eq-ok _ _ (log, db') e₂ in
    subst (λ (d : CheckinLog × Db). IsConsistent d.1) (ok-injective _ (log, db') e₃)
      (scan_ticket-IsConsistent h event scan c found done
        (λ t same.
          resolve-IsRow h db c.tickets_keyed event.id scan t
            (resolves ∙ ap (λ (x : Resolved). ok x) same))
        scanned)
