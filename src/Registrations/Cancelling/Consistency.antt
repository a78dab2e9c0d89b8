-- ===== src/Registrations/Cancelling/Consistency.antt =====
-- Cancelling a registration that has not changed since it was loaded keeps the tables consistent.
use uevent_backend.Base.{
  ◌≡◌, ◌≢◌, refl, ap, subst, sym, ◌∙◌, ℕ, Bool, Option, none, some, false, List, inl, inr, ◌==◌,
  Option-cases, Bool-cases, ==_iff,
}
use uevent_backend.Base.Texts.{Text}
use uevent_backend.Common.Errors.{
  ok, >>=-eq-ok, or_raise-eq-ok, ok-injective, raise_if-eq-ok, not_found,
}
use uevent_backend.Common.Host.{Host}
use uevent_backend.Orm.Table.{find, update}
use uevent_backend.Orm.Table.Laws.{
  IsKeyed, IsKeyed-update, find-first, first-eq-some, first-eq-none,
}
use uevent_backend.Registrations.Models.{
  EventRegistration, Ticket, is_checked_in, is_cancelled_ticket, is_used,
}
use uevent_backend.Registrations.State.{Db, registration_key, ticket_key, ticket_of}
use uevent_backend.Registrations.Cancel.{
  Snapshot, cancelled, cancelled_ticket, cancel_ticket_of, cancel_event_registration, load,
}
use uevent_backend.Registrations.Linkage.{
  IsLinked, Linked, OneEach, Linked-update_registration, Linked-update_both, OneEach-update,
  unused-of_coming, IsLinked-of_cancelled,
}
use uevent_backend.Registrations.Capacity.{Fits-fewer, active-update-fewer}
use uevent_backend.Registrations.Admission.{Logged, Logged-update}
use uevent_backend.Registrations.Invariant.{IsConsistent, IsConsistent-mailbox}

-- The tables still hold what was loaded.
pub record IsCurrent (seen : Snapshot) (db : Db) : Type 0 where
  pub registration :
      find registration_key seen.registration.id db.registrations ≡ some seen.registration
  pub ticket_row : (t : Ticket) → seen.ticket ≡ some t → find ticket_key t.id db.tickets ≡ some t
  pub ticket_owner : (t : Ticket) → seen.ticket ≡ some t → t.registration_id ≡ seen.registration.id
  pub no_ticket :
      seen.ticket ≡ none
      → (i : ℕ) (t : Ticket) → find ticket_key i db.tickets ≡ some t
      → t.registration_id ≢ seen.registration.id

-- The two tables after a cancellation.
module _ (h : Host) (reason : Option Text) (r : EventRegistration) {db : Db} (c : IsConsistent db)
    (found : find registration_key r.id db.registrations ≡ some r)
    (coming : is_checked_in r.status ≡ false) where
  abbrev rows : List EventRegistration
  rows = update registration_key r.id (cancelled h reason) db.registrations

  -- What is left to show after a cancellation, with these tickets.
  after :
      (tickets : List Ticket)
      → IsKeyed ticket_key tickets
      → Linked rows tickets
      → OneEach tickets
      → Logged db.checkin_logs tickets
      → IsConsistent (record db { registrations = rows; tickets = tickets })
  after tickets keyed linked one logged = record {
    events_keyed = c.events_keyed;
    registrations_keyed =
        IsKeyed-update registration_key (cancelled h reason) (λ _. refl) r.id db.registrations
          c.registrations_keyed;
    tickets_keyed = keyed;
    linked = linked;
    one_each = one;
    logged = logged;
    fits = Fits-fewer db.events db.registrations rows c.fits (
        active-update-fewer (cancelled h reason) r.id r db.registrations found refl refl (λ e. cc));
  }

  without_ticket-IsConsistent :
      ((i : ℕ) (t : Ticket) → find ticket_key i db.tickets ≡ some t → t.registration_id ≢ r.id)
      → IsConsistent (record db { registrations = rows })
  without_ticket-IsConsistent free =
      after db.tickets c.tickets_keyed
        (Linked-update_registration (cancelled h reason) (λ _. refl) r.id r db.registrations
          db.tickets c.linked found (λ j t e p. absurd (free j t e p)))
        c.one_each c.logged

  module _ (t : Ticket) (row : find ticket_key t.id db.tickets ≡ some t)
      (owns : t.registration_id ≡ r.id) where
    -- A ticket of the registration is this one.
    other :
        (j : ℕ) (u : Ticket)
        → find ticket_key j db.tickets ≡ some u
        → u.registration_id ≡ r.id
        → u ≡ t
    other j u e p =
        let same : j ≡ t.id = c.one_each j t.id u t e row (p ∙ sym owns) in
        cc (ap (λ (n : ℕ). find ticket_key n db.tickets) same)

    with_ticket-IsConsistent :
        IsConsistent
          (record db { registrations = rows; tickets = cancel_ticket_of (some t) db.tickets })
    unfolding cancel_ticket_of
    with_ticket-IsConsistent = elim (Bool-cases (is_cancelled_ticket t.status)) [
      | inl e ↦ rw e (
          after db.tickets c.tickets_keyed
            (Linked-update_registration (cancelled h reason) (λ _. refl) r.id r db.registrations
              db.tickets c.linked found
              (λ j u eu p.
                IsLinked-of_cancelled u.status _
                  (ap (λ (x : Ticket). is_cancelled_ticket x.status) (other j u eu p) ∙ e)))
            c.one_each c.logged)
      | inr e ↦
          let unused : is_used t.status ≡ false = unused-of_coming t.status r coming (
            subst (IsLinked t.status)
              (ap (λ (n : ℕ). find registration_key n db.registrations) owns ∙ found)
              (c.linked t.id t row)) in
          rw e (
            after (update ticket_key t.id cancelled_ticket db.tickets)
              (IsKeyed-update ticket_key cancelled_ticket (λ _. refl) t.id db.tickets
                c.tickets_keyed)
              (Linked-update_both (cancelled h reason) (λ _. refl) cancelled_ticket (λ _. refl)
                (λ _. refl) r.id t.id r t db.registrations db.tickets c.linked c.one_each found row
                owns tt)
              (OneEach-update cancelled_ticket (λ _. refl) (λ _. refl) t.id db.tickets c.one_each)
              (Logged-update cancelled_ticket (λ _. refl) t.id t db.checkin_logs db.tickets c.logged
                row (λ u. cc)))
    ]

cancelled_tables-IsConsistent :
    (h : Host) (seen : Snapshot) (reason : Option Text) {db : Db}
    → IsConsistent db
    → IsCurrent seen db
    → is_checked_in seen.registration.status ≡ false
    → IsConsistent (record db {
      registrations =
          update registration_key seen.registration.id (cancelled h reason) db.registrations;
      tickets = cancel_ticket_of seen.ticket db.tickets;
    })
unfolding cancel_ticket_of
cancelled_tables-IsConsistent h seen reason {db} c current coming =
    elim (Option-cases seen.ticket) [
      | inl n ↦ subst (tables) (sym n) (
          without_ticket-IsConsistent h reason seen.registration c current.registration coming
            (current.no_ticket n))
      | inr (t, s) ↦ subst (tables) (sym s) (
          with_ticket-IsConsistent h reason seen.registration c current.registration coming t
            (current.ticket_row t s) (current.ticket_owner t s))
    ]
  where
    tables : Option Ticket → Type 0
    tables o = IsConsistent (record db {
      registrations =
          update registration_key seen.registration.id (cancelled h reason) db.registrations;
      tickets = cancel_ticket_of o db.tickets;
    })

-- Cancelling what is still current keeps the tables consistent.
pub cancel_event_registration-IsConsistent :
    (h : Host) (seen : Snapshot) (reason : Option Text) (db : Db) (r : EventRegistration) (db' : Db)
    → IsConsistent db
    → IsCurrent seen db
    → cancel_event_registration h seen reason db ≡ ok (r, db')
    → IsConsistent db'
unfolding cancel_event_registration
cancel_event_registration-IsConsistent h seen reason db r db' c current e =
    let (_, _, e₁) = >>=-eq-ok _ _ (r, db') e in
    let (u, coming, e₂) = >>=-eq-ok _ _ (r, db') e₁ in
    let (r', _, e₃) = >>=-eq-ok _ _ (r, db') e₂ in
    subst (λ (d : EventRegistration × Db). IsConsistent d.1) (ok-injective _ (r, db') e₃)
      (IsConsistent-mailbox _ (
        cancelled_tables-IsConsistent h seen reason c current
          (raise_if-eq-ok (is_checked_in seen.registration.status) _ u coming)))

-- A registration that has just been loaded is current.
pub load-IsCurrent :
    (p : EventRegistration → Bool) (db : Db) (seen : Snapshot)
    → IsConsistent db
    → load p db ≡ ok seen
    → IsCurrent seen db
unfolding load ticket_of
load-IsCurrent p db seen c e =
    let (r, found, e₁) = >>=-eq-ok _ _ seen e in
    let first_row = or_raise-eq-ok _ not_found r found in
    let row = find-first registration_key _ db.registrations r c.registrations_keyed first_row in
    subst (λ (s : Snapshot). IsCurrent s db) (ok-injective _ seen e₁)
      (record {
        registration = row;
        ticket_row = λ t s. find-first ticket_key _ db.tickets t c.tickets_keyed s;
        ticket_owner = λ t s. (==_iff t.registration_id r.id).0 (first-eq-some _ db.tickets t s);
        no_ticket = λ n i t s p. cc (
          (==_iff t.registration_id r.id).1 p,
          first-eq-none ticket_key (λ (u : Ticket). u.registration_id == r.id) i db.tickets t n s,
        );
      })
