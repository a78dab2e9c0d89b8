-- ===== src/Registrations/Registering/Issuing.antt =====
-- Issuing or restoring the ticket of a registered attendee keeps the tables consistent.
use uevent_backend.Base.{
  ◌≡◌, refl, ap, subst, sym, ◌∙◌, ℕ, Option, none, some, true, false, List, arith, inl, inr,
  Bool-cases, ==_iff, not, not-eq-false,
}
use uevent_backend.Common.Errors.{
  ok, >>=-eq-ok, or_raise-eq-ok, ok-injective, raise_if-eq-ok, does_not_exist,
}
use uevent_backend.Common.Host.{Host}
use uevent_backend.Orm.Table.{exists, find, update, append}
use uevent_backend.Orm.Table.Laws.{
  IsKeyed-update, IsKeyed-append, find-first, first-eq-some, first-eq-none, first-of_exists,
  find-eq-none,
}
use uevent_backend.Events.Models.{Event}
use uevent_backend.Registrations.Models.{
  EventRegistration, RegistrationStatus, Ticket, is_registered,
}
use uevent_backend.Registrations.State.{
  Db, registration_key, ticket_key, ticket_of, live_registration,
}
use uevent_backend.Registrations.Tickets.{
  default_ticket, clashes_with, insert_ticket, issue_default_ticket, restored, restore_or_issue,
  restore_ticket_for_registration, create_ticket_for_registration,
}
use uevent_backend.Registrations.Linkage.{
  IsLinked, Linked-append_ticket, OneEach-append, Linked-update_ticket, OneEach-update,
  unused-of_coming,
}
use uevent_backend.Registrations.Admission.{Logged-append_ticket, Logged-update}
use uevent_backend.Registrations.Invariant.{IsConsistent}

-- An INSERT that goes through has found no clash.
pub insert_ticket-eq-ok :
    (new : Ticket) (tickets tickets' : List Ticket)
    → insert_ticket new tickets ≡ ok tickets'
    → (exists (clashes_with new) tickets ≡ false) × (tickets' ≡ append tickets new)
unfolding insert_ticket
insert_ticket-eq-ok new tickets tickets' e = elim (Bool-cases (exists (clashes_with new) tickets)) [
  | inl clash ↦ ground arith
  | inr free ↦ (free, ground arith)
]

insert_ticket-IsConsistent :
    {db : Db} (new : Ticket) (r : EventRegistration) (tickets : List Ticket)
    → IsConsistent db
    → find registration_key new.registration_id db.registrations ≡ some r
    → IsLinked new.status (some r)
    → insert_ticket new db.tickets ≡ ok tickets
    → IsConsistent (record db { tickets = tickets })
insert_ticket-IsConsistent {db} new r tickets c found suits e =
    let (free, is_append) = insert_ticket-eq-ok new db.tickets tickets e in
    subst (λ (ts : List Ticket). IsConsistent (record db { tickets = ts })) (sym is_append)
      (record {
        events_keyed = c.events_keyed;
        registrations_keyed = c.registrations_keyed;
        tickets_keyed = IsKeyed-append ticket_key db.tickets new c.tickets_keyed (
            find-eq-none ticket_key (clashes_with new) new.id db.tickets (λ t p. ground arith)
              free);
        linked = Linked-append_ticket new db.registrations db.tickets c.linked (rw found suits);
        one_each = OneEach-append new db.tickets c.one_each (λ k u s p. clash_absurd u p (
            first-eq-none ticket_key (clashes_with new) k db.tickets u
              (first-of_exists (clashes_with new) db.tickets free) s));
        logged = Logged-append_ticket new db.checkin_logs db.tickets c.logged;
        fits = c.fits;
      })
  where
    clash_absurd :
        (u : Ticket) → u.registration_id ≡ new.registration_id → clashes_with new u ≡ false → ⊥
    clash_absurd u p n = ground arith

module _ (h : Host) (r : EventRegistration) (event : Event) {db : Db} (c : IsConsistent db)
    (found : find registration_key r.id db.registrations ≡ some r)
    (registered : r.status ≡ RegistrationStatus.registered) where
  pub issue_default_ticket-IsConsistent :
      (t : Ticket) (db' : Db) → issue_default_ticket h r event db ≡ ok (t, db') → IsConsistent db'
  unfolding issue_default_ticket default_ticket
  issue_default_ticket-IsConsistent t db' e =
      let (code, _, e₁) = >>=-eq-ok _ _ (t, db') e in
      let (tickets, inserted, e₂) = >>=-eq-ok _ _ (t, db') e₁ in
      subst (λ (d : Ticket × Db). IsConsistent d.1) (ok-injective _ (t, db') e₂)
        (insert_ticket-IsConsistent _ r tickets c found registered inserted)

  restored-IsConsistent :
      (t : Ticket)
      → find ticket_key t.id db.tickets ≡ some t
      → t.registration_id ≡ r.id
      → IsConsistent (record db { tickets = update ticket_key t.id (restored event) db.tickets })
  restored-IsConsistent t row owns =
      let owner = ap (λ (n : ℕ). find registration_key n db.registrations) owns ∙ found in
      record {
        events_keyed = c.events_keyed;
        registrations_keyed = c.registrations_keyed;
        tickets_keyed =
            IsKeyed-update ticket_key (restored event) (λ _. refl) t.id db.tickets c.tickets_keyed;
        linked =
            Linked-update_ticket (restored event) (λ _. refl) (λ _. refl) t.id t db.registrations
              db.tickets c.linked row (rw owner registered);
        one_each =
            OneEach-update (restored event) (λ _. refl) (λ _. refl) t.id db.tickets c.one_each;
        logged =
            Logged-update (restored event) (λ _. refl) t.id t db.checkin_logs db.tickets c.logged
              row
              (λ used. cc (
                unused-of_coming t.status r (rw registered refl)
                  (subst (IsLinked t.status) owner (c.linked t.id t row))));
        fits = c.fits;
      }

  restore_or_issue-IsConsistent :
      (o : Option Ticket) (t : Ticket) (db' : Db)
      → ticket_of r.id db.tickets ≡ o
      → restore_or_issue h r event o db ≡ ok (t, db')
      → IsConsistent db'
  unfolding restore_or_issue ticket_of
  restore_or_issue-IsConsistent none t db' s e = issue_default_ticket-IsConsistent t db' e
  restore_or_issue-IsConsistent (some u) t db' s e =
      subst (λ (d : Ticket × Db). IsConsistent d.1) (ok-injective _ (t, db') e)
        (restored-IsConsistent u (find-first ticket_key _ db.tickets u c.tickets_keyed s)
          ((==_iff u.registration_id r.id).0 (first-eq-some _ db.tickets u s)))

  pub restore_ticket_for_registration-IsConsistent :
      (t : Ticket) (db' : Db)
      → restore_ticket_for_registration h r event db ≡ ok (t, db')
      → IsConsistent db'
  unfolding restore_ticket_for_registration
  restore_ticket_for_registration-IsConsistent t db' e =
      restore_or_issue-IsConsistent (ticket_of r.id db.tickets) t db' refl e

pub registered-of_is :
    (s : RegistrationStatus) → is_registered s ≡ true → s ≡ RegistrationStatus.registered
registered-of_is s h = ground arith

-- An organizer who issues a ticket keeps the tables consistent.
pub create_ticket_for_registration-IsConsistent :
    (h : Host) (registration_id : ℕ) (db : Db) (t : Ticket) (db' : Db)
    → IsConsistent db
    → create_ticket_for_registration h registration_id db ≡ ok (t, db')
    → IsConsistent db'
unfolding create_ticket_for_registration live_registration
create_ticket_for_registration-IsConsistent h registration_id db t db' c e =
    let (r, found, e₁) = >>=-eq-ok _ _ (t, db') e in
    let (_, _, e₂) = >>=-eq-ok _ _ (t, db') e₁ in
    let (u, is, e₃) = >>=-eq-ok _ _ (t, db') e₂ in
    let (event, _, e₄) = >>=-eq-ok _ _ (t, db') e₃ in
    issue_default_ticket-IsConsistent h r event c
      (find-first registration_key _ db.registrations r c.registrations_keyed
        (or_raise-eq-ok _ does_not_exist r found))
      (registered-of_is r.status
        (not-eq-false _ (raise_if-eq-ok (not (is_registered r.status)) _ u is)))
      t db' e₄
