-- ===== src/Registrations/Registering/Ticketing.antt =====
-- The ticket of a registered attendee after `_restore_ticket_for_registration`.
use uevent_backend.Base.{◌≡◌, refl, subst, Option, none, some, List, arith, ==_iff}
use uevent_backend.Common.Errors.{ok, >>=-eq-ok, ok-injective}
use uevent_backend.Common.Host.{Host}
use uevent_backend.Orm.Table.{find}
use uevent_backend.Orm.Table.Laws.{
  IsKeyed, find-first, first-eq-some, find-eq-none, find-update_self, find-append_self,
}
use uevent_backend.Events.Models.{Event}
use uevent_backend.Registrations.Models.{EventRegistration, Ticket, TicketStatus}
use uevent_backend.Registrations.State.{Db, ticket_key, ticket_of}
use uevent_backend.Registrations.Tickets.{
  default_ticket, clashes_with, issue_default_ticket, restored, restore_or_issue,
  restore_ticket_for_registration,
}
use uevent_backend.Registrations.Registering.Issuing.{insert_ticket-eq-ok}

-- The tables hold this valid, unused ticket of the registration, which ends with the event.
pub record HasTicket (r : EventRegistration) (event : Event) (t : Ticket) (tickets : List Ticket)
    : Type 0 where
  pub row : find ticket_key t.id tickets ≡ some t
  pub owner : t.registration_id ≡ r.id
  pub is_valid : t.status ≡ TicketStatus.valid
  pub unused : t.used_at ≡ none
  pub expiry : t.expires_at ≡ event.end_at

module _ (h : Host) (r : EventRegistration) (event : Event) (db : Db)
    (keyed : IsKeyed ticket_key db.tickets) where
  -- A ticket has been issued, and the registrations are as before.
  abbrev pub Ticketed : Ticket × Db → Type 0
  Ticketed (t, db') = HasTicket r event t db'.tickets × (db'.registrations ≡ db.registrations)

  issue_default_ticket-Ticketed :
      (done : Ticket × Db) → issue_default_ticket h r event db ≡ ok done → Ticketed done
  unfolding issue_default_ticket default_ticket
  issue_default_ticket-Ticketed done e =
      let (code, _, e₁) = >>=-eq-ok _ _ done e in
      let (tickets, inserted, e₂) = >>=-eq-ok _ _ done e₁ in
      let new = default_ticket h r event code in
      let (free, is_append) = insert_ticket-eq-ok new db.tickets tickets inserted in
      let fresh =
        find-eq-none ticket_key (clashes_with new) new.id db.tickets (λ t p. ground arith) free in
      subst Ticketed (ok-injective _ done e₂) (
        record {
          row = rw is_append (find-append_self ticket_key db.tickets new fresh);
          owner = refl;
          is_valid = refl;
          unused = refl;
          expiry = refl;
        },
        refl,
      )

  restore_or_issue-Ticketed :
      (o : Option Ticket) (done : Ticket × Db)
      → ticket_of r.id db.tickets ≡ o
      → restore_or_issue h r event o db ≡ ok done
      → Ticketed done
  unfolding restore_or_issue ticket_of
  restore_or_issue-Ticketed none done s e = issue_default_ticket-Ticketed done e
  restore_or_issue-Ticketed (some u) done s e = subst Ticketed (ok-injective _ done e) (
    record {
      row =
          find-update_self ticket_key (restored event) (λ _. refl) u.id db.tickets u
            (find-first ticket_key _ db.tickets u keyed s);
      owner = (==_iff u.registration_id r.id).0 (first-eq-some _ db.tickets u s);
      is_valid = refl;
      unused = refl;
      expiry = refl;
    },
    refl,
  )

  pub restore_ticket_for_registration-Ticketed :
      (done : Ticket × Db) → restore_ticket_for_registration h r event db ≡ ok done → Ticketed done
  unfolding restore_ticket_for_registration
  restore_ticket_for_registration-Ticketed done e =
      restore_or_issue-Ticketed (ticket_of r.id db.tickets) done refl e
