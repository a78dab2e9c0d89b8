-- ===== src/Registrations/Linkage.antt =====
-- How tickets and registrations go together, and what each kind of write asks for to keep it so.
use uevent_backend.Base.{
  true, false, ℕ, ◌≡◌, ◌≢◌, ap, subst, refl, sym, ◌∙◌, Option, none, some, List, eq-cases,
  Option-cases, inl, inr,
}
use uevent_backend.Orm.Table.{find, update, append}
use uevent_backend.Orm.Table.Laws.{
  find-update_self, find-update_ne, find-update-inv, find-append-inv, find-append_old,
}
use uevent_backend.Registrations.Models.{
  EventRegistration, RegistrationStatus, Ticket, TicketStatus, is_inactive, is_checked_in, is_used,
  is_cancelled_ticket,
}
use uevent_backend.Registrations.State.{registration_key, ticket_key}

-- A valid ticket belongs to a registered attendee, a used one to an attendee who has checked in.
abbrev pub IsLinked : TicketStatus → Option EventRegistration → Type 0
IsLinked TicketStatus.valid none = ⊥
IsLinked TicketStatus.valid (some r) = r.status ≡ RegistrationStatus.registered
IsLinked TicketStatus.used none = ⊥
IsLinked TicketStatus.used (some r) = r.status ≡ RegistrationStatus.checked_in
IsLinked _ _ = Unit

abbrev pub Linked : List EventRegistration → List Ticket → Type 0
Linked rows tickets =
    (i : ℕ) (t : Ticket)
    → find ticket_key i tickets ≡ some t
    → IsLinked t.status (find registration_key t.registration_id rows)

-- No registration has two tickets.
abbrev pub OneEach : List Ticket → Type 0
OneEach tickets =
    (i j : ℕ) (t u : Ticket)
    → find ticket_key i tickets ≡ some t
    → find ticket_key j tickets ≡ some u
    → t.registration_id ≡ u.registration_id
    → i ≡ j

IsLinked-of_none :
    (s : TicketStatus) (o : Option EventRegistration) → IsLinked s none → IsLinked s o
IsLinked-of_none TicketStatus.valid o h = absurd h
IsLinked-of_none TicketStatus.used o h = absurd h
IsLinked-of_none TicketStatus.expired o h = tt
IsLinked-of_none TicketStatus.cancelled o h = tt

-- An inactive registration has no ticket that asks anything of it.
pub IsLinked-of_inactive :
    (s : TicketStatus) (r : EventRegistration) (o : Option EventRegistration)
    → is_inactive r.status ≡ true
    → IsLinked s (some r)
    → IsLinked s o
IsLinked-of_inactive TicketStatus.valid r o i h =
    cc (ap (λ (x : RegistrationStatus). is_inactive x) h)
IsLinked-of_inactive TicketStatus.used r o i h =
    cc (ap (λ (x : RegistrationStatus). is_inactive x) h)
IsLinked-of_inactive TicketStatus.expired r o i h = tt
IsLinked-of_inactive TicketStatus.cancelled r o i h = tt

-- The ticket of an attendee who has not checked in is not used.
pub unused-of_coming :
    (s : TicketStatus) (r : EventRegistration)
    → is_checked_in r.status ≡ false
    → IsLinked s (some r)
    → is_used s ≡ false
unused-of_coming TicketStatus.used r coming h =
    cc (ap (λ (x : RegistrationStatus). is_checked_in x) h)
unused-of_coming _ r coming h = refl

-- A cancelled ticket asks nothing of its registration.
pub IsLinked-of_cancelled :
    (s : TicketStatus) (o : Option EventRegistration) → is_cancelled_ticket s ≡ true → IsLinked s o
IsLinked-of_cancelled TicketStatus.cancelled o h = tt
IsLinked-of_cancelled TicketStatus.valid o h = cc
IsLinked-of_cancelled TicketStatus.used o h = cc
IsLinked-of_cancelled TicketStatus.expired o h = cc

-- A write to one registration, seen from a ticket of the registration `k`.
IsLinked-find-update :
    (f : EventRegistration → EventRegistration)
    (keeps : (r : EventRegistration) → registration_key (f r) ≡ registration_key r)
    (s : TicketStatus) (i k : ℕ) (r : EventRegistration) (rows : List EventRegistration)
    → find registration_key i rows ≡ some r
    → (k ≡ i → IsLinked s (some (f r)))
    → (k ≢ i → IsLinked s (find registration_key k rows))
    → IsLinked s (find registration_key k (update registration_key i f rows))
IsLinked-find-update f keeps s i k r rows found same other = elim (eq-cases k i) [
  | inl e ↦ rw (e, find-update_self registration_key f keeps i rows r found) (same e)
  | inr ne ↦ rw (find-update_ne registration_key f keeps i k rows (λ e. ne (sym e))) (other ne)
]

module _ (f : EventRegistration → EventRegistration)
    (keeps : (r : EventRegistration) → registration_key (f r) ≡ registration_key r) where
  -- A write to a registration keeps the linkage if it suits that registration's tickets.
  pub Linked-update_registration :
      (i : ℕ) (r : EventRegistration) (rows : List EventRegistration) (tickets : List Ticket)
      → Linked rows tickets
      → find registration_key i rows ≡ some r
      → ((j : ℕ) (t : Ticket)
          → find ticket_key j tickets ≡ some t
          → t.registration_id ≡ i
          → IsLinked t.status (some (f r)))
      → Linked (update registration_key i f rows) tickets
  Linked-update_registration i r rows tickets linked found suits j t e =
      IsLinked-find-update f keeps t.status i t.registration_id r rows found (suits j t e)
        (λ _. linked j t e)

  module _ (g : Ticket → Ticket) (keeps_id : (t : Ticket) → ticket_key (g t) ≡ ticket_key t)
      (keeps_owner : (t : Ticket) → (g t).registration_id ≡ t.registration_id) where
    -- So does a write to a registration and to its ticket at once.
    pub Linked-update_both :
        (i j : ℕ) (r : EventRegistration) (t : Ticket) (rows : List EventRegistration)
        (tickets : List Ticket)
        → Linked rows tickets
        → OneEach tickets
        → find registration_key i rows ≡ some r
        → find ticket_key j tickets ≡ some t
        → t.registration_id ≡ i
        → IsLinked (g t).status (some (f r))
        → Linked (update registration_key i f rows) (update ticket_key j g tickets)
    Linked-update_both i j r t rows tickets linked one found at owns suits k u e =
        elim (find-update-inv ticket_key g keeps_id j k tickets u e) [
          | inl (v, jk, old, new) ↦
              let ut : u ≡ g t = cc (ap (λ (n : ℕ). find ticket_key n tickets) jk) in
              subst
                (λ (x : Ticket).
                  IsLinked x.status
                    (find registration_key x.registration_id (update registration_key i f rows)))
                (sym ut)
                (subst
                  (λ (n : ℕ).
                    IsLinked (g t).status
                      (find registration_key n (update registration_key i f rows)))
                  (sym owns ∙ sym (keeps_owner t))
                  (rw (find-update_self registration_key f keeps i rows r found) suits))
          | inr (ne, old) ↦
              IsLinked-find-update f keeps u.status i u.registration_id r rows found
                (λ p. absurd (ne (one j k t u at old (owns ∙ sym p)))) (λ _. linked k u old)
        ]

-- A write to a ticket keeps the linkage if it suits the ticket's registration.
module _ (g : Ticket → Ticket) (keeps_id : (t : Ticket) → ticket_key (g t) ≡ ticket_key t)
    (keeps_owner : (t : Ticket) → (g t).registration_id ≡ t.registration_id) where
  pub Linked-update_ticket :
      (j : ℕ) (t : Ticket) (rows : List EventRegistration) (tickets : List Ticket)
      → Linked rows tickets
      → find ticket_key j tickets ≡ some t
      → IsLinked (g t).status (find registration_key t.registration_id rows)
      → Linked rows (update ticket_key j g tickets)
  Linked-update_ticket j t rows tickets linked at suits k u e =
      elim (find-update-inv ticket_key g keeps_id j k tickets u e) [
        | inl (v, jk, old, new) ↦
            let ut : u ≡ g t = cc (ap (λ (n : ℕ). find ticket_key n tickets) jk) in
            rw (ut, keeps_owner t) suits
        | inr (ne, old) ↦ linked k u old
      ]

  -- A ticket keeps its registration, so a registration keeps its one ticket.
  pub OneEach-update :
      (j : ℕ) (tickets : List Ticket) → OneEach tickets → OneEach (update ticket_key j g tickets)
  OneEach-update j tickets one k l u v eu ev same =
      let (u', fu, pu) = before k u eu in
      let (v', fv, pv) = before l v ev in one k l u' v' fu fv (sym pu ∙ same ∙ pv)
    where
      before :
          (n : ℕ) (w : Ticket)
          → find ticket_key n (update ticket_key j g tickets) ≡ some w
          → (w' : Ticket) × (find ticket_key n tickets ≡ some w')
            × (w.registration_id ≡ w'.registration_id)
      before n w e = elim (find-update-inv ticket_key g keeps_id j n tickets w e) [
        | inl (w', _, old, new) ↦
            (w', old, ap (λ (x : Ticket). x.registration_id) new ∙ keeps_owner w')
        | inr (_, old) ↦ (w, old, refl)
      ]

-- A new registration takes no ticket from another.
pub Linked-append_registration :
    (r : EventRegistration) (rows : List EventRegistration) (tickets : List Ticket)
    → Linked rows tickets
    → Linked (append rows r) tickets
Linked-append_registration r rows tickets linked k u e =
    elim (Option-cases (find registration_key u.registration_id rows)) [
      | inl n ↦ IsLinked-of_none u.status _ (rw n at (linked k u e))
      | inr (a, s) ↦
          rw (find-append_old registration_key u.registration_id rows r a s)
            (rw s at (linked k u e))
    ]

-- A new ticket has to suit its registration.
pub Linked-append_ticket :
    (t : Ticket) (rows : List EventRegistration) (tickets : List Ticket)
    → Linked rows tickets
    → IsLinked t.status (find registration_key t.registration_id rows)
    → Linked rows (append tickets t)
Linked-append_ticket t rows tickets linked suits k u e =
    elim (find-append-inv ticket_key k tickets t u e) [
      | inl old ↦ linked k u old
      | inr (_, _, new) ↦ rw new suits
    ]

-- And it has to be the first of its registration.
pub OneEach-append :
    (t : Ticket) (tickets : List Ticket)
    → OneEach tickets
    → ((k : ℕ) (u : Ticket)
        → find ticket_key k tickets ≡ some u
        → u.registration_id ≢ t.registration_id)
    → OneEach (append tickets t)
OneEach-append t tickets one fresh k l u v eu ev same =
    elim (find-append-inv ticket_key k tickets t u eu) [
      | inl fu ↦ elim (find-append-inv ticket_key l tickets t v ev) [
        | inl fv ↦ one k l u v fu fv same
        | inr (_, _, new) ↦
            absurd (fresh k u fu (same ∙ ap (λ (x : Ticket). x.registration_id) new))
      ]
      | inr (_, at, new) ↦ elim (find-append-inv ticket_key l tickets t v ev) [
        | inl fv ↦ absurd (fresh l v fv (sym same ∙ ap (λ (x : Ticket). x.registration_id) new))
        | inr (_, at', _) ↦ sym at ∙ at'
      ]
    ]
