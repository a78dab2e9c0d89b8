-- ===== src/Registrations/Admission.antt =====
-- How often a ticket has been admitted, by the check-in log.
use uevent_backend.Base.{
  ℕ, ◌≤◌, ◌≡◌, subst, Bool, true, false, ◌&&◌, Option, none, some, List, arith, ◌==◌, weight,
  eq-cases, Option-cases, inl, inr,
}
use uevent_backend.Orm.Table.{find, update, append, count}
use uevent_backend.Orm.Table.Laws.{count-append, find-update_self, find-update_ne, find-append_old}
use uevent_backend.Registrations.Models.{Ticket, CheckinLog, is_used, is_success}
use uevent_backend.Registrations.State.{ticket_key}

abbrev names : ℕ → Option ℕ → Bool
names i none = false
names i (some j) = j == i

abbrev pub is_success_of : ℕ → CheckinLog → Bool
is_success_of i l = is_success l.result && names i l.ticket_id

-- The successful check-ins of a ticket.
unfoldable pub successes : ℕ → List CheckinLog → ℕ
successes i = count (is_success_of i)

abbrev pub uses : Option Ticket → ℕ
uses none = 0
uses (some t) = weight (is_used t.status)

-- A ticket has been admitted once if it is used, and not at all otherwise.
abbrev pub Logged : List CheckinLog → List Ticket → Type 0
Logged logs tickets = (i : ℕ) → successes i logs ≤ uses (find ticket_key i tickets)

weight-of_true : (b : Bool) → b ≡ true → weight b ≡ 1
weight-of_true b h = ground arith

pub Logged-update :
    (g : Ticket → Ticket) (keeps : (t : Ticket) → ticket_key (g t) ≡ ticket_key t) (j : ℕ)
    (t : Ticket) (logs : List CheckinLog) (tickets : List Ticket)
    → Logged logs tickets
    → find ticket_key j tickets ≡ some t
    → (is_used t.status ≡ true → is_used (g t).status ≡ true)
    → Logged logs (update ticket_key j g tickets)
Logged-update g keeps j t logs tickets logged at stays i = elim (eq-cases j i) [
  | inl ji ↦
      subst (λ (n : ℕ). successes n logs ≤ uses (find ticket_key n (update ticket_key j g tickets)))
        ji
        (rw (find-update_self ticket_key g keeps j tickets t at)
          (ground (arith, rw at at (logged j))))
  | inr ne ↦ rw (find-update_ne ticket_key g keeps j i tickets ne) (logged i)
]

-- An entry that is no success changes nothing.
pub Logged-append_failure :
    (l : CheckinLog) (logs : List CheckinLog) (tickets : List Ticket)
    → Logged logs tickets
    → is_success l.result ≡ false
    → Logged (append logs l) tickets
unfolding successes
Logged-append_failure l logs tickets logged failed i =
    ground (arith, logged i, count-append (is_success_of i) logs l)

-- A success uses up the ticket that it names.
pub Logged-append_success :
    (g : Ticket → Ticket) (keeps : (t : Ticket) → ticket_key (g t) ≡ ticket_key t) (j : ℕ)
    (t : Ticket) (l : CheckinLog) (logs : List CheckinLog) (tickets : List Ticket)
    → Logged logs tickets
    → find ticket_key j tickets ≡ some t
    → is_used t.status ≡ false
    → is_used (g t).status ≡ true
    → l.ticket_id ≡ some j
    → Logged (append logs l) (update ticket_key j g tickets)
unfolding successes
Logged-append_success g keeps j t l logs tickets logged at unused used named i =
    elim (eq-cases j i) [
      | inl ji ↦
          subst
            (λ (n : ℕ).
              count (is_success_of n) (append logs l)
              ≤ uses (find ticket_key n (update ticket_key j g tickets)))
            ji
            (rw (find-update_self ticket_key g keeps j tickets t at)
              (ground (arith, rw at at (logged j), count-append (is_success_of j) logs l)))
      | inr ne ↦
          rw (find-update_ne ticket_key g keeps j i tickets ne)
            (ground (arith, logged i, count-append (is_success_of i) logs l))
    ]

pub Logged-append_ticket :
    (t : Ticket) (logs : List CheckinLog) (tickets : List Ticket)
    → Logged logs tickets
    → Logged logs (append tickets t)
Logged-append_ticket t logs tickets logged i = elim (Option-cases (find ticket_key i tickets)) [
  | inl n ↦ ground (arith, rw n at (logged i))
  | inr (a, s) ↦ rw (find-append_old ticket_key i tickets t a s) (rw s at (logged i))
]
