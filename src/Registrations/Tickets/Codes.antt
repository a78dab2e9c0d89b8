-- ===== src/Registrations/Tickets/Codes.antt =====
-- Fresh ticket codes.
use uevent_backend.Base.{
  ℕ, zero, suc, ◌+◌, ◌≤◌, ◌<◌, ◌≡◌, ◌≢◌, refl, sym, ◌∙◌, Bool, true, false, not, ◌&&◌, some, List,
  [], ◌∷◌, ◌++◌, arith, Bool-cases, inl, inr, length,
}
use uevent_backend.Base.Texts.{Text, codes, text_eq, text_eq_iff}
use uevent_backend.Common.Host.{Host}
use uevent_backend.Orm.Table.{alive, exists, first, select}
use uevent_backend.Registrations.Models.{Ticket}
use uevent_backend.Registrations.Tickets.{generate_ticket_code}

-- A live ticket has the code.
abbrev pub is_taken : Text → List Ticket → Bool
is_taken code = exists (λ t. alive t.deleted_at && text_eq t.ticket_code code)

-- The code of a draw.
abbrev pub draw : Host → ℕ → Text
draw h k = codes "TK-" ++ h.token_hex k

-- The tickets with other codes.
abbrev others : Text → List Ticket → List Ticket
others code = select (λ t. not (text_eq t.ticket_code code))

length-others :
    (code : Text) (tickets : List Ticket) → length (others code tickets) ≤ length tickets
unfolding select
length-others code [] = omega arith
length-others code (t ∷ tickets) = ground (arith, length-others code tickets)

length-others-taken :
    (code : Text) (tickets : List Ticket)
    → is_taken code tickets ≡ true
    → length (others code tickets) < length tickets
unfolding select exists first
length-others-taken code [] taken = cc
length-others-taken code (t ∷ tickets) taken =
    ground (arith, length-others code tickets, length-others-taken code tickets)

-- Tickets with one code do not matter to another.
is_taken-others :
    (code other : Text) (tickets : List Ticket)
    → other ≢ code
    → is_taken other (others code tickets) ≡ is_taken other tickets
unfolding select exists first
is_taken-others code other [] ne = refl
is_taken-others code other (t ∷ tickets) ne = ground (
  arith,
  is_taken-others code other tickets ne,
  text_eq_iff t.ticket_code code,
  text_eq_iff t.ticket_code other,
)

generate_ticket_code-others :
    (h : Host) (code : Text) (tickets : List Ticket) (fuel k : ℕ)
    → ((i : ℕ) → k ≤ i → i < k + fuel → draw h i ≢ code)
    → generate_ticket_code h (others code tickets) fuel k ≡ generate_ticket_code h tickets fuel k
unfolding generate_ticket_code
generate_ticket_code-others h code tickets zero k ne = refl
generate_ticket_code-others h code tickets (suc fuel) k ne =
    rw
      (
        is_taken-others code (draw h k) tickets (ne k (omega arith) (omega arith)),
        generate_ticket_code-others h code tickets fuel (k + 1)
            (λ i l m. ne i (omega arith) (omega arith)),
      )
      refl

-- A code is only taken from a draw, and is fresh.
generate_ticket_code-fresh :
    (h : Host) (tickets : List Ticket) (fuel k : ℕ) (code : Text)
    → generate_ticket_code h tickets fuel k ≡ some code
    → is_taken code tickets ≡ false
unfolding generate_ticket_code
generate_ticket_code-fresh h tickets zero k code e = cc
generate_ticket_code-fresh h tickets (suc fuel) k code e =
    elim (Bool-cases (is_taken (draw h k) tickets)) [
      | inl taken ↦ generate_ticket_code-fresh h tickets fuel (k + 1) code (rw taken at e)
      | inr free ↦ ground arith
    ]

generate_ticket_code-some :
    (h : Host) (fuel k : ℕ) (tickets : List Ticket)
    → ((i j : ℕ) → i < k + fuel → j < k + fuel → draw h i ≡ draw h j → i ≡ j)
    → length tickets < fuel
    → (code : Text) × (generate_ticket_code h tickets fuel k ≡ some code)
unfolding generate_ticket_code
generate_ticket_code-some h zero k tickets distinct enough = absurd (omega arith)
generate_ticket_code-some h (suc fuel) k tickets distinct enough =
    elim (Bool-cases (is_taken (draw h k) tickets)) [
      | inl taken ↦
          let (code, e) =
            generate_ticket_code-some h fuel (k + 1) (others (draw h k) tickets)
              (λ i j a b. distinct i j (omega arith) (omega arith))
              (omega (arith, length-others-taken (draw h k) tickets taken)) in
          (
            code,
            rw taken (
                sym (
                  generate_ticket_code-others h (draw h k) tickets fuel (k + 1) (λ i l m same.
                    absurd (omega (arith, distinct i k (omega arith) (omega arith) same))))
                ∙ e),
          )
      | inr free ↦ (draw h k, rw free refl)
    ]

-- If no two of the draws that are followed are equal, and they are more than there are tickets, they
-- yield a code, and no live ticket has it.
pub generate_ticket_code-total :
    (h : Host) (tickets : List Ticket) (fuel : ℕ)
    → ((i j : ℕ) → i < fuel → j < fuel → draw h i ≡ draw h j → i ≡ j)
    → length tickets < fuel
    → (code : Text) × (generate_ticket_code h tickets fuel 0 ≡ some code)
      × (is_taken code tickets ≡ false)
generate_ticket_code-total h tickets fuel distinct enough =
    let (code, e) =
      generate_ticket_code-some h fuel 0 tickets
        (λ i j a b. distinct i j (omega arith) (omega arith)) enough in
    (code, e, generate_ticket_code-fresh h tickets fuel 0 code e)
