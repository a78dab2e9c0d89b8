-- ===== src/Support/Conversations.antt =====
-- How tickets of the help desk move.
use uevent_backend.Base.{
  ℕ, ◌≡◌, refl, ap, subst, sym, ◌∙◌, Bool, true, ◌&&◌, some, List, [], ◌∷◌, ◌==◌, arith,
}
use uevent_backend.Base.Texts.{Text}
use uevent_backend.Common.Errors.{
  ok, err, ◌>>=◌, >>=-eq-ok, ok-injective, or_raise-eq-ok, validation_error, not_found,
  ticket_handled,
}
use uevent_backend.Common.Host.{Host}
use uevent_backend.Orm.Table.{alive, first, update}
use uevent_backend.Orm.Table.Laws.{IsKeyed, IsKeyed-update, first-eq-some}
use uevent_backend.Orm.Table.Reread.{first-update}
use uevent_backend.Support.Models.{Priority, SupportTicket, HelpDesk, is_handled, support_key}
use uevent_backend.Support.Tickets.{get_own_ticket, add_message, post_message}
use uevent_backend.Support.Desk.{
  lock_ticket, next_priority, escalated, escalate_ticket, resolved_ticket, resolve_ticket,
}

-- What is read back after a write is what was written.
pub record IsWritten (i : ℕ) (old : SupportTicket) (f : SupportTicket → SupportTicket)
    (new : SupportTicket) (rows : List SupportTicket) : Type 0 where
  pub written : new ≡ f old
  pub again : lock_ticket i rows ≡ ok new
  pub keyed : IsKeyed support_key rows

module _ (f : SupportTicket → SupportTicket)
    (keeps : (t : SupportTicket) → support_key (f t) ≡ support_key t) where
  lock_ticket-IsWritten :
      (i : ℕ) (rows : List SupportTicket) (old new : SupportTicket)
      → IsKeyed support_key rows
      → lock_ticket i rows ≡ ok old
      → lock_ticket i (update support_key old.id f rows) ≡ ok new
      → IsWritten i old f new (update support_key old.id f rows)
  unfolding lock_ticket
  lock_ticket-IsWritten i rows old new k found read = record {
    written =
        first-update support_key f keeps (λ t. alive t.deleted_at && t.id == i) i rows old new k
          (λ t h. ground arith) (or_raise-eq-ok _ not_found old found)
          (or_raise-eq-ok _ not_found new read);
    again = read;
    keyed = IsKeyed-update support_key f keeps old.id rows k;
  }

-- An escalation that goes through.
escalate_ticket-IsWritten :
    (h : Host) (i : ℕ) (desk : HelpDesk) (t : SupportTicket) (desk' : HelpDesk)
    → IsKeyed support_key desk.tickets
    → escalate_ticket h i desk ≡ ok (t, desk')
    → (old : SupportTicket) × (lock_ticket i desk.tickets ≡ ok old)
      × IsWritten i old (escalated h) t desk'.tickets
unfolding escalate_ticket
escalate_ticket-IsWritten h i desk t desk' k e =
    let (old, found, e₁) = >>=-eq-ok _ _ (t, desk') e in
    let (new, read, e₂) = >>=-eq-ok _ _ (t, desk') e₁ in
    (
      old,
      found,
      subst (λ (d : SupportTicket × HelpDesk). IsWritten i old (escalated h) d.0 d.1.tickets)
          (ok-injective _ (t, desk') e₂)
          (lock_ticket-IsWritten (escalated h) (λ _. refl) i desk.tickets old new k found read),
    )

next_priority-thrice :
    (p : Priority) → next_priority (next_priority (next_priority p)) ≡ Priority.urgent
next_priority-thrice Priority.low = refl
next_priority-thrice Priority.medium = refl
next_priority-thrice Priority.high = refl
next_priority-thrice Priority.urgent = refl

-- Three escalations of a ticket in a row make it urgent, whatever it was.
pub escalate_ticket-thrice :
    (h h' h'' : Host) (i : ℕ) (desk desk₁ desk₂ desk₃ : HelpDesk) (t₁ t₂ t₃ : SupportTicket)
    → IsKeyed support_key desk.tickets
    → escalate_ticket h i desk ≡ ok (t₁, desk₁)
    → escalate_ticket h' i desk₁ ≡ ok (t₂, desk₂)
    → escalate_ticket h'' i desk₂ ≡ ok (t₃, desk₃)
    → t₃.priority ≡ Priority.urgent
escalate_ticket-thrice h h' h'' i desk desk₁ desk₂ desk₃ t₁ t₂ t₃ k e₁ e₂ e₃ =
    let (t₀, _, w₁) = escalate_ticket-IsWritten h i desk t₁ desk₁ k e₁ in
    let (u₁, r₁, w₂) = escalate_ticket-IsWritten h' i desk₁ t₂ desk₂ w₁.keyed e₂ in
    let (u₂, r₂, w₃) = escalate_ticket-IsWritten h'' i desk₂ t₃ desk₃ w₂.keyed e₃ in
    let same₁ : u₁ ≡ t₁ = ok-injective u₁ t₁ (sym r₁ ∙ w₁.again) in
    let same₂ : u₂ ≡ t₂ = ok-injective u₂ t₂ (sym r₂ ∙ w₂.again) in
    ap (λ (t : SupportTicket). t.priority) w₃.written
    ∙ ap (λ (t : SupportTicket). next_priority t.priority) (same₂ ∙ w₂.written)
    ∙ ap (λ (t : SupportTicket). next_priority (next_priority t.priority)) (same₁ ∙ w₁.written)
    ∙ next_priority-thrice t₀.priority

-- The live row with a key is the first with the key and more that holds of it.
first-and :
    (p q : SupportTicket → Bool) (rows : List SupportTicket) (t : SupportTicket)
    → ((u : SupportTicket) → q u ≡ true → p u ≡ true)
    → first p rows ≡ some t
    → q t ≡ true
    → first q rows ≡ some t
unfolding first
first-and p q [] t sub found holds = cc
first-and p q (u ∷ rows) t sub found holds = ground (arith, sub u, first-and p q rows t sub)

resolve_ticket-IsWritten :
    (h : Host) (actor i : ℕ) (note : Text) (desk : HelpDesk) (t : SupportTicket) (desk' : HelpDesk)
    → IsKeyed support_key desk.tickets
    → resolve_ticket h actor i note desk ≡ ok (t, desk')
    → (old : SupportTicket) × IsWritten i old (resolved_ticket h) t desk'.tickets
unfolding resolve_ticket
resolve_ticket-IsWritten h actor i note desk t desk' k e =
    let (old, found, e₁) = >>=-eq-ok _ _ (t, desk') e in
    let (new, read, e₂) = >>=-eq-ok _ _ (t, desk') e₁ in
    (
      old,
      subst (λ (d : SupportTicket × HelpDesk). IsWritten i old (resolved_ticket h) d.0 d.1.tickets)
          (ok-injective _ (t, desk') e₂)
          (lock_ticket-IsWritten (resolved_ticket h) (λ _. refl) i desk.tickets old new k found
            read),
    )

-- The user reads the ticket that the staff read.
get_own_ticket-lock_ticket :
    (i : ℕ) (rows : List SupportTicket) (t : SupportTicket)
    → lock_ticket i rows ≡ ok t
    → get_own_ticket t.user_id i rows ≡ ok t
unfolding lock_ticket get_own_ticket
get_own_ticket-lock_ticket i rows t e =
    let found = or_raise-eq-ok _ not_found t e in
    let holds = first-eq-some (λ u. alive u.deleted_at && u.id == i) rows t found in
    rw
      (first-and (λ u. alive u.deleted_at && u.id == i)
        (λ u. alive u.deleted_at && (u.user_id == t.user_id && u.id == i)) rows t
        (λ u q. ground arith) found (ground arith))
      refl

-- A resolved ticket takes no more messages of its user: once the staff have resolved it, a message
-- of the user is refused.
pub resolve_ticket-post_message :
    (h h' : Host) (actor i : ℕ) (note content : Text) (desk : HelpDesk) (t : SupportTicket)
    (desk' : HelpDesk)
    → IsKeyed support_key desk.tickets
    → resolve_ticket h actor i note desk ≡ ok (t, desk')
    → post_message h' t.user_id i content desk' ≡ err (validation_error ticket_handled)
unfolding post_message add_message ◌>>=◌
resolve_ticket-post_message h h' actor i note content desk t desk' k e =
    let (_, w) = resolve_ticket-IsWritten h actor i note desk t desk' k e in
    rw
      (
        get_own_ticket-lock_ticket i desk'.tickets t w.again,
        ap (λ (u : SupportTicket). is_handled u.status) w.written,
      )
      refl
