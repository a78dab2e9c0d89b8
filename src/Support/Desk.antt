-- ===== src/Support/Desk.antt =====
-- AdminSupportService (apps/system_admin/services/support_services.py): what the staff do, without
-- its lines in the audit log.
use uevent_backend.Base.{
  ℕ, Bool, true, ◌&&◌, ◌||◌, Option, none, some, List, ◌==◌, if◌then◌else◌, is_some,
}
use uevent_backend.Base.Texts.{Text, is_nonempty}
use uevent_backend.Common.Errors.{
  Result, ok, ◌>>=◌, or_raise, validation_error, not_found, invalid_assignee,
}
use uevent_backend.Common.Host.{Host}
use uevent_backend.Orm.Table.{alive, first, update, append}
use uevent_backend.Support.Models.{
  SupportStatus, Priority, SupportTicket, SupportMessage, Account, HelpDesk, support_key,
}

-- `get_ticket`, and the lock of the operations
unfoldable pub lock_ticket : ℕ → List SupportTicket → Result SupportTicket
lock_ticket ticket_id tickets =
    or_raise (first (λ t. alive t.deleted_at && t.id == ticket_id) tickets) not_found

-- `_get_valid_assignee`: no one, or a live account of the staff.
unfoldable pub valid_assignee : Option ℕ → List Account → Result (Option ℕ)
valid_assignee none accounts = ok none
valid_assignee (some user_id) accounts = do
  account ←
      or_raise
        (first (λ a. alive a.deleted_at && ((a.is_staff || a.is_superuser) && a.id == user_id))
          accounts)
        (validation_error invalid_assignee)
  ok (some account.id)

-- The fields that are in the validated data.
pub record Changes : Type 0 where
  pub status : Option SupportStatus
  pub priority : Option Priority
  pub assigned_to : Option (Option ℕ)

abbrev pub or_old {ℓ} : {A : Type ℓ} → Option A → A → A
or_old none old = old
or_old (some new) old = new

unfoldable pub new_assignee : Option (Option ℕ) → Option ℕ → List Account → Result (Option ℕ)
unfolding valid_assignee
new_assignee none old accounts = ok old
new_assignee (some user_id) old accounts = valid_assignee user_id accounts

-- `changed_fields`
abbrev pub changes_something : Changes → Bool
changes_something c = is_some c.status || is_some c.priority || is_some c.assigned_to

abbrev pub changed : Host → Changes → Option ℕ → SupportTicket → SupportTicket
changed h c assignee t = record t {
  status = or_old c.status t.status;
  priority = or_old c.priority t.priority;
  assigned_to_id = assignee;
  updated_at = h.now;
}

unfoldable pub update_ticket : Host → ℕ → Changes → HelpDesk → Result (SupportTicket × HelpDesk)
unfolding lock_ticket new_assignee
update_ticket h ticket_id c desk = do
  ticket ← lock_ticket ticket_id desk.tickets
  assignee ← new_assignee c.assigned_to ticket.assigned_to_id desk.accounts
  let tickets =
      if changes_something c
      then update support_key ticket.id (changed h c assignee) desk.tickets
      else desk.tickets
  saved ← lock_ticket ticket_id tickets
  ok (saved, record desk { tickets = tickets })

abbrev staff_message : Host → ℕ → ℕ → Text → SupportMessage
staff_message h ticket_id author content = record {
  id = h.new_id 1;
  ticket_id = ticket_id;
  author_user_id = author;
  content = content;
  is_staff = true;
}

-- `if ticket.status == OPEN: ticket.status = IN_PROGRESS`
abbrev pub in_progress_if_open : SupportStatus → SupportStatus
in_progress_if_open SupportStatus.opened = SupportStatus.in_progress
in_progress_if_open s = s

abbrev pub replied : Host → SupportTicket → SupportTicket
replied h t = record t { status = in_progress_if_open t.status; updated_at = h.now }

unfoldable pub reply_to_ticket : Host → ℕ → ℕ → Text → HelpDesk → Result (SupportTicket × HelpDesk)
unfolding lock_ticket
reply_to_ticket h actor ticket_id content desk = do
  ticket ← lock_ticket ticket_id desk.tickets
  let tickets = update support_key ticket.id (replied h) desk.tickets
  saved ← lock_ticket ticket_id tickets
  ok (
    saved,
    record desk {
      tickets = tickets;
      messages = append desk.messages (staff_message h ticket.id actor content);
    },
  )

abbrev pub resolved_ticket : Host → SupportTicket → SupportTicket
resolved_ticket h t = record t { status = SupportStatus.resolved; updated_at = h.now }

unfoldable pub resolve_ticket : Host → ℕ → ℕ → Text → HelpDesk → Result (SupportTicket × HelpDesk)
unfolding lock_ticket
resolve_ticket h actor ticket_id note desk = do
  ticket ← lock_ticket ticket_id desk.tickets
  let tickets = update support_key ticket.id (resolved_ticket h) desk.tickets
  saved ← lock_ticket ticket_id tickets
  ok (
    saved,
    record desk {
      tickets = tickets;
      messages =
          if is_nonempty note
          then append desk.messages (staff_message h ticket.id actor note)
          else desk.messages;
    },
  )

-- The next of PRIORITY_ESCALATION_ORDER, or the last.
abbrev pub next_priority : Priority → Priority
next_priority Priority.low = Priority.medium
next_priority Priority.medium = Priority.high
next_priority Priority.high = Priority.urgent
next_priority Priority.urgent = Priority.urgent

abbrev pub escalated : Host → SupportTicket → SupportTicket
escalated h t = record t {
  priority = next_priority t.priority;
  status = in_progress_if_open t.status;
  updated_at = h.now;
}

unfoldable pub escalate_ticket : Host → ℕ → HelpDesk → Result (SupportTicket × HelpDesk)
unfolding lock_ticket
escalate_ticket h ticket_id desk = do
  ticket ← lock_ticket ticket_id desk.tickets
  let tickets = update support_key ticket.id (escalated h) desk.tickets
  saved ← lock_ticket ticket_id tickets
  ok (saved, record desk { tickets = tickets })
