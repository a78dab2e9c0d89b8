-- ===== src/Support/Tickets.antt =====
-- UserSupportTicketService (apps/support/services.py).
use uevent_backend.Base.{ℕ, false, ◌&&◌, Option, none, some, List, ◌==◌}
use uevent_backend.Base.Texts.{Text}
use uevent_backend.Common.Errors.{
  Result, ok, ◌>>=◌, ◌>>◌, raise_if, or_raise, validation_error, does_not_exist, ticket_handled,
}
use uevent_backend.Common.Host.{Host}
use uevent_backend.Orm.Table.{alive, first, update, append}
use uevent_backend.Support.Models.{
  SupportStatus, Priority, SupportCategory, SupportTicket, SupportMessage, HelpDesk, is_handled,
  support_key,
}

-- `UserSupportTicketService.get_ticket`
unfoldable pub get_own_ticket : ℕ → ℕ → List SupportTicket → Result SupportTicket
get_own_ticket user_id ticket_id tickets =
    or_raise
      (first (λ t. alive t.deleted_at && (t.user_id == user_id && t.id == ticket_id)) tickets)
      does_not_exist

-- `data.get("category") or OTHER`
abbrev pub category_or_other : Option SupportCategory → SupportCategory
category_or_other none = SupportCategory.other
category_or_other (some c) = c

abbrev pub new_ticket : Host → ℕ → Text → Option SupportCategory → Text → SupportTicket
new_ticket h user_id subject category description = record {
  id = h.new_id 0;
  deleted_at = none;
  user_id = user_id;
  subject = subject;
  category = category_or_other category;
  description = description;
  status = SupportStatus.opened;
  priority = Priority.medium;
  assigned_to_id = none;
  updated_at = h.now;
}

abbrev pub message : Host → ℕ → ℕ → Text → SupportMessage
message h ticket_id author content = record {
  id = h.new_id 1;
  ticket_id = ticket_id;
  author_user_id = author;
  content = content;
  is_staff = false;
}

unfoldable pub create_ticket :
    Host → ℕ → Text → Option SupportCategory → Text → HelpDesk → Result (SupportTicket × HelpDesk)
create_ticket h user_id subject category description desk = do
  let new = new_ticket h user_id subject category description
  let tickets = append desk.tickets new
  ticket ← get_own_ticket user_id new.id tickets
  ok (
    ticket,
    record desk {
      tickets = tickets;
      messages = append desk.messages (message h new.id user_id description);
    },
  )

-- `save(update_fields=["updated_at"])`
abbrev pub touched : Host → SupportTicket → SupportTicket
touched h t = record t { updated_at = h.now }

-- `add_message`, given the ticket that the view has loaded.
unfoldable pub add_message :
    Host → ℕ → SupportTicket → Text → HelpDesk → Result (SupportTicket × HelpDesk)
add_message h user_id ticket content desk = do
  raise_if (is_handled ticket.status) (validation_error ticket_handled)
  let tickets = update support_key ticket.id (touched h) desk.tickets
  saved ← get_own_ticket user_id ticket.id tickets
  ok (
    saved,
    record desk {
      tickets = tickets;
      messages = append desk.messages (message h ticket.id user_id content);
    },
  )

-- SupportTicketMessageCreateView.post: the ticket is loaded, and the message added.
unfoldable pub post_message : Host → ℕ → ℕ → Text → HelpDesk → Result (SupportTicket × HelpDesk)
post_message h user_id ticket_id content desk = do
  ticket ← get_own_ticket user_id ticket_id desk.tickets
  add_message h user_id ticket content desk
