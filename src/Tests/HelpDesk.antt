-- ===== src/Tests/HelpDesk.antt =====
-- A ticket of the help desk.
use uevent_backend.Base.{◌≡◌, refl, none, [], ◌∷◌}
use uevent_backend.Base.Texts.{codes}
use uevent_backend.Common.Errors.{err, ◌>>=◌, validation_error, ticket_handled}
use uevent_backend.Orm.Table.{first, find, update}
use uevent_backend.Support.Models.{Priority, SupportTicket, HelpDesk}
use uevent_backend.Support.Tickets.{new_ticket, post_message}
use uevent_backend.Support.Desk.{lock_ticket, escalate_ticket, resolve_ticket}
use uevent_backend.Support.Conversations.{resolve_ticket-post_message}
use uevent_backend.Tests.Data.{host}
use uevent_backend.Tests.Registering.{value_of}

abbrev question : SupportTicket
question = record (new_ticket host 1 (codes "login") none (codes "no code")) {
  priority = Priority.low;
}

abbrev desk : HelpDesk
desk = record { accounts = []; tickets = question ∷ []; messages = [] }

abbrev escalate : HelpDesk → SupportTicket × HelpDesk
escalate d = value_of (question, d) (escalate_ticket host 1000 d)

abbrev handled : SupportTicket × HelpDesk
handled = value_of (question, desk) (resolve_ticket host 2 1000 [] desk)

resolve_ticket-post_message_example :
    post_message host 1 1000 (codes "thanks") handled.1 ≡ err (validation_error ticket_handled)
unfolding resolve_ticket lock_ticket first update find ◌>>=◌
resolve_ticket-post_message_example =
    resolve_ticket-post_message host host 2 1000 [] (codes "thanks") desk handled.0 handled.1
      (refl, tt) refl
