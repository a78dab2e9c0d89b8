-- ===== src/Registrations/Override.antt =====
-- TicketDetailView.patch (apps/registrations/views.py): an organizer writes the status and the
-- expiry of a ticket as they are in the request.
use uevent_backend.Base.{ℕ, Bool, not, ◌&&◌, Option, ◌==◌}
use uevent_backend.Common.Errors.{
  Result, ok, ◌>>=◌, ◌>>◌, raise_if, or_raise, not_found, does_not_exist, permission_denied,
}
use uevent_backend.Orm.Table.{alive, first, find, update}
use uevent_backend.Events.Models.{Event}
use uevent_backend.Events.Access.{is_event_organizer}
use uevent_backend.Events.Input.{get_or}
use uevent_backend.Registrations.Models.{Ticket, TicketStatus}
use uevent_backend.Registrations.State.{Db, event_key, registration_key, ticket_key}

-- What TicketUpdateSerializer lets through: any status, and any time.
pub record TicketData : Type 0 where
  pub status : Option TicketStatus
  pub expires_at : Option ℕ

abbrev pub is_live_of : ℕ → Ticket → Bool
is_live_of registration_id t = alive t.deleted_at && t.registration_id == registration_id

-- `get_object`, with the event that is read on the way
unfoldable pub get_object : ℕ → ℕ → Db → Result (Ticket × Event)
get_object actor registration_id db = do
  ticket ← or_raise (first (is_live_of registration_id) db.tickets) not_found
  registration ←
      or_raise (find registration_key ticket.registration_id db.registrations) does_not_exist
  event ← or_raise (find event_key registration.event_id db.events) does_not_exist
  raise_if
      (not (registration.user_id == actor) && not (is_event_organizer actor event db.organizers))
      permission_denied
  ok (ticket, event)

abbrev pub patched : TicketData → Ticket → Ticket
patched input t = record t {
  status = get_or t.status input.status;
  expires_at = get_or t.expires_at input.expires_at;
}

unfoldable pub patch_ticket : ℕ → ℕ → TicketData → Db → Result (Ticket × Db)
unfolding get_object
patch_ticket actor registration_id input db = do
  (ticket, event) ← get_object actor registration_id db
  raise_if (not (is_event_organizer actor event db.organizers)) permission_denied
  ok (
    patched input ticket,
    record db { tickets = update ticket_key ticket.id (patched input) db.tickets },
  )
