-- ===== src/Notifications/Registered.antt =====
-- EventNotificationService.notify_registration_created and notify_registration_cancelled
-- (apps/notifications/services/event_notification_service.py).
use mathlib.Core.List.{reverse, map}
use uevent_backend.Base.{
  ℕ, true, not, ◌&&◌, Option, none, some, List, [], ◌∷◌, ◌++◌, ◌==◌, if◌then◌else◌, is_some,
}
use uevent_backend.Base.Texts.{strip, is_nonempty}
use uevent_backend.Common.Errors.{Result, ok, ◌>>=◌}
use uevent_backend.Common.Host.{Host}
use uevent_backend.Orm.Table.{alive, find, exists, select}
use uevent_backend.Users.{User}
use uevent_backend.Events.Models.{Event, EventOrganizer}
use uevent_backend.Registrations.Models.{EventRegistration, RegistrationStatus, Ticket}
use uevent_backend.Notifications.Models.{
  NotificationType, NotificationCategory, NotificationTarget, EmailTemplate, Task, Mailbox,
}
use uevent_backend.Notifications.Dispatch.{Dispatch, create_and_dispatch}

-- Keys of the notifications that one registration writes, among the fresh ones of the call.
abbrev pub participant_key : ℕ
participant_key = 4

abbrev pub organizers_key : ℕ
organizers_key = 5

-- `_event_organizer_users`: the live organizers, newest first (the default order of the table), and
-- the creator if none of them is.
unfoldable pub event_organizer_users : Event → List EventOrganizer → List ℕ
event_organizer_users event organizers =
    let users : List ℕ = reverse (
      map (λ o. o.user_id)
        (select (λ o. alive o.deleted_at && o.event_id == event.id) organizers)) in
    if exists (λ u. u == event.created_by_id) users
    then users
    else users ++ event.created_by_id ∷ []

-- `_send_user_email_on_commit`
unfoldable pub send_user_email_on_commit :
    List User → EmailTemplate → EventRegistration → Mailbox → Mailbox
send_user_email_on_commit users template registration mailbox =
    elim (find (λ (u : User). u.id) registration.user_id users) [
      | none ↦ mailbox
      | some user ↦
          if is_nonempty (strip user.email)
          then record mailbox {
            on_commit =
                mailbox.on_commit
                ++ Task.send_mail template registration.id (strip user.email) ∷ [];
          }
          else mailbox
    ]

abbrev confirmed_dispatch : Host → Event → EventRegistration → Option Ticket → Dispatch
confirmed_dispatch h event registration ticket = record {
  id = h.new_id participant_key;
  event_id = event.id;
  created_by_id = none;
  type = NotificationType.registration_confirmed;
  category = if is_some ticket then NotificationCategory.ticket else NotificationCategory.event;
  target = if is_some ticket then NotificationTarget.ticket else NotificationTarget.event_user;
  recipients = registration.user_id ∷ [];
  metadata = record {
    event_id = event.id;
    registration_id = some registration.id;
    ticket_id = elim ticket [ none ↦ none | some t ↦ some t.id ];
  };
  send_push = true;
}

abbrev waitlisted_dispatch : Host → Event → EventRegistration → Dispatch
waitlisted_dispatch h event registration = record {
  id = h.new_id participant_key;
  event_id = event.id;
  created_by_id = none;
  type = NotificationType.registration_waitlisted;
  category = NotificationCategory.event;
  target = NotificationTarget.event_user;
  recipients = registration.user_id ∷ [];
  metadata = record {
    event_id = event.id;
    registration_id = some registration.id;
    ticket_id = none;
  };
  send_push = true;
}

abbrev new_registration_dispatch : Host → Event → EventRegistration → List EventOrganizer → Dispatch
new_registration_dispatch h event registration organizers = record {
  id = h.new_id organizers_key;
  event_id = event.id;
  created_by_id = none;
  type = NotificationType.new_registration;
  category = NotificationCategory.organizer;
  target = NotificationTarget.organizer_registrations;
  recipients =
      select (λ u. not (u == registration.user_id)) (event_organizer_users event organizers);
  metadata = record {
    event_id = event.id;
    registration_id = some registration.id;
    ticket_id = none;
  };
  send_push = true;
}

-- The part for the participant, by the status of the registration.
unfoldable pub notify_participant :
    Host → Event → List User → EventRegistration → Option Ticket → Mailbox → Result Mailbox
unfolding create_and_dispatch send_user_email_on_commit
notify_participant h event users registration ticket mailbox = elim registration.status [
  | RegistrationStatus.registered ↦ do
    (mailbox', _, _) ←
        create_and_dispatch h (confirmed_dispatch h event registration ticket) mailbox
    ok (send_user_email_on_commit users EmailTemplate.confirmed_email registration mailbox')
  | RegistrationStatus.waitlisted ↦ do
    (mailbox', _, _) ← create_and_dispatch h (waitlisted_dispatch h event registration) mailbox
    ok (send_user_email_on_commit users EmailTemplate.waitlisted_email registration mailbox')
  | _ ↦ ok mailbox
]

-- The participant first, then the organizers, the participant left out.
unfoldable pub notify_registration_created :
    Host
    → Event
    → List EventOrganizer
    → List User
    → EventRegistration
    → Option Ticket
    → Mailbox
    → Result Mailbox
unfolding notify_participant event_organizer_users
notify_registration_created h event organizers users registration ticket mailbox = do
  mailbox' ← notify_participant h event users registration ticket mailbox
  (mailbox'', _, _) ←
      create_and_dispatch h (new_registration_dispatch h event registration organizers) mailbox'
  ok mailbox''

-- `notify_registration_cancelled`: only an e-mail.
unfoldable pub notify_registration_cancelled : List User → EventRegistration → Mailbox → Mailbox
unfolding send_user_email_on_commit
notify_registration_cancelled users registration mailbox =
    send_user_email_on_commit users EmailTemplate.cancelled_email registration mailbox
