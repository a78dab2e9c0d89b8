-- ===== src/Registrations/Invariant.antt =====
-- The invariant of the registration tables.
use uevent_backend.Base.{List}
use uevent_backend.Orm.Table.Laws.{IsKeyed}
use uevent_backend.Registrations.State.{Db, event_key, registration_key, ticket_key}
use uevent_backend.Notifications.Models.{Mailbox}
use uevent_backend.Events.Models.{EventOrganizer}
use uevent_backend.Registrations.Linkage.{Linked, OneEach}
use uevent_backend.Registrations.Capacity.{Fits}
use uevent_backend.Registrations.Admission.{Logged}

-- Keys are unique; tickets match their registrations, one each; every ticket has been admitted at
-- most once, and only if it is used; and no event is overbooked.
pub record IsConsistent (db : Db) : Type 0 where
  pub events_keyed : IsKeyed event_key db.events
  pub registrations_keyed : IsKeyed registration_key db.registrations
  pub tickets_keyed : IsKeyed ticket_key db.tickets
  pub linked : Linked db.registrations db.tickets
  pub one_each : OneEach db.tickets
  pub logged : Logged db.checkin_logs db.tickets
  pub fits : Fits db.events db.registrations

-- The mailbox is no part of it.
pub IsConsistent-mailbox :
    {db : Db} (m : Mailbox) → IsConsistent db → IsConsistent (record db { mailbox = m })
IsConsistent-mailbox m c = record {
  events_keyed = c.events_keyed;
  registrations_keyed = c.registrations_keyed;
  tickets_keyed = c.tickets_keyed;
  linked = c.linked;
  one_each = c.one_each;
  logged = c.logged;
  fits = c.fits;
}

-- Nor are the organizers.
pub IsConsistent-organizers :
    {db : Db} (o : List EventOrganizer)
    → IsConsistent db
    → IsConsistent (record db { organizers = o })
IsConsistent-organizers o c = record {
  events_keyed = c.events_keyed;
  registrations_keyed = c.registrations_keyed;
  tickets_keyed = c.tickets_keyed;
  linked = c.linked;
  one_each = c.one_each;
  logged = c.logged;
  fits = c.fits;
}
