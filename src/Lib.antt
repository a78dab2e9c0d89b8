-- ===== src/Lib.antt =====
-- A model of the backend of UEvent: registering for events, tickets and their QR codes, check-in,
-- the notifications that go with them, events and who organizes them, moderation, one-time
-- passwords, organizer requests and the help desk.
--
-- The parts. Views call services; a service runs in one transaction over the tables, and leaves
-- e-mails and push deliveries to run after the commit. A service is a function of the host (the
-- clock, fresh keys and random texts, the keyed hash, the codecs), its arguments and the tables
-- into a result: an error, where the transaction rolls back, or a value and the new tables.
--
--   Base           Boolean tests, texts as lists of code points, lists over the native numbers
--                  and decimal numerals
--   Orm            tables of soft-deleted rows: common/models.py and the queries of Django that
--                  the services use (alive, first, get, exists, count, save, create)
--   Common         Errors: common/exceptions.py and `Result`; Host: what comes from outside; Slugs:
--                  the loop of `_build_unique_slug`, for events and for categories; Cache: the cache
--                  as an interface; Otp: common/otp.py over it, with the machine that it refines
--   Users          apps/users/models: the columns that the services read
--   Locations      apps/locations/models
--   Events         apps/events/services.py: Access (who may act on an event), Editing (creating,
--                  updating, deleting), Organizing (adding and removing organizers), Publishing
--                  (public pages, share links, highlights); Input: the tests of the serializer that
--                  requests pass first (apps/events/serializers.py)
--   Registrations  apps/registrations: Models; State (the tables, `Db`); Tickets, Register, Cancel,
--                  Qr and Checkin (services.py, a function for each function there, with its
--                  guards in order), Override (the PATCH of a ticket, views.py); Linkage, Capacity,
--                  Admission and Invariant (what holds of the tables); Scanning, Cancelling and
--                  Registering (the proofs for each service)
--   Notifications  apps/notifications: Preference (models/notification_preference.py and
--                  services/preference_service.py), Dispatch and Registered
--                  (services/event_notification_service.py), Inbox (services/inbox_service.py),
--                  Delivery (services/push_delivery_service.py)
--   SystemAdmin    apps/system_admin/services: Tickets (ticket_services.py), Moderation
--                  (event_services.py), Categories (category_services.py), Locations
--                  (location_services.py), Accounts (user_services.py), Audit with
--                  Masking (audit_service.py)
--   OrganizerRequests  apps/organizer_requests/services.py, a function for each operation; at most
--                  one pending request (Pending), decided once (Review), one primary role (Primary)
--   Support        apps/support/services.py and apps/system_admin/services/support_services.py:
--                  Tickets (the users), Desk (the staff), Publishing (articles and documents)
--   Lifecycle      the registration tables under any sequence of the requests of `Step`, which are
--                  registering, cancelling, issuing, scanning, co-hosts and what administrators do
--                  to tickets; Race (a cancellation that overlaps a scan); Override (what the
--                  organizers' PATCH of a ticket and of an event write, which is no `Step` and may
--                  break the invariant)
--   Tests          concrete tables, requests at them, and each theorem applied there
--
-- Numbers. Keys are natural numbers instead of UUIDs, and times are microseconds since the epoch;
-- `int(t.timestamp())` is a division. The widths of an event's columns (texts of 255, 280 and 500
-- characters, a capacity of 31 bits) are what `check_columns` tests of a request, as PostgreSQL does;
-- the columns of the other tables are taken to be wide enough. Keys, counts and times never wrap.
--
-- Fuel. `generate_ticket_code` draws until a code is free, and follows `Host.draws` draws; it is
-- shown that more draws than there are tickets are enough if no two of them are equal. An error
-- `out_of_draws` is no exception of the program. The loop for a slug is given two rounds more than
-- there are rows: with suffixes every round tries another slug. All other loops are over lists.
--
-- The host. `json.dumps` with base64, `hmac`, SHA-256, `uuid`, `zoneinfo`, Django's `slugify` and
-- `iexact` of the database are fields of `Host`; `IsFaithful` states what is used of them: that
-- decoding undoes encoding of plain objects with sorted keys, that parsing a key undoes showing it,
-- and that a hexdigest is a non-empty ASCII text.
--
-- The cache. `IsCache` states that a value is there until its timeout has passed or it is deleted or
-- set again, and that keys are independent; Tests.Caches has a cache that does so. The FCM client is
-- a function from messages to results, of which nothing is assumed.
--
-- Not modelled: locks and isolation (requests run one after the other, except in Lifecycle.Race,
-- where a loaded row is kept while another request runs); the texts of messages; output
-- serializers and most views, which shape responses; foreign keys but those of an event;
-- sign-in, object storage, reports and exports, which call other services or only read.
pub mod Base
pub mod Orm
pub mod Common
pub mod Users
pub mod Locations
pub mod Events
pub mod Notifications
pub mod Registrations
pub mod SystemAdmin
pub mod OrganizerRequests
pub mod Support
pub mod Lifecycle
pub mod Tests
