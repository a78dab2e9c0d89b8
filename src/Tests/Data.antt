-- ===== src/Tests/Data.antt =====
-- A host, and tables with one event of one place, whose one attendee has a valid ticket.
use uevent_backend.Base.{ℕ, ◌+◌, refl, true, false, Option, none, some, [], ◌∷◌}
use uevent_backend.Base.Texts.{Text, codes, text_eq, is_ascii}
use uevent_backend.Common.Host.{Host, IsFaithful}
use uevent_backend.Tests.Codec.{encode, decode, decode-encode}
use uevent_backend.Users.{User, AccountStatus}
use uevent_backend.Events.Models.{Event, EventCategory, EventStatus, Visibility}
use uevent_backend.Locations.Models.{Room}
use uevent_backend.Notifications.Models.{Mailbox}
use uevent_backend.Registrations.Models.{
  EventRegistration, RegistrationStatus, Ticket, TicketStatus,
}
use uevent_backend.Registrations.State.{Db}

abbrev parse : Text → Option ℕ
parse (i ∷ []) = some i
parse _ = none

-- The clock stands in the middle of the event.
abbrev pub host : Host
host = record {
  now = 150_000_000;
  new_id = λ k. 1000 + k;
  token_hex = λ k. (65 + k) ∷ [];
  draws = 3;
  nonce = codes "n";
  hmac = λ s. codes "5f";
  sha256 = λ s. s;
  encode_json = encode;
  decode_json = decode;
  show_key = λ i. i ∷ [];
  parse_key = parse;
  wall_clock = λ zone now. none;
  iexact = text_eq;
  slugify = λ s. s;
  hex8 = codes "0a1b2c3d";
}

pub host-IsFaithful : IsFaithful host
unfolding is_ascii
host-IsFaithful = record {
  decode-encode = λ d sorted plain. decode-encode d;
  parse-show = λ i. refl;
  is_ascii-hmac = λ s. refl;
  is_nonempty-hmac = λ s. refl;
}

abbrev pub ann : User
ann = record {
  id = 1;
  deleted_at = none;
  email = codes "ann@x.vn";
  account_status = AccountStatus.active;
  is_staff = false;
  is_superuser = false;
}

abbrev pub binh : User
binh = record {
  id = 2;
  deleted_at = none;
  email = codes "binh@x.vn";
  account_status = AccountStatus.active;
  is_staff = false;
  is_superuser = false;
}

abbrev pub music : EventCategory
music = record {
  id = 60;
  deleted_at = none;
  name = codes "Music";
  slug = codes "music";
  description = [];
  icon = none;
  color = none;
  is_active = true;
}

abbrev pub hall : Room
hall = record {
  id = 70;
  deleted_at = none;
  building_id = 80;
  name = codes "Hall";
  code = codes "H1";
  capacity = none;
  is_active = true;
}

abbrev pub concert : Event
concert = record {
  id = 10;
  deleted_at = none;
  created_at = 1;
  category_id = 60;
  room_id = none;
  created_by_id = 2;
  title = codes "Concert";
  slug = codes "concert";
  description = [];
  visibility = Visibility.public;
  status = EventStatus.approved;
  registration_open_at = none;
  registration_close_at = none;
  cancellation_deadline_at = none;
  start_at = 100_000_000;
  end_at = 200_000_000;
  max_capacity = some 1;
  location_snapshot = none;
  cover_image_key = none;
  deep_link = none;
}

abbrev pub seat : EventRegistration
seat = record {
  id = 20;
  deleted_at = none;
  event_id = 10;
  user_id = 1;
  status = RegistrationStatus.registered;
  form_answers_jsonb = [];
  answers_locked = false;
  registered_at = 5;
  cancelled_at = none;
  cancel_reason = none;
}

abbrev pub ticket : Ticket
ticket = record {
  id = 30;
  deleted_at = none;
  registration_id = 20;
  ticket_code = codes "TK-1";
  qr_payload = codes "TICKET:TK-1";
  qr_signature = codes "5f";
  status = TicketStatus.valid;
  issued_at = 5;
  used_at = none;
  expires_at = 200_000_000;
}

abbrev pub mailbox : Mailbox
mailbox = record { notifications = []; recipients = []; preferences = []; on_commit = [] }

abbrev pub db : Db
db = record {
  users = ann ∷ binh ∷ [];
  categories = music ∷ [];
  rooms = hall ∷ [];
  events = concert ∷ [];
  organizers = [];
  registrations = seat ∷ [];
  tickets = ticket ∷ [];
  checkin_logs = [];
  mailbox = mailbox;
}

-- The tables before the attendee has registered.
abbrev pub empty_db : Db
empty_db = record db { registrations = []; tickets = [] }
