-- ===== src/Events/Editing/Columns.antt =====
-- A request that the serializer accepts and the table does not: `location_snapshot` is a column of
-- 500 characters, and the field has no `max_length`.
use uevent_backend.Base.{some}
use uevent_backend.Base.Texts.{Text}
use uevent_backend.Common.Host.{Host}
use uevent_backend.Events.Input.{EventData}

-- The request with this text for the place.
abbrev pub placed : Text → EventData → EventData
placed snapshot input = record input { location_snapshot = some (some snapshot) }
