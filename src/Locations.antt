-- ===== src/Locations.antt =====
-- apps/locations/: campuses, buildings and rooms.
pub mod Models
