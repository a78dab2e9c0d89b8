-- ===== src/Locations/Models.antt =====
-- apps/locations/models: campuses, their buildings, and the rooms of those.
use uevent_backend.Base.{ℕ, Bool, Option}
use uevent_backend.Base.Texts.{Text}

pub record Campus : Type 0 where
  pub id : ℕ
  pub deleted_at : Option ℕ
  pub name : Text
  pub code : Text
  pub address : Text
  pub is_active : Bool

pub record Building : Type 0 where
  pub id : ℕ
  pub deleted_at : Option ℕ
  pub campus_id : ℕ
  pub name : Text
  pub code : Text
  pub is_active : Bool

pub record Room : Type 0 where
  pub id : ℕ
  pub deleted_at : Option ℕ
  pub building_id : ℕ
  pub name : Text
  pub code : Text
  pub capacity : Option ℕ
  pub is_active : Bool

abbrev pub campus_key : Campus → ℕ
campus_key c = c.id

abbrev pub building_key : Building → ℕ
building_key b = b.id

abbrev pub room_key : Room → ℕ
room_key r = r.id
