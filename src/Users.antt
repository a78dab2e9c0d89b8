-- ===== src/Users.antt =====
-- apps/users/: the columns of a user that the modelled services read.
use uevent_backend.Base.{ℕ, Bool, Option}
use uevent_backend.Base.Texts.{Text}

pub data AccountStatus : Type 0 where
  active pending banned : AccountStatus

pub record User : Type 0 where
  pub id : ℕ
  pub deleted_at : Option ℕ
  pub email : Text
  pub account_status : AccountStatus
  pub is_staff : Bool
  pub is_superuser : Bool

-- A signed-in device. The key of the row that holds a device's token for pushes is a hash of both.
pub record UserSession : Type 0 where
  pub id : ℕ
  pub deleted_at : Option ℕ
  pub user_id : ℕ
  pub refresh_token_hash : Text
  pub device_name : Text
  pub user_agent : Text
  pub fcm_token : Option Text
  pub expires_at : ℕ
  pub revoked_at : Option ℕ
