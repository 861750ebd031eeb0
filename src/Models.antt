-- ===== src/Models.antt =====
-- The rows of the tables users and sessions (app/models/user.py, session.py), with the columns
-- that the modelled code reads or writes, and the settings that it reads (app/config.py).
-- A UUID is a number that is only compared. An instant is a number of microseconds.
use movie_api.Shared.{ℕ, String, Bool, Option, List}

pub record User : Type 0 where
  pub id : ℕ
  pub email : String
  pub password_hash : Option String
  pub google_id : Option String
  pub telegram_id : Option String
  pub apple_id : Option String
  pub avatar_url : Option String
  pub full_name : Option String
  pub role : String
  pub is_active : Bool

pub record Session : Type 0 where
  pub id : ℕ
  pub user_id : ℕ
  pub device_label : String
  pub created_at : ℕ
  pub expires_at : ℕ
  pub revoked_at : Option ℕ
  pub token_version : ℕ
  pub refreshed_at : Option ℕ

-- The tables of the sign-in services.
pub record AuthDb : Type 0 where
  pub users : List User
  pub sessions : List Session

-- What the database gives a new row: its key, and `created_at`.
pub record Stamp : Type 0 where
  pub id : ℕ
  pub created_at : ℕ

pub record Settings : Type 0 where
  pub access_token_expire_minutes : ℕ
  pub session_refresh_grace_days : Option ℕ
  pub max_active_sessions_per_user : ℕ
