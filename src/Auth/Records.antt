-- ===== src/Auth/Records.antt =====
-- The rows of infra/db/models.py that hold accounts and refresh sessions, the errors and the settings
-- of services/auth.py. A row's id is its key. Columns that nothing decides on are left out (the user
-- agent and the address of a session, creation times).
use multi_agent_ad_optimizer.Prelude.{ℕ, String, Bool, Option, List}
use multi_agent_ad_optimizer.Prelude.Dict.{Dict}
use multi_agent_ad_optimizer.Security.Tokens.{Jwt, TokenError}

pub record User : Type 0 where
  pub email : String
  pub full_name : String
  pub hashed_password : String
  pub role : String
  pub is_active : Bool
  pub failed_login_count : ℕ
  pub locked_until : Option ℕ
  pub last_login_at : Option ℕ
  pub must_change_password : Bool

pub record RefreshSession : Type 0 where
  pub user_id : String
  pub expires_at : ℕ
  pub revoked_at : Option ℕ

-- The two tables, as the session of a request sees them.
pub record Accounts : Type 0 where
  pub users : Dict String User
  pub sessions : Dict String RefreshSession

-- What a password lacks.
pub data Problem : Type 0 where
  at_least : ℕ → Problem
  digit letter symbol : Problem

-- `integrity` is the database's refusal of a second row under a key or an email.
pub data AuthError : Type 0 where
  authentication conflict validation not_found : String → AuthError
  weak_password : List Problem → AuthError
  token : TokenError → AuthError
  integrity : AuthError

-- `PasswordHasherService`, whose three methods call the Argon2 library. `salt` is what a hash draws.
pub record Hasher : Type 0 where
  pub hash : String → String → String
  pub verify : String → String → Bool
  pub needs_rehash : String → Bool

-- `SecuritySettings`, the token service and the hasher. `lower` is Python's `str.lower`.
pub record AuthService (T : Type 0) : Type 0 where
  pub jwt : Jwt T
  pub hasher : Hasher
  pub lower : String → String
  pub max_failed_logins : ℕ
  pub lockout_seconds : ℕ
  pub password_min_length : ℕ
  pub bootstrap_admin_email : String
  pub bootstrap_admin_password : String
