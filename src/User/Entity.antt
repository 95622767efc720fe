-- ===== src/User/Entity.antt =====
-- internal/user/user.go and errors.go.
use task_api.Common.{ℕ, String, Bool, true, false}
use task_api.Common.Failure.{Sentinels, Error, Result}

-- Times are nanoseconds.
pub record User : Type 0 where
  pub id : String
  pub email : String
  pub created_at : ℕ
  pub updated_at : ℕ
  pub password_hash : String

pub record Session : Type 0 where
  pub token_hash : String
  pub user_id : String
  pub expires_at : ℕ
  pub created_at : ℕ

-- The package's sentinels, in the order of errors.go.
pub data Sentinel : Type 0 where
  not_found already_exists invalid_input invalid_credentials : Sentinel
  dependency_unavailable unavailable : Sentinel

abbrev pub sentinel_eq : Sentinel → Sentinel → Bool
sentinel_eq not_found not_found = true
sentinel_eq already_exists already_exists = true
sentinel_eq invalid_input invalid_input = true
sentinel_eq invalid_credentials invalid_credentials = true
sentinel_eq dependency_unavailable dependency_unavailable = true
sentinel_eq unavailable unavailable = true
sentinel_eq _ _ = false

instance abbrev pub user_sentinels : Sentinels Sentinel
user_sentinels = record { same = sentinel_eq; unavailable = unavailable }

abbrev pub UserError : Type 0
UserError = Error Sentinel

abbrev pub UserResult : Type 0 → Type 0
UserResult = Result Sentinel
