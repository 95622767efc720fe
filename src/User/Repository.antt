-- ===== src/User/Repository.antt =====
-- internal/user/repository.go: the interface as a record of operations on a state `St`.
use task_api.Common.{ℕ, String, List}
use task_api.Common.Failure.{Action, Context}
use task_api.User.Entity.{User, Session, Sentinel}

abbrev pub RepoAction : Type 0 → Type 0 → Type 0
RepoAction = Action Sentinel

-- `update_user_password` takes the time that the store's own clock gives.
pub record Repository (St : Type 0) : Type 0 where
  pub create_user : Context → User → RepoAction St (Unit {0})
  pub find_user_by_email : Context → String → RepoAction St User
  pub find_user_by_id : Context → String → RepoAction St User
  pub update_user_password : ℕ → Context → String → String → RepoAction St (Unit {0})
  pub delete_user : Context → String → RepoAction St (Unit {0})
  pub create_session : Context → Session → ℕ → RepoAction St (Unit {0})
  pub find_session_by_token_hash : Context → String → RepoAction St Session
  pub delete_session : Context → String → RepoAction St (Unit {0})
  pub find_sessions_for_user : Context → String → RepoAction St (List Session)
  pub delete_sessions_for_user : Context → String → RepoAction St (Unit {0})
  pub delete_sessions_for_user_except : Context → String → String → RepoAction St (Unit {0})
  pub delete_expired_sessions : Context → ℕ → RepoAction St (Unit {0})
