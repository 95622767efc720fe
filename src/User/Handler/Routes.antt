-- ===== src/User/Handler/Routes.antt =====
-- internal/user/handler.go: `RegisterRoutes`. A route comes with what its handler takes besides the
-- request: the readings of the clock, the salt, the random bytes, the decoded body, the path value.
use task_api.Common.{ℕ, String, Option}
use task_api.Common.Failure.{Context}
use task_api.User.Repository.{Repository}
use task_api.User.Service.{Process}
use task_api.User.Handler.{
  Body, Settings, LoginRequest, ChangePasswordRequest, handle_register, handle_login,
  handle_csrf_token, handle_change_password, handle_logout, handle_logout_all, handle_me,
  handle_delete_account, handle_list_sessions, handle_revoke_session,
}
use task_api.Web.{Handler}
use task_api.Web.Middleware.{Middleware}

pub data Route : Type 0 where
  post_register : ℕ → ℕ → Option (ℕ → ℕ) → Option LoginRequest → Route
  post_login : (ℕ → ℕ) → Option (ℕ → ℕ) → Option LoginRequest → Route
  get_csrf_token : Route
  post_password : ℕ → ℕ → Option ChangePasswordRequest → Route
  post_logout post_logout_all get_me : Route
  delete_me : Option String → Route
  get_sessions : Route
  delete_session : String → Route

module _ {St W : Type 0} (h : Settings W) (repo : Repository St) (ctx : Context)
    (require_auth rate_limit : Middleware Body (Process St × W)) where
  unfoldable pub route : Route → Handler Body (Process St × W)
  unfolding handle_register handle_login handle_csrf_token handle_change_password handle_logout
      handle_logout_all handle_me handle_delete_account handle_list_sessions handle_revoke_session
  route (post_register now salt random body) =
      rate_limit (handle_register h repo ctx now salt random body)
  route (post_login clock random body) = rate_limit (handle_login h repo ctx clock random body)
  route get_csrf_token = handle_csrf_token h repo ctx
  route (post_password now salt body) =
      require_auth (handle_change_password h repo ctx now salt body)
  route post_logout = require_auth (handle_logout h repo ctx)
  route post_logout_all = require_auth (handle_logout_all h repo ctx)
  route get_me = require_auth (handle_me h repo ctx)
  route (delete_me body) = require_auth (handle_delete_account h repo ctx body)
  route get_sessions = require_auth (handle_list_sessions h repo ctx)
  route (delete_session session_id) = require_auth (handle_revoke_session h repo ctx session_id)
