-- ===== src/User/Auth/Protect.antt =====
-- internal/user/middleware.go: RequireAuth as a middleware. `W` is what the wrapped handlers store
-- besides the users; `cookie` is `r.Cookie` at the name of the session cookie, and `error_body` the
-- JSON envelope of a message.
use task_api.Common.{ℕ, String, Option, some, List, [], ◌∷◌, if◌then◌else◌, str_eq, ◌==◌}
use task_api.Common.Failure.{Context}
use task_api.Common.Log.{error}
use task_api.User.Repository.{Repository}
use task_api.User.Service.{Libraries, Process}
use task_api.User.Auth.{Credentials, credential_source, Verdict, answered, passed, require_auth}
use task_api.Web.{Op, log, note_user, Reply, Request, Handler}
use task_api.Web.Json.{json, reply}
use task_api.Web.Middleware.{Middleware, before}

-- What RequireAuth reads of a request.
unfoldable pub credentials : (Request → Option String) → Request → Credentials
credentials cookie r = record { authorization = r.header "Authorization"; cookie = cookie r }

module _ {P : Type 0} (error_body : String → P) where
  -- `writeAuthError`, after the log line of a lookup that failed
  unfoldable pub write_auth_error : ℕ → String → List (Op P)
  write_auth_error status token =
      if status == 503
      then log error "session lookup failed"
        ∷ json 503 (error_body "service temporarily unavailable, please retry")
      else json status (
          error_body (
            if str_eq token ""
            then "missing or invalid session credential"
            else "invalid or expired session token"))

  -- The verdict carried out: the answer, or the next handler with the user and the token in its
  -- context.
  unfoldable pub enforce :
      {St W : Type 0}
      → Handler P (Process St × W)
      → Request
      → String
      → W
      → Verdict × Process St
      → Reply P × (Process St × W)
  unfolding write_auth_error
  enforce next r token w (answered status, p) = (reply (write_auth_error status token), (p, w))
  enforce next r token w (passed user_id session_token, p) =
      before (note_user user_id ∷ [])
        (next (record r { user_id = some user_id; session_token = some session_token }) (p, w))

  -- `RequireAuth`
  unfoldable pub protect :
      {St W : Type 0}
      → Libraries
      → Repository St
      → Context
      → (ℕ → ℕ)
      → (Request → Option String)
      → Middleware P (Process St × W)
  unfolding credentials enforce
  protect libs repo ctx clock cookie next r (p, w) =
      let c = credentials cookie r in
      enforce next r (credential_source c).1 w (require_auth libs repo ctx clock c p)
