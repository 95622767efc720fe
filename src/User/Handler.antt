-- ===== src/User/Handler.antt =====
-- internal/user/handler.go over any repository. `W` is what the rest of the program stores, which
-- only the cascade of an account's deletion reaches. What the JSON decoder made of a body is an
-- argument, `none` where it failed. Failures to encode an answer are left out.
pub mod Routes
pub mod Closing
pub mod Entering
pub mod Revoked
use task_api.Common.{
  ℕ, zero, suc, ◌-◌, String, Bool, true, false, not, Option, none, some, List, [], ◌∷◌, ◌++◌, leb,
  if◌then◌else◌, str_eq,
}
use task_api.Common.Decimal.{itoa}
use task_api.Common.Failure.{Context, ok, err, is, retry_after}
use task_api.Common.Int.{ℤ, pos, negsuc}
use task_api.Common.Log.{warn, error}
use task_api.Common.Text.{append}
use task_api.User.Entity.{
  User, UserError, UserResult, not_found, already_exists, invalid_input, invalid_credentials,
  dependency_unavailable, unavailable, user_sentinels,
}
use task_api.User.Repository.{Repository}
use task_api.User.Service.{
  Libraries, Config, Process, SessionInfo, ServiceAction, register, authenticate, verify_password,
  change_password, delete_account, create_session, logout, logout_all, list_sessions,
  revoke_session, get_user, normalize_email,
}
use task_api.Web.{Op, add_header, write_header, log, audit, Reply, Request, Handler, from_context}
use task_api.Web.Json.{json, retry_header, seconds, reply, answered}
pub use task_api.User.Answers.{
  Message, text, text_of, Body, user_body, login_body, csrf_body, me_body, sessions_body,
  empty_body, error_body, Ops, Cookie, session_cookie_name, internal_error,
}
unfoldable pub use task_api.User.Answers.{
  write_error, handle_service_error, cookie_text, set_cookie, session_cookie_max_age_seconds,
  set_session_cookie, clear_session_cookie,
}

-- `Handler` with what its service takes of the libraries. `rotate` is Protector.Rotate, with whether
-- it failed and what it did with the response; `csrf_token` is csrf.Token; `cascade` says whether it
-- succeeded.
pub record Settings (W : Type 0) : Type 0 where
  pub libs : Libraries
  pub config : Config
  pub cookie_insecure : Bool
  pub attachments_enabled : Bool
  pub rotate : Request → Bool × Ops
  pub csrf_token : Request → Option String
  pub cascade : Context → String → W → Bool × W

-- The fields of a decoded body: `registerRequest` and `loginRequest`, and `changePasswordRequest`.
pub record LoginRequest : Type 0 where
  pub email : String
  pub password : String

pub record ChangePasswordRequest : Type 0 where
  pub current_password : String
  pub new_password : String

module _ {St W : Type 0} (h : Settings W) (repo : Repository St) (ctx : Context) where
  -- A call of the service beside the rest of the program.
  abbrev pub on_users :
      {A : Type 0} → ServiceAction St A → Process St × W → UserResult A × (Process St × W)
  on_users m (p, w) = let (r, q) = m p in (r, (q, w))

  abbrev bad_body : Ops
  bad_body = write_error 400 (text "invalid request body")

  -- `register`
  unfoldable pub handle_register :
      ℕ → ℕ → Option (ℕ → ℕ) → Option LoginRequest → Handler Body (Process St × W)
  unfolding handle_service_error write_error
  handle_register now salt random none r s = (reply bad_body, s)
  handle_register now salt random (some f) r s =
      answered (λ u. json 201 (user_body u)) handle_service_error
        (on_users (register h.libs repo ctx now salt random f.email f.password) s)

  -- What `login` does with the response before it opens a session.
  abbrev pub rotated : Bool × Ops → Ops
  rotated (failed, ops) =
      if failed then ops ++ log error "csrf cookie rotation failed on login" ∷ [] else ops

  -- `login` from CreateSession on, with the time at which the cookie is made.
  abbrev pub issued : ℕ → User → UserResult (String × ℕ) → Ops
  issued now u (err e) = handle_service_error e
  issued now u (ok (token, expires_at)) =
      set_session_cookie now token expires_at h.cookie_insecure
      ++ json 200 (login_body token expires_at u)

  -- `login` from CreateSession on, with the time at which the cookie is made
  abbrev pub after_session :
      ℕ
      → User
      → String
      → Request
      → W
      → UserResult (String × ℕ) × Process St
      → Reply Body × (Process St × W)
  after_session now u email r w (session, p) =
      (reply (audit "login_success" email ∷ (rotated (h.rotate r) ++ issued now u session)), (p, w))

  -- `login` once Authenticate has answered
  abbrev pub after_authenticate :
      (ℕ → ℕ)
      → Option (ℕ → ℕ)
      → String
      → Request
      → W
      → UserResult User × Process St
      → Reply Body × (Process St × W)
  after_authenticate clock random email r w (err e, p) = (
    reply (
        (if is e invalid_credentials then audit "login_failure" email ∷ [] else [])
        ++ handle_service_error e),
    (p, w),
  )
  after_authenticate clock random email r w (ok u, p) =
      after_session (clock 3) u email r w
        (create_session h.libs repo h.config ctx (clock 2) random u.id p)

  -- `login`
  unfoldable pub handle_login :
      (ℕ → ℕ) → Option (ℕ → ℕ) → Option LoginRequest → Handler Body (Process St × W)
  unfolding handle_service_error write_error set_session_cookie
  handle_login clock random none r s = (reply bad_body, s)
  handle_login clock random (some f) r (p, w) =
      after_authenticate clock random (normalize_email h.libs f.email) r w
        (authenticate h.libs repo ctx clock f.email f.password p)

  -- `changePassword`
  unfoldable pub handle_change_password :
      ℕ → ℕ → Option ChangePasswordRequest → Handler Body (Process St × W)
  unfolding handle_service_error write_error
  handle_change_password now salt none r s = (reply bad_body, s)
  handle_change_password now salt (some f) r s =
      let user_id = from_context r.user_id in
      answered (λ _. audit "password_changed" user_id ∷ json 200 empty_body) handle_service_error
        (on_users
          (change_password h.libs repo ctx now salt user_id f.current_password f.new_password
            (from_context r.session_token))
          s)

  -- The answer to a session that has ended.
  abbrev pub signed_out : Ops
  signed_out = clear_session_cookie h.cookie_insecure ++ write_header 204 ∷ []

  -- `logout`
  unfoldable pub handle_logout : Handler Body (Process St × W)
  unfolding handle_service_error clear_session_cookie
  handle_logout r s =
      answered (λ _. signed_out) handle_service_error
        (on_users (logout h.libs repo ctx (from_context r.session_token)) s)

  -- `logoutAll`
  unfoldable pub handle_logout_all : Handler Body (Process St × W)
  unfolding handle_service_error clear_session_cookie
  handle_logout_all r s =
      let user_id = from_context r.user_id in
      answered (λ _. audit "logout_all" user_id ∷ signed_out) handle_service_error
        (on_users (logout_all h.libs repo ctx user_id) s)

  -- `csrfToken`
  unfoldable pub handle_csrf_token : Handler Body (Process St × W)
  unfolding write_error
  handle_csrf_token r s = (
    reply (elim (h.csrf_token r) [
      | none ↦
          log error "csrf token requested but csrf.Protector.Middleware never ran for this request"
          ∷ internal_error
      | some token ↦ json 200 (csrf_body token)
    ]),
    s,
  )

  -- `me`
  unfoldable pub handle_me : Handler Body (Process St × W)
  unfolding handle_service_error
  handle_me r s =
      answered (λ u. json 200 (me_body u h.attachments_enabled)) handle_service_error
        (on_users (get_user h.libs repo ctx (from_context r.user_id)) s)

  -- `deleteAccount` once the cascade has run
  abbrev pub after_cascade : String → Process St → Bool × W → Reply Body × (Process St × W)
  after_cascade user_id q (false, w) =
      (reply (log error "account deletion cascade failed" ∷ internal_error), (q, w))
  after_cascade user_id q (true, w) =
      answered (λ _. audit "account_deleted" user_id ∷ signed_out) handle_service_error
        (on_users (delete_account h.libs repo ctx user_id) (q, w))

  -- `deleteAccount` once the password has been checked
  abbrev pub after_check :
      String → W → UserResult (Unit {0}) × Process St → Reply Body × (Process St × W)
  after_check user_id w (err e, q) = (reply (handle_service_error e), (q, w))
  after_check user_id w (ok _, q) = after_cascade user_id q (h.cascade ctx user_id w)

  -- `deleteAccount`, with the decoded current password
  unfoldable pub handle_delete_account : Option String → Handler Body (Process St × W)
  unfolding handle_service_error write_error clear_session_cookie
  handle_delete_account none r s = (reply bad_body, s)
  handle_delete_account (some current_password) r (p, w) =
      let user_id = from_context r.user_id in
      after_check user_id w (verify_password h.libs repo ctx user_id current_password p)

  -- `listSessions`
  unfoldable pub handle_list_sessions : Handler Body (Process St × W)
  unfolding handle_service_error
  handle_list_sessions r s =
      answered (λ sessions. json 200 (sessions_body sessions)) handle_service_error
        (on_users
          (list_sessions h.libs repo ctx (from_context r.user_id) (from_context r.session_token)) s)

  -- `revokeSession`, with the path value
  unfoldable pub handle_revoke_session : String → Handler Body (Process St × W)
  unfolding handle_service_error
  handle_revoke_session session_id r s =
      answered (λ _. write_header 204 ∷ []) handle_service_error
        (on_users (revoke_session h.libs repo ctx (from_context r.user_id) session_id) s)
