-- ===== src/User/Answers.antt =====
-- internal/user/handler.go: the answers of its handlers. What is written as a body, the errors, and
-- the session cookie.
use task_api.Common.{ℕ, zero, suc, ◌-◌, String, Bool, not, List, [], ◌∷◌, ◌++◌, leb, if◌then◌else◌}
use task_api.Common.Decimal.{itoa}
use task_api.Common.Failure.{is, retry_after}
use task_api.Common.Int.{ℤ, pos, negsuc}
use task_api.Common.Log.{warn, error}
use task_api.Common.Text.{append}
use task_api.User.Entity.{
  User, UserError, not_found, already_exists, invalid_input, invalid_credentials,
  dependency_unavailable, unavailable, user_sentinels,
}
use task_api.User.Service.{SessionInfo}
use task_api.Web.{Op, add_header, log}
use task_api.Web.Json.{json, retry_header, seconds}

-- The message of an error answer: a constant of the source, or the text of an error.
pub data Message : Type 0 where
  text : String → Message
  text_of : UserError → Message

-- What is written as a body: `registerResponse`, `loginResponse`, `csrfTokenResponse`, `meResponse`,
-- the sessions, `struct{}{}`, and an error.
pub data Body : Type 0 where
  user_body : User → Body
  login_body : String → ℕ → User → Body
  csrf_body : String → Body
  me_body : User → Bool → Body
  sessions_body : List SessionInfo → Body
  empty_body : Body
  error_body : Message → Body

abbrev pub Ops : Type 0
Ops = List (Op Body)

-- `writeError`
unfoldable pub write_error : ℕ → Message → Ops
write_error status message = json status (error_body message)

abbrev pub internal_error : Ops
internal_error = write_error 500 (text "internal server error")

abbrev please_retry : Message
please_retry = text "service temporarily unavailable, please retry"

-- `handleServiceError`
unfoldable pub handle_service_error : UserError → Ops
unfolding is retry_after write_error
handle_service_error e =
    if is e not_found
    then write_error 404 (text "user not found")
    else if is e invalid_input
    then write_error 400 (text_of e)
    else if is e already_exists
    then write_error 409 (text "email already registered")
    else if is e invalid_credentials
    then write_error 401 (text "invalid email or password")
    else if is e dependency_unavailable
    then log error "dependency unavailable" ∷ write_error 503 please_retry
    else if is e unavailable
    then log warn "database circuit open, call rejected"
      ∷ (retry_header (retry_after e) ++ write_error 503 please_retry)
    else log error "unexpected service error" ∷ internal_error

-- The attributes in which the program's cookies differ.
pub record Cookie : Type 0 where
  pub value : String
  pub max_age : ℤ
  pub secure : Bool

abbrev pub session_cookie_name : String
session_cookie_name = "session_token"

-- The text of `http.Cookie` for the path "/", with HttpOnly and SameSite=Lax. The values of the
-- program are hexadecimal or empty, which SetCookie leaves as they are.
unfoldable pub cookie_text : Cookie → String
unfolding itoa
cookie_text c = append session_cookie_name (
    append "=" (
      append c.value (
        append "; Path=/" (
          append
            (elim c.max_age [
              | pos n ↦ if leb n 0 then "" else append "; Max-Age=" (itoa n)
              | negsuc n ↦ "; Max-Age=0"
            ])
            (append "; HttpOnly"
              (append (if c.secure then "; Secure" else "") "; SameSite=Lax"))))))

-- `http.SetCookie`
unfoldable pub set_cookie : Cookie → Op Body
unfolding cookie_text
set_cookie c = add_header "Set-Cookie" (cookie_text c)

-- `sessionCookieMaxAgeSeconds`, at the time `now`: rounded towards zero on either side of the expiry
unfoldable pub session_cookie_max_age_seconds : ℕ → ℕ → ℤ
session_cookie_max_age_seconds now expires_at =
    if leb now expires_at
    then pos (seconds (expires_at - now))
    else elim (seconds (now - expires_at)) [ zero ↦ pos 0 | suc n ↦ negsuc n ]

-- `setSessionCookie`
unfoldable pub set_session_cookie : ℕ → String → ℕ → Bool → Ops
unfolding set_cookie session_cookie_max_age_seconds
set_session_cookie now token expires_at insecure =
    set_cookie (record {
      value = token;
      max_age = session_cookie_max_age_seconds now expires_at;
      secure = not insecure;
    })
    ∷ []

-- `clearSessionCookie`
unfoldable pub clear_session_cookie : Bool → Ops
unfolding set_cookie
clear_session_cookie insecure =
    set_cookie (record { value = ""; max_age = negsuc 0; secure = not insecure }) ∷ []
