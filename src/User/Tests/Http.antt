-- ===== src/User/Tests/Http.antt =====
-- The theorems on internal/user/handler.go at inputs that meet their hypotheses.
use task_api.Common.{
  ℕ, String, ◌≡◌, refl, true, false, none, some, [], ◌∷◌, str_eq, Option, if◌then◌else◌,
}
use task_api.Common.Dict.{lookup}
use task_api.Common.Text.{append}
use task_api.Common.Uuid.{hex_encode}
use task_api.User.Memory.{Store, memory_repository}
use task_api.Common.Int.{negsuc}
use task_api.User.Service.{Process, hash_token, session_token_bytes}
use task_api.User.Auth.{credential_source}
use task_api.User.Auth.Protect.{credentials}
use task_api.User.Handler.{Settings, LoginRequest, cookie_text}
use task_api.User.Handler.Closing.{ClosesOrKeeps, handle_delete_account_guarded}
use task_api.User.Tests.{libs, process, process-IsUnique, process-Agree, stolen-BelongsTo}
use task_api.User.Service.Changes.{logout_request}
use task_api.User.Service.Revocation.{Gone, serve_all}
use task_api.User.Handler.Routes.{get_me, route}
use task_api.User.Handler.Revoked.{guard, route-Gone}
use task_api.Web.{status_of, write, Request, Handler}
use task_api.Web.Json.{reply}

abbrev settings : Settings ℕ
settings = record {
  libs = libs;
  config = record { session_ttl = 1000; max_sessions_per_user = 5 };
  cookie_insecure = false;
  attachments_enabled = true;
  rotate = λ r. (false, []);
  csrf_token = λ r. some "t";
  cascade = λ c u tasks. (true, 0);
}

abbrev request : (String → String) → Request
request header = record {
  method = "DELETE";
  path = "/v1/auth/me";
  header = header;
  request_id = none;
  real_ip = none;
  user_id = some "ann";
  session_token = some "bb";
}

abbrev plain : Request
plain = request (λ name. "")

cleared :
    cookie_text (record { value = ""; max_age = negsuc 0; secure = true })
    ≡ "session_token=; Path=/; Max-Age=0; HttpOnly; Secure; SameSite=Lax"
unfolding cookie_text
cleared = refl

handle_delete_account_guarded_example :
    ClosesOrKeeps settings (hash_token libs "bb") "correct horse" plain process 3
handle_delete_account_guarded_example =
    handle_delete_account_guarded settings (hash_token libs "bb") "correct horse" plain process 3
      process-IsUnique process-Agree stolen-BelongsTo

abbrev bytes : ℕ → ℕ
bytes i = 171

abbrev drawn : String
drawn = hex_encode session_token_bytes bytes 0

abbrev bearer : Request
bearer = request (λ name. if str_eq name "Authorization" then append "Bearer " drawn else "")

abbrev login : LoginRequest
login = record { email = " ann@example.org"; password = "correct horse" }

abbrev no_cookie : Request → Option String
no_cookie r = none

abbrev next : Handler String (Process Store × ℕ)
next r s = (reply (write "ok" ∷ []), s)

-- The calls of a process that has let the token go.
abbrev cookie_of : Request → Option String
cookie_of r = some "ccc"

never_stored : Gone (hash_token libs (credential_source (credentials cookie_of plain)).1) process
unfolding lookup str_eq hash_token hex_encode credential_source credentials
never_stored = (refl, refl)

route-Gone_example :
    let p = serve_all libs ((none, logout_request "a") ∷ []) process in
    let (answer, after) =
      route settings memory_repository none
        (guard settings (λ i. 7) cookie_of)
        (λ next. next)
        get_me
        plain
        (p, 3) in
    (status_of answer ≡ some 401) × (after ≡ (p, 3))
route-Gone_example =
    route-Gone settings (λ i. 7) cookie_of (λ next. next) get_me ((none, logout_request "a") ∷ [])
      plain process 3 tt process-IsUnique never_stored (λ e. cc, tt)
