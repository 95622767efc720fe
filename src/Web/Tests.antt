-- ===== src/Web/Tests.antt =====
-- Runs of the middleware, and the theorems about it at concrete inputs.
use task_api.Common.{
  ℕ, String, ◌≡◌, refl, ◌≢◌, ◌⊎◌, true, false, ◌&&◌, none, some, [], ◌∷◌, arith, if◌then◌else◌,
  str_eq,
}
use task_api.Common.Dict.{insert}
use task_api.Common.Log.{error, info}
use task_api.Web.{write, Reply, returned, aborted, panicked, Request, Handler, answer, status_of}
use task_api.Web.Middleware.{is_valid_request_id, cors, access_level, Shell, root_handler}
use task_api.Web.Origins.{is_trusted, grants, cors_lem}
use task_api.Web.Answers.{IsAnswered, root_handler-IsAnswered}

-- A request whose headers are `header`.
abbrev request : String → (String → String) → Request
request path header = record {
  method = "OPTIONS";
  path = path;
  header = header;
  request_id = none;
  real_ip = none;
  user_id = none;
  session_token = none;
}

abbrev no_header : String → String
no_header name = ""

abbrev from_app : String → String
from_app name = if str_eq name "Origin" then "https://app.example" else ""

-- It panics on one path, and counts the requests that reach it.
abbrev app : Handler String ℕ
app r s =
    if str_eq r.path "/boom"
    then (record { ops = []; ending = panicked }, s)
    else (record { ops = write "ok" ∷ []; ending = returned }, s)

app-never : (q : Request) (t : ℕ) → (app q t).0.ending ≢ aborted
app-never q t = ground arith

abbrev shell : Shell String ℕ
shell = record {
  address_of = λ r. none;
  secure_headers = λ next. next;
  protector = λ next. next;
  csrf_header = "X-CSRF-Token";
  allowed_origins = "https://app.example" ∷ [];
  internal_error = "internal server error";
}

abbrev boom_reply : Reply String × ℕ
boom_reply = root_handler shell (some (λ i. 7)) 5 app (request "/boom" no_header) 0

panic_run : status_of boom_reply.0 ≡ some 500
unfolding root_handler str_eq answer insert
panic_run = refl

refused_id : is_valid_request_id "a b" ≡ false
unfolding is_valid_request_id str_eq
refused_id = refl

levels : (access_level 503 true ≡ error) × (access_level 401 false ≡ info)
unfolding access_level
levels = (refl, refl)

root_handler-IsAnswered_example : IsAnswered (request "/boom" no_header) boom_reply.0
root_handler-IsAnswered_example =
    root_handler-IsAnswered shell (some (λ i. 7)) 5 app (request "/boom" no_header) 0 (λ h ret. ret)
      (λ h ret. ret) app-never (omega arith)

cors_lem_example :
    (grants (cors "X-CSRF-Token" shell.allowed_origins app (request "/" from_app) 0).0.ops ≡ (
      if is_trusted shell.allowed_origins (request "/" from_app)
      then from_app "Origin" ∷ []
      else []))
    × ((cors "X-CSRF-Token" shell.allowed_origins app (request "/" from_app) 0).1 ≡ (
        if is_trusted shell.allowed_origins (request "/" from_app) && str_eq "OPTIONS" "OPTIONS"
        then 0
        else (app (request "/" from_app) 0).1))
    × (((is_trusted shell.allowed_origins (request "/" from_app) && str_eq "OPTIONS" "OPTIONS")
          ≡ false)
        ⊎ (status_of (cors "X-CSRF-Token" shell.allowed_origins app (request "/" from_app) 0).0
            ≡ some 204))
unfolding grants str_eq
cors_lem_example = cors_lem "X-CSRF-Token" shell.allowed_origins app (request "/" from_app) 0 refl
