-- ===== src/Web/Middleware.antt =====
-- internal/middleware: functions from a handler to a handler, and their chain.
use Prim.Native.Char.{Char, code}
use Prim.Native.String.{String, [] as empty, ◌∷◌ as chars}
use task_api.Common.{
  ℕ, Bool, true, false, not, ◌&&◌, ◌||◌, Option, none, some, List, [], ◌∷◌, ◌++◌, ltb, leb, ◌==◌,
  if◌then◌else◌, str_eq, any,
}
use task_api.Common.Decimal.{itoa}
use task_api.Common.Log.{Level, debug, info, warn, error}
use task_api.Common.Text.{append, byte_length}
use task_api.Common.Strings.{starts_with}
use task_api.Common.Uuid.{hex_encode}
use task_api.Web.{
  Access, Op, set_header, add_header, write_header, write, log, access, note_user, Ending, returned,
  panicked, Reply, Request, Handler, from_context,
}

abbrev pub Middleware : Type 0 → Type 0 → Type 0
Middleware P St = Handler P St → Handler P St

module _ {P St : Type 0} where
  -- `Chain`: the first middleware is the outermost.
  unfoldable pub chain : List (Middleware P St) → Middleware P St
  chain [] final = final
  chain (m ∷ ms) final = m (chain ms final)

  -- Some calls before those of the next handler.
  abbrev pub before : List (Op P) → Reply P × St → Reply P × St
  before ops (reply, s) = (record reply { ops = ops ++ reply.ops }, s)

-- The characters that `isValidRequestID` admits.
unfoldable pub is_id_char : Char → Bool
is_id_char ch =
    let c = code ch in
    (leb b'a' c && leb c b'z')
    || (leb b'A' c && leb c b'Z')
    || (leb b'0' c && leb c b'9')
    || c == b'-'
    || c == b'_'

unfoldable pub all_chars : (Char → Bool) → String → Bool
all_chars test empty = true
all_chars test (chars c s) = if test c then all_chars test s else false

abbrev pub max_request_id_len : ℕ
max_request_id_len = 128

unfoldable pub is_valid_request_id : String → Bool
unfolding is_id_char all_chars byte_length
is_valid_request_id id =
    if str_eq id "" || ltb max_request_id_len (byte_length id)
    then false
    else all_chars is_id_char id

-- `newRequestID`, with the sixteen bytes of the random source, `none` where it fails, and the clock
-- in nanoseconds.
unfoldable pub new_request_id : Option (ℕ → ℕ) → ℕ → String
unfolding hex_encode itoa
new_request_id none now = append "fallback-" (itoa now)
new_request_id (some b) now = hex_encode 16 b 0

unfoldable pub is_safe_method : String → Bool
is_safe_method m = str_eq m "GET" || str_eq m "HEAD" || str_eq m "OPTIONS" || str_eq m "TRACE"

-- The level of an entry by its status, before the quiet paths.
unfoldable pub access_level : ℕ → Bool → Level
access_level status quiet =
    let level =
      if leb 500 status
      then error
      else if status == 429 || status == 401
      then info
      else if leb 400 status
      then warn
      else info in
    if ltb status 400 && quiet then debug else level

module _ {P : Type 0} where
  -- What `CORS` does for a request from an allowed origin.
  abbrev pub allow : String → List (Op P)
  allow origin =
      set_header "Access-Control-Allow-Origin" origin
      ∷ set_header "Access-Control-Allow-Credentials" "true"
      ∷ set_header "Access-Control-Expose-Headers" "X-Total-Count, ETag"
      ∷ []

  -- The answer to a preflight; `csrf_header` is the library's header name.
  abbrev pub preflight : String → List (Op P)
  preflight csrf_header =
      set_header "Access-Control-Allow-Methods" "GET, POST, PUT, PATCH, DELETE, OPTIONS"
      ∷ set_header "Access-Control-Allow-Headers"
          (append "Authorization, Content-Type, X-Request-Id, " csrf_header)
      ∷ set_header "Access-Control-Max-Age" "600"
      ∷ write_header 204
      ∷ []

  -- The fields of `statusRecorder` after some calls.
  unfoldable pub recorded : List (Op P) → ℕ × Bool → ℕ × Bool
  recorded [] r = r
  recorded (write_header n ∷ ops) (status, wrote) =
      recorded ops (if wrote then (status, wrote) else (n, true))
  recorded (write b ∷ ops) (status, wrote) =
      recorded ops (if wrote then (status, wrote) else (200, true))
  recorded (_ ∷ ops) r = recorded ops r

  -- The user that the innermost handler noted last.
  unfoldable pub noted : List (Op P) → String → String
  noted [] user = user
  noted (note_user id ∷ ops) user = noted ops id
  noted (_ ∷ ops) user = noted ops user

module _ {P : Type 0} where
  -- What `Logging` writes about a request and the calls of its handler.
  abbrev pub access_entry : List String → Request → List (Op P) → Access
  access_entry quiet_paths r ops =
      let status = (recorded ops (200, false)).0 in
      record {
        level = access_level status (any (str_eq r.path) quiet_paths);
        method = r.method;
        path = r.path;
        status = status;
        request_id = from_context r.request_id;
        user_id = noted ops "";
      }

  abbrev pub logged : List String → Request → Ending → List (Op P) → Reply P
  logged quiet_paths r returned ops = record {
    ops = ops ++ access (access_entry quiet_paths r ops) ∷ [];
    ending = returned;
  }
  logged quiet_paths r ending ops = record { ops = ops; ending = ending }

  -- The deferred function of `Recovery`, for a response that has started or not.
  abbrev pub recovered : P → Bool → Ending → List (Op P) → Reply P
  recovered internal_error started panicked ops =
      let reported = ops ++ log error "panic recovered" ∷ [] in
      let answered =
        reported
        ++ set_header "Content-Type" "application/json"
          ∷ write_header 500
          ∷ write internal_error
          ∷ [] in
      record { ops = if started then reported else answered; ending = returned }
  recovered internal_error started ending ops = record { ops = ops; ending = ending }

module _ {P St : Type 0} where
  -- `RequestID`; `X-Request-Id` is the form in which net/http keeps the name of the header.
  unfoldable pub request_id : Option (ℕ → ℕ) → ℕ → Middleware P St
  unfolding is_valid_request_id new_request_id
  request_id random now next r s =
      let given = r.header "X-Request-Id" in
      let id = if not (is_valid_request_id given) then new_request_id random now else given in
      before (set_header "X-Request-Id" id ∷ []) (next (record r { request_id = some id }) s)

  -- `RealIP`: the library's address of a request, `none` where it gives an error.
  unfoldable pub real_ip : (Request → Option String) → Middleware P St
  real_ip address_of next r s = next (record r { real_ip = some (from_context (address_of r)) }) s

  unfoldable pub cors : String → List String → Middleware P St
  cors csrf_header [] next r s = next r s
  cors csrf_header (first ∷ others) next r s =
      let vary : List (Op P) = add_header "Vary" "Origin" ∷ [] in
      let origin = r.header "Origin" in
      if str_eq origin "" || not (any (str_eq origin) (first ∷ others))
      then before vary (next r s)
      else if str_eq r.method "OPTIONS"
      then (record { ops = vary ++ allow origin ++ preflight csrf_header; ending = returned }, s)
      else before (vary ++ allow origin) (next r s)

  -- `CSRF` around the library's protector.
  unfoldable pub csrf : Middleware P St → Middleware P St
  unfolding is_safe_method
  csrf protector next r s =
      if not (is_safe_method r.method) && not (str_eq (r.header "Authorization") "")
      then next r s
      else protector next r s

  -- `CacheControl`
  unfoldable pub cache_control : String → Middleware P St
  cache_control auth_prefix next r s =
      let policy =
        if starts_with auth_prefix r.path then "private, no-store" else "private, no-cache" in
      before (set_header "Cache-Control" policy ∷ []) (next r s)

  -- `Logging`: the entry is written when the next handler has returned, not when it panics.
  unfoldable pub logging : List String → Middleware P St
  unfolding recorded noted access_level
  logging quiet_paths next r s =
      let (reply, t) = next r s in (logged quiet_paths r reply.ending reply.ops, t)

  -- `Recovery`, behind `Logging` (`recorder`), whose writer knows whether the response has started.
  unfoldable pub recovery : Bool → P → Middleware P St
  unfolding recorded
  recovery recorder internal_error next r s =
      let (reply, t) = next r s in
      let started = recorder && (recorded reply.ops (200, false)).1 in
      (recovered internal_error started reply.ending reply.ops, t)

-- What `cmd/api/main.go` builds of the libraries: the security headers and the CSRF protector, with
-- the name of its header.
pub record Shell (P St : Type 0) : Type 0 where
  pub address_of : Request → Option String
  pub secure_headers : Middleware P St
  pub protector : Middleware P St
  pub csrf_header : String
  pub allowed_origins : List String
  pub internal_error : P

-- `rootHandler` around the router, with what `RequestID` draws for one request.
unfoldable pub root_handler : {P St : Type 0} → Shell P St → Option (ℕ → ℕ) → ℕ → Middleware P St
unfolding chain request_id real_ip logging cors csrf recovery
root_handler shell random now = chain (
    request_id random now
    ∷ real_ip shell.address_of
    ∷ logging ("/health" ∷ "/health/ready" ∷ [])
    ∷ shell.secure_headers
    ∷ cors shell.csrf_header shell.allowed_origins
    ∷ csrf shell.protector
    ∷ recovery true shell.internal_error
    ∷ [])
