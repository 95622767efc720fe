-- ===== src/Task/Handler.antt =====
-- internal/task/handler.go over any repository. What the JSON decoder made of a body is an argument,
-- `none` where it failed, and so are the path value, the query, and what a call of the service takes
-- from outside. Failures to encode an answer or to reach the client are left out, but for the export.
pub mod Etags
pub mod Conditional
pub mod Paging
pub mod Export
pub mod Routes
pub mod Faults
pub mod Down
pub mod Unavailable
pub mod Rejected
use task_api.Common.{
  ℕ, ◌/◌, String, Bool, true, false, ◌||◌, Option, none, some, List, [], ◌∷◌, ◌++◌, ltb,
  if◌then◌else◌, str_eq, any, map,
}
use task_api.Common.Decimal.{itoa, atoi}
use task_api.Common.Failure.{Context, Result, ok, err, sentinel, wrapped, is, retry_after}
use task_api.Common.Int.{ℤ, pos, negsuc}
use task_api.Common.Log.{warn, error}
use task_api.Common.Strings.{split}
use task_api.Common.Text.{append, trim_space}
use task_api.Task.Entity.{
  Task, TaskError, TaskResult, not_found, already_exists, invalid_input, conflict,
  invalid_transition, dependency_unavailable, unavailable, task_sentinels,
}
use task_api.Task.Repository.{Repository}
use task_api.Task.Service.{
  Sanitizer, Stats, create_task, get_task, list_tasks, task_stats, update_task, delete_task,
  transition_status, complete_task,
}
use task_api.Web.Json.{json, retry_header}
pub use task_api.Web.Json.{seconds, reply, answered}
use task_api.Web.{
  Op, set_header, write_header, write, log, Ending, returned, Reply, Request, Handler, from_context,
}

-- The message of an error answer: a constant of the source, or the text of an error.
pub data Message : Type 0 where
  text : String → Message
  text_of : TaskError → Message

-- What is written as a body. An error has its message and, where it is not left out, its reason; the
-- export writes the byte order mark and rows of fields.
pub data Body : Type 0 where
  task_body : Task → Body
  tasks_body : List Task → Body
  stats_body : Stats → Body
  error_body : Message → Option String → Body
  byte_order_mark : Body
  row_body : List String → Body

abbrev pub Ops : Type 0
Ops = List (Op Body)

-- `writeJSON`
unfoldable pub write_json : ℕ → Body → Ops
write_json status body = json status body

unfoldable pub write_error : ℕ → Message → Ops
unfolding write_json
write_error status message = write_json status (error_body message none)

unfoldable pub write_error_with_reason : ℕ → Message → String → Ops
unfolding write_json
write_error_with_reason status message reason = write_json status (error_body message (some reason))

abbrev please_retry : Message
please_retry = text "service temporarily unavailable, please retry"

-- `handleServiceError`
unfoldable pub handle_service_error : TaskError → Ops
unfolding is retry_after write_error
handle_service_error e =
    if is e not_found
    then write_error 404 (text "task not found")
    else if is e invalid_input
    then write_error 400 (text_of e)
    else if is e already_exists
    then write_error 409 (text "task already exists")
    else if is e conflict
    then write_error 409 (text "task was modified concurrently, please retry")
    else if is e invalid_transition
    then write_error 409 (text_of e)
    else if is e dependency_unavailable
    then log error "dependency unavailable" ∷ write_error 503 please_retry
    else if is e unavailable
    then log warn "database circuit open, call rejected"
      ∷ (retry_header (retry_after e) ++ write_error 503 please_retry)
    else log error "unexpected service error" ∷ write_error 500 (text "internal server error")

-- `handleTransitionStatusError`
unfoldable pub handle_transition_status_error : TaskError → Ops
unfolding is handle_service_error write_error_with_reason
handle_transition_status_error e =
    if is e conflict
    then write_error_with_reason 409 (text "task was modified concurrently, please retry")
        "concurrency"
    else if is e invalid_transition
    then write_error_with_reason 409 (text_of e) "invalid_transition"
    else handle_service_error e

-- `taskETag`
unfoldable pub task_etag : Task → String
unfolding itoa
task_etag t = append "\"" (append t.id (append ":" (append (itoa t.version) "\"")))

-- What `pageETag` feeds the digest.
unfoldable pub page_text : List Task → String
unfolding itoa
page_text [] = ""
page_text (t ∷ ts) = append t.id (append ":" (append (itoa t.version) (append ";" (page_text ts))))

-- `pageETag`, over the hexadecimal SHA-256 digest of a text
unfoldable pub page_etag : (String → String) → List Task → String
unfolding page_text
page_etag sha256 tasks = append "\"" (append (sha256 (page_text tasks)) "\"")

-- `ifNoneMatchHits`
unfoldable pub if_none_match_hits : String → String → Bool
if_none_match_hits header etag =
    if str_eq header ""
    then false
    else if str_eq header "*"
    then true
    else any (str_eq etag) (map trim_space (split b',' header))

abbrev pub max_task_list_limit : ℕ
max_task_list_limit = 100

-- The values of a query parameter, and the first of them.
abbrev pub Query : Type 0
Query = String → List String

abbrev pub first_value : List String → String
first_value [] = ""
first_value (v ∷ vs) = v

abbrev pub refusal : {A : Type 0} → TaskResult A
refusal = err (wrapped (sentinel invalid_input))

unfoldable pub parse_limit : String → TaskResult ℤ
parse_limit raw = if str_eq raw "" then ok (negsuc 0) else elim (atoi raw) [
  | none ↦ refusal
  | some (negsuc n) ↦ refusal
  | some (pos n) ↦ if ltb max_task_list_limit n then refusal else ok (pos n)
]

unfoldable pub parse_offset : String → TaskResult ℕ
parse_offset raw =
    if str_eq raw ""
    then ok 0
    else elim (atoi raw) [ none ↦ refusal | some (negsuc n) ↦ refusal | some (pos n) ↦ ok n ]

-- The first error, or both numbers.
unfoldable pub page_of : TaskResult ℤ → TaskResult ℕ → TaskResult (ℤ × ℕ)
page_of (err e) offset = err e
page_of (ok limit) (err e) = err e
page_of (ok limit) (ok offset) = ok (limit, offset)

-- `parsePagination`
unfoldable pub parse_pagination : Query → TaskResult (ℤ × ℕ)
unfolding parse_limit parse_offset page_of
parse_pagination query =
    page_of (parse_limit (first_value (query "limit")))
      (parse_offset (first_value (query "offset")))

-- An answer with an entity tag: 304 without a body if the client has it.
abbrev pub tagged : Request → String → Ops → Ops
tagged r etag ops =
    set_header "ETag" etag
    ∷ (if if_none_match_hits (r.header "If-None-Match") etag then write_header 304 ∷ [] else ops)

-- The fields of a decoded body.
pub record TaskFields : Type 0 where
  pub title : String
  pub description : String
  pub priority : String

module _ {St : Type 0} (repo : Repository St) (clean : Sanitizer) (ctx : Context) where
  abbrev bad_body : Ops
  bad_body = write_error 400 (text "invalid request body")

  -- `createTask`
  unfoldable pub handle_create : ℕ → Option (ℕ → ℕ) → Option TaskFields → Handler Body St
  unfolding handle_service_error write_json write_error
  handle_create now random none r s = (reply bad_body, s)
  handle_create now random (some f) r s =
      answered (λ task. write_json 201 (task_body task)) handle_service_error
        (create_task repo clean ctx now random (from_context r.user_id) f.title f.description
          f.priority s)

  -- `listTasks`, behind what `parsePagination` gave
  unfoldable pub list_page : (String → String) → Query → TaskResult (ℤ × ℕ) → Handler Body St
  unfolding page_etag if_none_match_hits handle_service_error write_json write_error
  list_page sha256 query (err e) r s = (reply (write_error 400 (text_of e)), s)
  list_page sha256 query (ok (limit, offset)) r s =
      answered
        (λ (tasks, total).
          set_header "X-Total-Count" (itoa total)
          ∷ tagged r (page_etag sha256 tasks) (write_json 200 (tasks_body tasks)))
        handle_service_error
        (list_tasks repo ctx (from_context r.user_id) limit offset (query "status")
          (query "priority") s)

  unfoldable pub handle_list : (String → String) → Query → Handler Body St
  unfolding parse_pagination list_page
  handle_list sha256 query = list_page sha256 query (parse_pagination query)

  -- `taskStats`
  unfoldable pub handle_stats : Query → Handler Body St
  unfolding handle_service_error write_json
  handle_stats query r s =
      answered (λ stats. write_json 200 (stats_body stats)) handle_service_error
        (task_stats repo ctx (from_context r.user_id) (query "status") (query "priority") s)

  -- `getTask`
  unfoldable pub handle_get : String → Handler Body St
  unfolding task_etag if_none_match_hits handle_service_error write_json
  handle_get id r s =
      answered (λ task. tagged r (task_etag task) (write_json 200 (task_body task)))
        handle_service_error (get_task repo ctx (from_context r.user_id) id s)

  -- `updateTask`
  unfoldable pub handle_update : ℕ → String → Option TaskFields → Handler Body St
  unfolding handle_service_error write_json write_error
  handle_update now id none r s = (reply bad_body, s)
  handle_update now id (some f) r s =
      answered (λ task. write_json 200 (task_body task)) handle_service_error
        (update_task repo clean ctx now (from_context r.user_id) id f.title f.description f.priority
          s)

  -- `completeTask`
  unfoldable pub handle_complete : ℕ → String → Handler Body St
  unfolding handle_service_error write_json
  handle_complete now id r s =
      answered (λ task. write_json 200 (task_body task)) handle_service_error
        (complete_task repo ctx now (from_context r.user_id) id s)

  -- `transitionStatus`
  unfoldable pub handle_transition : ℕ → String → Option String → Handler Body St
  unfolding handle_transition_status_error write_json write_error
  handle_transition now id none r s = (reply bad_body, s)
  handle_transition now id (some status) r s =
      answered (λ task. write_json 200 (task_body task)) handle_transition_status_error
        (transition_status repo ctx now (from_context r.user_id) id status s)

  -- `deleteTask`
  unfoldable pub handle_delete : String → Handler Body St
  unfolding handle_service_error
  handle_delete id r s =
      answered (λ _. write_header 204 ∷ []) handle_service_error
        (delete_task repo ctx (from_context r.user_id) id s)
