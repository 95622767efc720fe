-- ===== src/Task/Tests/Http.antt =====
-- Runs of the handlers of internal/task, and the theorems about them at concrete inputs.
use task_api.Common.{
  ℕ, ◌-◌, ◌<◌, String, ◌≡◌, refl, ◌⊎◌, none, some, [], ◌∷◌, map, take, All, if◌then◌else◌, str_eq,
}
use task_api.Common.Breaker.{Breaker, opened}
use task_api.Common.Decimal.{itoa}
use task_api.Common.Dict.{lookup, insert}
use task_api.Common.Text.{trim_space}
use task_api.Common.Uuid.{is_valid_id}
use task_api.Task.Entity.{Sentinel}
use task_api.Task.Memory.{paginate_tasks, older, memory_repository, selected}
use task_api.Task.Memory.Refines.{memory_contract}
use task_api.Task.Memory.Listings.{view}
use task_api.Task.Breaker.{breaker_repository}
use task_api.Common.Sort.{sort_by}
use task_api.Task.Service.{
  validate_status_filters, validate_priority_filters, get_task, export_tasks, update_task,
  validate_title_and_description, validate_priority,
}
use task_api.Task.Service.Isolation.{serve, serve_all}
use task_api.Task.Handler.{Query, task_etag, handle_get}
use task_api.Task.Handler.Conditional.{conditional_read}
use task_api.Task.Handler.Export.{Formats, csv_export_header, csv_row, handle_export}
use task_api.Task.Handler.Export.Rows.{rows_of, IsSafeRow, export_rows}
use task_api.Task.Handler.Rejected.{IsTurnedAway, IsFault, route-IsTurnedAway}
use task_api.Task.Handler.Routes.{get_route, Libraries, route}
use task_api.Task.Tests.{first_id, second, first, store, store-IsGood, found_first, clean, edits}
use task_api.Web.{Request, status_of, answer}

-- A request of a user with a tag.
abbrev request : String → String → Request
request user tag = record {
  method = "GET";
  path = "/tasks";
  header = λ name. if str_eq name "If-None-Match" then tag else "";
  request_id = none;
  real_ip = none;
  user_id = some user;
  session_token = none;
}

abbrev formats : Formats
formats = record { date = λ n. "2026-01-02"; rfc3339 = itoa; media_type = λ name. name }

abbrev libs : Libraries
libs = record { clean = clean; sha256 = λ s. s; formats = formats }

tag : task_etag first ≡ "\"0b0e0a11-0000-4000-8000-000000000001:1\""
unfolding task_etag
tag = refl

-- Another user's tag is of no use.
foreign_read :
    status_of
      (handle_get memory_repository clean none first_id (request "bob" (task_etag first)) store).0
    ≡ some 404
unfolding handle_get get_task memory_repository lookup str_eq is_valid_id answer insert
foreign_read = refl

conditional_read_example :
    ((first ≡ first)
      × (status_of
            (handle_get memory_repository clean none first_id
              (request "ann" (task_etag first))
              (serve_all memory_repository clean edits store)).0
          ≡ some 304))
    ⊎ ((first.version < first.version)
        × (status_of
              (handle_get memory_repository clean none first_id
                (request "ann" (task_etag first))
                (serve_all memory_repository clean edits store)).0
            ≡ some 200))
unfolding serve_all serve update_task get_task memory_repository view is_valid_id
    validate_title_and_description validate_priority lookup insert str_eq trim_space
conditional_read_example =
    conditional_read memory_contract clean edits store first_id first first none
      (request "ann" (task_etag first)) store-IsGood found_first ((λ e. cc), tt) refl refl

abbrev open_breaker : Breaker Sentinel ℕ
open_breaker = record { enter = λ n. (some opened, n); leave = λ e n. n }

abbrev retry : ℕ
retry = 30_000_000_000

route-IsTurnedAway_example : IsTurnedAway (IsFault libs.clean (get_route first_id)) retry store (
    route
      (breaker_repository memory_repository open_breaker retry)
      libs
      none
      (get_route first_id)
      (request "ann" "")
      (0, store))
route-IsTurnedAway_example =
    route-IsTurnedAway memory_repository open_breaker retry libs none (get_route first_id)
      (request "ann" "") 0 store opened tt refl

abbrev page_query : Query
page_query name =
    if str_eq name "limit" then "25" ∷ [] else if str_eq name "offset" then "50" ∷ [] else []

abbrev no_filters : Query
no_filters name = []

export_rows_example :
    (rows_of
        (handle_export memory_repository none formats 9 3 no_filters (request "ann" "") store).0.ops
      ≡ take (3 - 1) (csv_export_header ∷ map (csv_row formats) (second ∷ first ∷ [])))
    × All (IsSafeRow formats) (second ∷ first ∷ [])
unfolding export_tasks memory_repository selected lookup str_eq validate_status_filters
    validate_priority_filters paginate_tasks sort_by older
export_rows_example =
    export_rows memory_repository none formats 9 3 no_filters (request "ann" "") store refl
