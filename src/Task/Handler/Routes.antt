-- ===== src/Task/Handler/Routes.antt =====
-- internal/task/handler.go: `RegisterRoutes`. A route comes with what its handler takes besides the
-- request: the clock, the random bytes, the decoded body, the path value and the query.
use task_api.Common.{ℕ, String, Option}
use task_api.Common.Failure.{Context}
use task_api.Task.Repository.{Repository}
use task_api.Task.Service.{Sanitizer}
use task_api.Task.Handler.{
  Body, Query, TaskFields, handle_create, handle_list, handle_stats, handle_get, handle_update,
  handle_complete, handle_transition, handle_delete,
}
use task_api.Task.Handler.Export.{Formats, handle_export}
use task_api.Web.{Handler}

pub data Route : Type 0 where
  post_task : ℕ → Option (ℕ → ℕ) → Option TaskFields → Route
  list_route stats_route : Query → Route
  export_route : ℕ → ℕ → Query → Route
  get_route : String → Route
  put_task : ℕ → String → Option TaskFields → Route
  done_route : ℕ → String → Route
  status_route : ℕ → String → Option String → Route
  delete_route : String → Route

-- What the handlers take of the libraries.
pub record Libraries : Type 0 where
  pub clean : Sanitizer
  pub sha256 : String → String
  pub formats : Formats

module _ {St : Type 0} (repo : Repository St) (libs : Libraries) (ctx : Context) where
  unfoldable pub route : Route → Handler Body St
  unfolding handle_create handle_list handle_stats handle_export handle_get handle_update
      handle_complete handle_transition handle_delete
  route (post_task now random body) = handle_create repo libs.clean ctx now random body
  route (list_route query) = handle_list repo libs.clean ctx libs.sha256 query
  route (stats_route query) = handle_stats repo libs.clean ctx query
  route (export_route now taken query) = handle_export repo ctx libs.formats now taken query
  route (get_route id) = handle_get repo libs.clean ctx id
  route (put_task now id body) = handle_update repo libs.clean ctx now id body
  route (done_route now id) = handle_complete repo libs.clean ctx now id
  route (status_route now id body) = handle_transition repo libs.clean ctx now id body
  route (delete_route id) = handle_delete repo libs.clean ctx id
