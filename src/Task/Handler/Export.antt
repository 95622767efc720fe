-- ===== src/Task/Handler/Export.antt =====
-- internal/task/csv_export.go. Dates in a format and the media type of a file name are arguments; a
-- client that goes away is the number of writes that it still takes.
pub mod Rows
use Prim.Native.Char.{code}
use Prim.Native.String.{String, [] as empty, ◌∷◌ as chars}
use task_api.Common.{
  ℕ, zero, suc, Bool, true, false, ◌||◌, List, [], ◌∷◌, ◌++◌, ◌==◌, if◌then◌else◌, str_eq, length,
  ltb,
}
use task_api.Common.Failure.{Context}
use task_api.Common.Log.{warn}
use task_api.Common.Text.{append}
use task_api.Task.Entity.{Task, status_name, priority_name}
use task_api.Task.Repository.{Repository}
use task_api.Task.Service.{export_tasks}
use task_api.Task.Handler.{
  Body, byte_order_mark, row_body, Ops, Query, reply, answered, handle_service_error,
}
use task_api.Web.{set_header, write_header, write, log, Handler, from_context}

-- `t.UTC().Format` in the two formats, and `mime.FormatMediaType` of a file name, "" if it fails.
pub record Formats : Type 0 where
  pub date : ℕ → String
  pub rfc3339 : ℕ → String
  pub media_type : String → String

abbrev pub csv_export_header : List String
csv_export_header =
    "id" ∷ "title" ∷ "description" ∷ "status" ∷ "priority" ∷ "created_at" ∷ "updated_at" ∷ []

-- `strings.Join` with dashes
unfoldable pub join_dashes : List String → String
join_dashes [] = ""
join_dashes (s ∷ []) = s
join_dashes (s ∷ t ∷ ts) = append s (append "-" (join_dashes (t ∷ ts)))

abbrev with_filter : String → List String → String
with_filter label [] = ""
with_filter label (v ∷ vs) = append label (join_dashes (v ∷ vs))

-- `exportFilename`
unfoldable pub export_filename : Formats → ℕ → List String → List String → String
unfolding join_dashes
export_filename formats now statuses priorities = append "tasks-" (
    append (formats.date now) (
      append (with_filter "-status-" statuses)
        (append (with_filter "-priority-" priorities) ".csv")))

-- A character of `csvFormulaTriggers`.
unfoldable pub is_trigger : ℕ → Bool
is_trigger c = c == b'=' || c == b'+' || c == b'-' || c == b'@' || c == b'\t' || c == b'\r'

-- `sanitizeCSVCell`
unfoldable pub sanitize_csv_cell : String → String
unfolding is_trigger
sanitize_csv_cell empty = empty
sanitize_csv_cell (chars c s) = if is_trigger (code c) then append "'" (chars c s) else chars c s

unfoldable pub csv_row : Formats → Task → List String
unfolding sanitize_csv_cell
csv_row formats t =
    t.id
    ∷ sanitize_csv_cell t.title
    ∷ sanitize_csv_cell t.description
    ∷ status_name t.status
    ∷ priority_name t.priority
    ∷ formats.rfc3339 t.created_at
    ∷ formats.rfc3339 t.updated_at
    ∷ []

-- The loop over the tasks.
unfoldable pub write_rows : Formats → ℕ → List Task → Ops
unfolding csv_row
write_rows formats taken [] = []
write_rows formats zero (t ∷ ts) = log warn "csv export write failed mid-stream" ∷ []
write_rows formats (suc taken) (t ∷ ts) =
    write (row_body (csv_row formats t)) ∷ write_rows formats taken ts

-- The mark, the header row and the rows, for a client that takes so many writes.
unfoldable pub write_table : Formats → ℕ → List Task → Ops
unfolding write_rows
write_table formats zero tasks = []
write_table formats (suc zero) tasks = write byte_order_mark ∷ []
write_table formats (suc (suc taken)) tasks =
    write byte_order_mark ∷ write (row_body csv_export_header) ∷ write_rows formats taken tasks

abbrev disposition_of : String → String
disposition_of disposition = if str_eq disposition "" then "attachment" else disposition

-- `exportTasks`
unfoldable pub handle_export :
    {St : Type 0} → Repository St → Context → Formats → ℕ → ℕ → Query → Handler Body St
unfolding export_filename write_table handle_service_error
handle_export repo ctx formats now taken query r s =
    let filename = export_filename formats now (query "status") (query "priority") in
    answered
      (λ tasks.
        set_header "Content-Type" "text/csv; charset=utf-8"
        ∷ set_header "Content-Disposition" (disposition_of (formats.media_type filename))
        ∷ write_header 200
        ∷ write_table formats taken tasks)
      handle_service_error
      (export_tasks repo ctx (from_context r.user_id) (query "status") (query "priority") s)
