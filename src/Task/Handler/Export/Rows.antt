-- ===== src/Task/Handler/Export/Rows.antt =====
-- internal/task/csv_export.go: what the client receives of an export.
use Prim.Native.Char.{code}
use Prim.Native.String.{String, [] as empty, ◌∷◌ as chars}
use task_api.Common.{
  ℕ, zero, suc, ◌-◌, ◌≡◌, refl, ap, ◌⊎◌, ◌↔◌, inl, inr, true, In, List, [], ◌∷◌, ◌++◌, arith, map,
  take, All, Bool-cases,
}
use task_api.Common.Failure.{Context, ok}
use task_api.Common.Text.{append}
use task_api.Task.Entity.{Task}
use task_api.Task.Repository.{Repository}
use task_api.Task.Service.{export_tasks}
use task_api.Task.Handler.{Body, row_body, Ops, Query}
use task_api.Task.Handler.Export.{
  Formats, csv_export_header, is_trigger, sanitize_csv_cell, csv_row, write_rows, write_table,
  handle_export,
}
use task_api.Web.{write, Request, from_context}

-- The text would be taken for a formula: it begins with an equals sign, a plus, a minus, an at sign,
-- a tab or a carriage return.
abbrev pub IsFormula : String → Type 0
IsFormula empty = ⊥
IsFormula (chars c s) = In (code c) (b'=' ∷ b'+' ∷ b'-' ∷ b'@' ∷ b'\t' ∷ b'\r' ∷ [])

-- The cell is the text, behind an apostrophe exactly where the text is a formula.
abbrev pub IsCellOf : String → String → Type 0
IsCellOf text cell =
    (IsFormula text × (cell ≡ append "'" text)) ⊎ ((¬ IsFormula text) × (cell ≡ text))

is_trigger-In :
    (c : ℕ) → (is_trigger c ≡ true) ↔ In c (b'=' ∷ b'+' ∷ b'-' ∷ b'@' ∷ b'\t' ∷ b'\r' ∷ [])
unfolding is_trigger
is_trigger-In c = ground arith

sanitize_csv_cell-IsCellOf : (s : String) → IsCellOf s (sanitize_csv_cell s)
unfolding sanitize_csv_cell
sanitize_csv_cell-IsCellOf empty = inr (λ h. h, refl)
sanitize_csv_cell-IsCellOf (chars c s) = elim (Bool-cases (is_trigger (code c))) [
  | inl e ↦ inl ((is_trigger-In (code c)).0 e, rw e refl)
  | inr e ↦ inr (λ h. cc (e, (is_trigger-In (code c)).1 h), rw e refl)
]

-- The cells that users write.
pub record IsSafeRow (formats : Formats) (t : Task) : Type 0 where
  pub title : String
  pub description : String
  pub rest : List String
  pub row : csv_row formats t ≡ t.id ∷ title ∷ description ∷ rest
  pub safe_title : IsCellOf t.title title
  pub safe_description : IsCellOf t.description description

csv_row-IsSafeRow : (formats : Formats) (t : Task) → IsSafeRow formats t
unfolding csv_row
csv_row-IsSafeRow formats t = record {
  title = sanitize_csv_cell t.title;
  description = sanitize_csv_cell t.description;
  rest = _;
  row = refl;
  safe_title = sanitize_csv_cell-IsCellOf t.title;
  safe_description = sanitize_csv_cell-IsCellOf t.description;
}

All-IsSafeRow : (formats : Formats) (tasks : List Task) → All (IsSafeRow formats) tasks
All-IsSafeRow formats [] = tt
All-IsSafeRow formats (t ∷ ts) = (csv_row-IsSafeRow formats t, All-IsSafeRow formats ts)

abbrev row_of : Body → List (List String)
row_of (row_body row) = row ∷ []
row_of _ = []

-- The rows among what is written.
abbrev pub rows_of : Ops → List (List String)
rows_of [] = []
rows_of (write b ∷ ops) = row_of b ++ rows_of ops
rows_of (_ ∷ ops) = rows_of ops

rows_of-write_rows :
    (formats : Formats) (taken : ℕ) (tasks : List Task)
    → rows_of (write_rows formats taken tasks) ≡ take taken (map (csv_row formats) tasks)
unfolding write_rows
rows_of-write_rows formats zero [] = refl
rows_of-write_rows formats (suc taken) [] = refl
rows_of-write_rows formats zero (t ∷ ts) = refl
rows_of-write_rows formats (suc taken) (t ∷ ts) =
    ap (◌∷◌ (csv_row formats t)) (rows_of-write_rows formats taken ts)

minus_one : (n : ℕ) → suc (suc n) - 1 ≡ suc n
minus_one n = omega arith

rows_of-write_table :
    (formats : Formats) (taken : ℕ) (tasks : List Task)
    → rows_of (write_table formats taken tasks)
      ≡ take (taken - 1) (csv_export_header ∷ map (csv_row formats) tasks)
unfolding write_table
rows_of-write_table formats zero tasks = refl
rows_of-write_table formats (suc zero) tasks = refl
rows_of-write_table formats (suc (suc taken)) tasks =
    rw (minus_one taken) (ap (◌∷◌ csv_export_header) (rows_of-write_rows formats taken tasks))

-- Where `ExportTasks` succeeds, the client receives the header row and one row for each task in
-- order, or the first of these if it takes fewer writes, the byte order mark being one. In each row
-- the cells of the title and the description are the task's texts, behind an apostrophe exactly where
-- the text begins with =, +, -, @, a tab or a carriage return and would be taken for a formula.
pub export_rows :
    {St : Type 0} (repo : Repository St) (c : Context) (formats : Formats) (now taken : ℕ)
    (query : Query) (r : Request) (s : St) {tasks : List Task}
    → (export_tasks repo c (from_context r.user_id) (query "status") (query "priority") s).0
      ≡ ok tasks
    → (rows_of (handle_export repo c formats now taken query r s).0.ops
        ≡ take (taken - 1) (csv_export_header ∷ map (csv_row formats) tasks))
      × All (IsSafeRow formats) tasks
unfolding handle_export
export_rows repo c formats now taken query r s {tasks} h =
    (rw h (rows_of-write_table formats taken tasks), All-IsSafeRow formats tasks)
