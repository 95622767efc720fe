-- ===== src/Task/Service.antt =====
-- internal/task/service.go over any repository. What a call takes from outside is an argument: the
-- clock, the bytes of the random source, and the two functions of the sanitize library.
pub mod Writes
pub mod Updates
pub mod Isolation
pub mod Listing
pub mod Filters
pub mod Graph
pub mod Concurrency
use Prim.Native.String.{count}
use task_api.Common.{
  ℕ, ◌+◌, String, Bool, true, false, not, Option, none, some, List, [], ◌∷◌, ◌++◌, ltb,
  if◌then◌else◌, str_eq, length,
}
use task_api.Common.Int.{ℤ, negsuc}
use task_api.Common.Text.{trim_space}
use task_api.Common.Uuid.{is_valid_id, new_id}
use task_api.Common.Failure.{
  Context, ok, err, sentinel, wrapped, foreign, entropy, pure, fail, wrap, lift, fail_if, ◌>>=◌,
  ◌>>◌,
}
use task_api.Task.Entity.{
  Status, pending, in_progress, done, cancelled, Priority, medium, status_eq, priority_eq,
  parse_status, parse_priority, Task, not_found, invalid_input, invalid_transition, TaskResult,
}
use task_api.Task.Repository.{Repository, RepoAction}

abbrev pub max_title_len : ℕ
max_title_len = 200

abbrev pub max_description_len : ℕ
max_description_len = 2000

abbrev pub max_filter_values : ℕ
max_filter_values = 50

abbrev pub max_export_rows : ℕ
max_export_rows = 10_000

-- `legalTransitions[from][to]`
unfoldable pub legal_transition : Status → Status → Bool
legal_transition pending in_progress = true
legal_transition pending done = true
legal_transition pending cancelled = true
legal_transition in_progress pending = true
legal_transition in_progress done = true
legal_transition in_progress cancelled = true
legal_transition done pending = true
legal_transition done in_progress = true
legal_transition cancelled pending = true
legal_transition _ _ = false

-- The sanitize library's `PlainText` and `StripControlChars`.
pub record Sanitizer : Type 0 where
  pub plain_text : String → String
  pub strip_control_chars : String → String

unfoldable pub validate_title_and_description :
    Sanitizer → String → String → TaskResult (String × String)
validate_title_and_description clean raw_title raw_description =
    let title = clean.plain_text raw_title in
    let description = trim_space (clean.strip_control_chars raw_description) in
    if str_eq title ""
    then err (wrapped (sentinel invalid_input))
    else if ltb max_title_len (count title)
    then err (wrapped (sentinel invalid_input))
    else if ltb max_description_len (count description)
    then err (wrapped (sentinel invalid_input))
    else ok (title, description)

unfoldable pub validate_priority : String → Priority → TaskResult Priority
validate_priority priority fallback =
    if str_eq priority "" then ok fallback else elim (parse_priority priority) [
      | none ↦ err (wrapped (sentinel invalid_input))
      | some p ↦ ok p
    ]

-- The loop that `validateStatusFilters` and `validatePriorityFilters` share, over the parser and the
-- equality of the type: `seen` is the map, `out` the result so far.
module _ {T : Type 0} (parse : String → Option T) (eq : T → T → Bool) where
  unfoldable pub collect : (T → Bool) → List T → List String → TaskResult (List T)
  collect seen out [] = ok out
  collect seen out (raw ∷ raws) =
      let skip = collect seen out raws in
      if str_eq raw "" then skip else elim (parse raw) [
        | none ↦ err (wrapped (sentinel invalid_input))
        | some s ↦
            let keep = collect (λ t. if eq s t then true else seen t) (out ++ s ∷ []) raws in
            if seen s then skip else keep
      ]

  unfoldable pub validate_filters : List String → TaskResult (List T)
  unfolding collect
  validate_filters raws =
      if ltb max_filter_values (length raws)
      then err (wrapped (sentinel invalid_input))
      else collect (λ _. false) [] raws

unfoldable pub validate_status_filters : List String → TaskResult (List Status)
unfolding validate_filters
validate_status_filters = validate_filters parse_status status_eq

unfoldable pub validate_priority_filters : List String → TaskResult (List Priority)
unfolding validate_filters
validate_priority_filters = validate_filters parse_priority priority_eq

-- `TaskStats`
pub record Stats : Type 0 where
  pub total : ℕ
  pub by_status : Status → ℕ
  pub by_priority : Priority → ℕ

-- The row that `CreateTask` builds; the version is Go's zero value.
abbrev pub new_task : String → String → String → Priority → ℕ → String → Task
new_task id title description priority now user_id = record {
  id = id;
  title = title;
  description = description;
  status = pending;
  priority = priority;
  created_at = now;
  updated_at = now;
  user_id = user_id;
  version = 0;
}

module _ {St : Type 0} (repo : Repository St) where
  unfoldable pub create_task :
      Sanitizer
      → Context
      → ℕ
      → Option (ℕ → ℕ)
      → String
      → String
      → String
      → String
      → RepoAction St Task
  create_task clean ctx now random user_id raw_title raw_description raw_priority = do
    (title, description) ← lift (validate_title_and_description clean raw_title raw_description)
    p ← lift (validate_priority raw_priority medium)
    id ← elim (new_id random) [
      | none ↦ fail (wrapped (wrapped (foreign entropy)))
      | some id ↦ pure id
    ]
    let task : Task = new_task id title description p now user_id
    wrap (repo.create ctx task)
    pure task

  unfoldable pub get_task : Context → String → String → RepoAction St Task
  get_task ctx user_id id = do
    fail_if (not (is_valid_id id)) (sentinel not_found)
    wrap (repo.find_by_id ctx id user_id)

  unfoldable pub list_tasks :
      Context → String → ℤ → ℕ → List String → List String → RepoAction St (List Task × ℕ)
  list_tasks ctx user_id limit offset statuses priorities = do
    st ← lift (validate_status_filters statuses)
    p ← lift (validate_priority_filters priorities)
    tasks ← wrap (repo.find_all ctx user_id limit offset st p)
    total ← wrap (repo.count_all ctx user_id st p)
    pure (tasks, total)

  unfoldable pub task_stats : Context → String → List String → List String → RepoAction St Stats
  task_stats ctx user_id statuses priorities = do
    st ← lift (validate_status_filters statuses)
    p ← lift (validate_priority_filters priorities)
    counts ← wrap (repo.count_by_status_and_priority ctx user_id st p)
    let by_status = counts.by_status
    pure (record {
      total = by_status pending + by_status in_progress + by_status done + by_status cancelled;
      by_status = counts.by_status;
      by_priority = counts.by_priority;
    })

  unfoldable pub export_tasks :
      Context → String → List String → List String → RepoAction St (List Task)
  export_tasks ctx user_id statuses priorities = do
    st ← lift (validate_status_filters statuses)
    p ← lift (validate_priority_filters priorities)
    total ← wrap (repo.count_all ctx user_id st p)
    fail_if (ltb max_export_rows total) (wrapped (sentinel invalid_input))
    wrap (repo.find_all ctx user_id (negsuc 0) 0 st p)

  unfoldable pub update_task :
      Sanitizer → Context → ℕ → String → String → String → String → String → RepoAction St Task
  update_task clean ctx now user_id id raw_title raw_description raw_priority = do
    fail_if (not (is_valid_id id)) (sentinel not_found)
    (title, description) ← lift (validate_title_and_description clean raw_title raw_description)
    task ← wrap (repo.find_by_id ctx id user_id)
    p ← lift (validate_priority raw_priority task.priority)
    let task' : Task = record task {
      title = title;
      description = description;
      priority = p;
      updated_at = now;
    }
    wrap (repo.update ctx task')
    pure task'

  unfoldable pub delete_task : Context → String → String → RepoAction St (Unit {0})
  delete_task ctx user_id id = do
    fail_if (not (is_valid_id id)) (sentinel not_found)
    wrap (repo.delete ctx id user_id)

  -- The status part of `TransitionStatus`, on the task that was read.
  unfoldable pub move_to : Context → ℕ → Status → Task → RepoAction St Task
  move_to ctx now target task =
      if status_eq task.status target
      then pure task
      else if not (legal_transition task.status target)
      then fail (wrapped (sentinel invalid_transition))
      else do
        let task' : Task = record task { status = target; updated_at = now }
        wrap (repo.update ctx task')
        pure task'

  unfoldable pub transition_status : Context → ℕ → String → String → String → RepoAction St Task
  unfolding move_to
  transition_status ctx now user_id id target = do
    fail_if (not (is_valid_id id)) (sentinel not_found)
    status ← elim (parse_status target) [
      | none ↦ fail (wrapped (sentinel invalid_input))
      | some s ↦ pure s
    ]
    task ← wrap (repo.find_by_id ctx id user_id)
    move_to ctx now status task

  unfoldable pub complete_task : Context → ℕ → String → String → RepoAction St Task
  unfolding transition_status
  complete_task ctx now user_id id = wrap (transition_status ctx now user_id id "done")
