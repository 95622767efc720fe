-- ===== src/Task/Tests.antt =====
-- Runs of internal/task on concrete data, and the theorems at inputs that meet their hypotheses.
mod Wrappers
mod Http
use task_api.Common.{
  ◌+◌, ◌≤◌, ◌<◌, String, ◌≡◌, refl, ◌≢◌, ◌⊎◌, ◌↔◌, inl, inr, true, false, none, some, arith, List,
  [], ◌∷◌, ◌++◌, length, In, Distinct, select, str_eq, str_eq_iff,
}
use task_api.Common.Dict.{lookup, insert, values}
use task_api.Common.Int.{pos, negsuc}
use task_api.Common.Sort.{IsOrdered, sort_by}
use task_api.Common.Text.{trim_space}
use task_api.Common.Uuid.{is_valid_id, new_id, new_id_lem, nth}
use task_api.Common.Failure.{Context, ok, err, sentinel, wrapped}
use task_api.Task.Entity.{
  Status, pending, done, cancelled, Priority, low, medium, high, status_eq, status_eq_iff,
  priority_eq, status_name, priority_name, parse_status, parse_priority, parse_iff, Task, TaskError,
  invalid_input, invalid_transition, conflict,
}
use task_api.Task.Memory.{Store, memory_repository, selected, older, paginate_tasks}
use task_api.Task.Memory.Refines.{memory_contract}
use task_api.Task.Memory.Listings.{view, IsGood, listing}
use task_api.Task.Memory.Grouping.{number, task_stats_exact}
use task_api.Task.Contract.{put, owned, IsOutage, window, IsSelected, IsByAge}
use task_api.Task.Service.{
  Sanitizer, Stats, legal_transition, validate_filters, validate_status_filters,
  validate_priority_filters, max_filter_values, max_export_rows, list_tasks, task_stats,
  export_tasks, transition_status,
}
use task_api.Task.Service.Writes.{transition_status_writes}
use task_api.Task.Service.Isolation.{
  Request, update_request, delete_request, complete_request, serve, serve_all,
  serve_all-keeps_foreign, serve-RowStep, RowStep,
}
use task_api.Task.Service.Concurrency.{no_update_is_lost}
use task_api.Task.Service.Graph.{
  Route, Route-all, legal_transition_graph, transition_status_no_write,
}
use task_api.Task.Service.Filters.{Named, AllNamed, validate_filters_lem, validate_filters_total}
use task_api.Task.Service.Listing.{list_tasks_ok, export_tasks_bounded}

abbrev pub first_id : String
first_id = "0b0e0a11-0000-4000-8000-000000000001"

abbrev pub second_id : String
second_id = "0b0e0a11-0000-4000-8000-000000000002"

abbrev pub first : Task
first = record {
  id = first_id;
  title = "write";
  description = "";
  status = pending;
  priority = high;
  created_at = 10;
  updated_at = 10;
  user_id = "ann";
  version = 1;
}

abbrev pub second : Task
second = record {
  id = second_id;
  title = "read";
  description = "all of it";
  status = cancelled;
  priority = low;
  created_at = 5;
  updated_at = 7;
  user_id = "ann";
  version = 3;
}

abbrev pub store : Store
store = (first_id, first) ∷ (second_id, second) ∷ []

abbrev pub clean : Sanitizer
clean = record { plain_text = λ s. s; strip_control_chars = λ s. s }

pub store-IsGood : IsGood store
unfolding lookup str_eq
store-IsGood = ((refl, (refl, tt)), (refl, (refl, tt)))

run_moves : transition_status memory_repository none 20 "ann" first_id "done" store ≡ (
  ok (record first { status = done; updated_at = 20 }),
  insert first_id (record first { status = done; updated_at = 20; version = 2 }) store,
)
unfolding transition_status memory_repository is_valid_id parse_status str_eq lookup insert
    legal_transition
run_moves = refl

first_id-valid : is_valid_id first_id ≡ true
unfolding is_valid_id
first_id-valid = refl

pub found_first : view store first_id ≡ some first
unfolding view lookup str_eq
found_first = refl

transition_status_writes_example :
    let (r, t) = transition_status memory_repository none 20 "ann" first_id "done" store in
    IsGood t
    × ((view t ≡ view store)
        ⊎ ((task : Task) × (to : Status) × (owned (view store) first_id "ann" ≡ some task)
            × (parse_status "done" ≡ some to)
            × (legal_transition task.status to ≡ true)
            × (view t
                ≡ put (view store) first_id (
                    some
                      (record task { status = to; updated_at = 20; version = task.version + 1 })))))
transition_status_writes_example =
    transition_status_writes memory_contract none 20 "ann" first_id "done" store store-IsGood

abbrev intruders : List (Context × String × Request)
intruders = (none, "bob", delete_request first_id) ∷ (none, "eve", complete_request 9 first_id) ∷ []

ann≢bob : ◌≢◌ {A = String} "ann" "bob"
unfolding str_eq
ann≢bob = λ e. cc ((str_eq_iff "ann" "bob").1 e)

ann≢eve : ◌≢◌ {A = String} "ann" "eve"
unfolding str_eq
ann≢eve = λ e. cc ((str_eq_iff "ann" "eve").1 e)

serve_all-keeps_foreign_example :
    IsGood (serve_all memory_repository clean intruders store)
    × (view (serve_all memory_repository clean intruders store) first_id ≡ some first)
serve_all-keeps_foreign_example =
    serve_all-keeps_foreign memory_contract clean intruders store first_id first store-IsGood
      found_first (ann≢bob, (ann≢eve, tt))

serve-RowStep_example :
    IsGood (serve memory_repository clean none "ann" (delete_request first_id) store)
    × ((k : String)
        → RowStep "ann"
            (delete_request first_id)
            k
            (view store k)
            (view (serve memory_repository clean none "ann" (delete_request first_id) store) k))
serve-RowStep_example =
    serve-RowStep memory_contract clean none "ann" (delete_request first_id) store store-IsGood

abbrev pub edits : List (Context × String × Request)
edits = (none, "ann", update_request 30 second_id "draft" "" "") ∷ []

-- What Ann writes back after she has read her first task.
abbrev rewritten_first : Task
rewritten_first = record first { title = "rewrite" }

no_update_is_lost_example :
    let s' = serve_all memory_repository clean edits store in
    let (r, t) = memory_repository.update none rewritten_first s' in
    (now : Task) × (view s' first_id ≡ some now)
    × (((now ≡ first)
          × (r ≡ ok tt)
          × (view t
              ≡ put
                  (view s')
                  first_id
                  (some (record rewritten_first { created_at = 10; version = 1 + 1 }))))
        ⊎ ((1 < now.version) × (r ≡ err (sentinel conflict)) × (view t ≡ view s'))
        ⊎ ((e : TaskError) × IsOutage e × (r ≡ err e) × (view t ≡ view s')))
no_update_is_lost_example =
    no_update_is_lost memory_contract clean edits store first_id first rewritten_first none
      store-IsGood found_first ((λ e. cc), tt) refl refl refl

abbrev raw_filter : List String
raw_filter = "done" ∷ "" ∷ "pending" ∷ "done" ∷ []

list_tasks_ok_example :
    (st : List Status) × (p : List Priority) × (validate_status_filters [] ≡ ok st)
    × (validate_priority_filters [] ≡ ok p)
    × (first ∷ [] ≡ window (pos 1) 1 (listing store "ann" st p))
    × (2 ≡ length (listing store "ann" st p))
    × IsByAge (listing store "ann" st p)
    × Distinct (listing store "ann" st p)
    × ((t : Task)
        → In t (listing store "ann" st p) ↔ ((view store t.id ≡ some t) × IsSelected "ann" st p t))
unfolding sort_by list_tasks memory_repository validate_status_filters validate_priority_filters
    paginate_tasks selected older str_eq
list_tasks_ok_example =
    list_tasks_ok memory_contract none "ann" (pos 1) 1 [] [] store (first ∷ []) 2 store-IsGood refl

export_tasks_bounded_example :
    let r = (export_tasks memory_repository none "ann" [] [] store).0 in
    ((r ≡ ok (listing store "ann" [] [])) × (length (listing store "ann" [] []) ≤ max_export_rows))
    ⊎ ((r ≡ err (wrapped (sentinel invalid_input)))
        × (max_export_rows < length (listing store "ann" [] [])))
    ⊎ ((e : TaskError) × (r ≡ err (wrapped e))
        × (((memory_repository.count_all none "ann" [] [] store).0 ≡ err e)
            ⊎ ((memory_repository.find_all none "ann"
                  (negsuc 0)
                  0
                  []
                  []
                  (memory_repository.count_all none "ann" [] [] store).1).0
                ≡ err e)))
unfolding validate_status_filters validate_priority_filters
export_tasks_bounded_example =
    export_tasks_bounded memory_contract none "ann" [] [] [] [] store store-IsGood refl refl

task_stats_exact_example :
    (stats : Stats) × (task_stats memory_repository none "ann" [] [] store ≡ (ok stats, store))
    × ((x : Status)
        → stats.by_status x ≡ number "ann" [] [] (λ t. status_eq t.status x) (values store))
    × ((x : Priority)
        → stats.by_priority x ≡ number "ann" [] [] (λ t. priority_eq t.priority x) (values store))
    × (stats.total ≡ length (select (selected "ann" [] []) (values store)))
    × (stats.total ≡ stats.by_priority low + stats.by_priority medium + stats.by_priority high)
unfolding validate_status_filters validate_priority_filters
task_stats_exact_example = task_stats_exact "ann" [] [] [] [] store refl refl
