-- ===== src/Task/Memory.antt =====
-- internal/task/memory_repository.go. The lock makes each method one step on the store.
pub mod Windows
pub mod Listings
pub mod Reliable
pub mod Refines
pub mod Grouping
use task_api.Common.{
  ℕ, ◌+◌, String, Bool, true, not, ◌&&◌, none, some, List, [], ◌∷◌, ltb, leb, ◌==◌, if◌then◌else◌,
  str_eq, length, take, drop, select, any,
}
use task_api.Common.Int.{ℤ, pos, negsuc}
use task_api.Common.Dict.{Dict, lookup, insert, values}
use task_api.Common.Dict
use task_api.Common.Text.{str_ltb}
use task_api.Common.Sort.{sort_by}
use task_api.Common.Failure.{Context, ok, err, sentinel, while_live}
use task_api.Task.Entity.{
  Status, Priority, status_eq, priority_eq, Task, not_found, already_exists, conflict,
}
use task_api.Task.Repository.{Repository, RepoAction, Counts}

abbrev pub Store : Type 0
Store = Dict Task

abbrev pub empty_store : Store
empty_store = []

create : Context → Task → RepoAction Store (Unit {0})
create ctx task = while_live ctx λ store. elim (lookup task.id store) [
  | some _ ↦ (err (sentinel already_exists), store)
  | none ↦ (ok tt, insert task.id (record task { version = 1 }) store)
]

find_by_id : Context → String → String → RepoAction Store Task
find_by_id ctx id user_id = while_live ctx λ store. elim (lookup id store) [
  | none ↦ (err (sentinel not_found), store)
  | some task ↦ (if str_eq task.user_id user_id then ok task else err (sentinel not_found), store)
]

-- `matchesAny`, over the `==` of its type parameter.
unfoldable pub matches_any : {T : Type 0} → (T → T → Bool) → T → List T → Bool
matches_any eq value [] = true
matches_any eq value (w ∷ wanted) = any (eq value) (w ∷ wanted)

-- The three tests of the loops over the store.
unfoldable pub selected : String → List Status → List Priority → Task → Bool
unfolding matches_any
selected user_id statuses priorities task =
    str_eq task.user_id user_id
    && matches_any status_eq task.status statuses
    && matches_any priority_eq task.priority priorities

-- The comparator of `sort.Slice` in `FindAll`.
unfoldable pub older : Task → Task → Bool
older a b =
    if not (a.created_at == b.created_at) then ltb a.created_at b.created_at else str_ltb a.id b.id

-- `tasks[:limit]`, unless the limit is negative or not below the length.
unfoldable pub limit_tasks : List Task → ℤ → List Task
limit_tasks tasks (pos n) = if ltb n (length tasks) then take n tasks else tasks
limit_tasks tasks (negsuc n) = tasks

unfoldable pub paginate_tasks : List Task → ℤ → ℕ → List Task
unfolding limit_tasks
paginate_tasks tasks limit offset =
    if leb (length tasks) offset then [] else limit_tasks (drop offset tasks) limit

find_all : Context → String → ℤ → ℕ → List Status → List Priority → RepoAction Store (List Task)
find_all ctx user_id limit offset statuses priorities = while_live ctx λ store. (
  ok (
      paginate_tasks (sort_by older (select (selected user_id statuses priorities) (values store)))
        limit offset),
  store,
)

-- The loop of `CountAll`.
pub count_from : String → List Status → List Priority → ℕ → List Task → ℕ
count_from user_id statuses priorities count [] = count
count_from user_id statuses priorities count (task ∷ tasks) =
    count_from user_id statuses priorities
      (if selected user_id statuses priorities task then count + 1 else count) tasks

count_all : Context → String → List Status → List Priority → RepoAction Store ℕ
count_all ctx user_id statuses priorities =
    while_live ctx λ store. (ok (count_from user_id statuses priorities 0 (values store)), store)

-- `byStatus[task.Status]++` and `byPriority[task.Priority]++`
abbrev pub tally : Task → Counts → Counts
tally task counts = record {
  by_status = λ s. if status_eq task.status s then counts.by_status s + 1 else counts.by_status s;
  by_priority =
      λ p. if priority_eq task.priority p then counts.by_priority p + 1 else counts.by_priority p;
}

abbrev pub no_counts : Counts
no_counts = record { by_status = λ _. 0; by_priority = λ _. 0 }

-- The loop of `CountByStatusAndPriority`.
pub tally_from : String → List Status → List Priority → Counts → List Task → Counts
tally_from user_id statuses priorities counts [] = counts
tally_from user_id statuses priorities counts (task ∷ tasks) =
    tally_from user_id statuses priorities
      (if selected user_id statuses priorities task then tally task counts else counts) tasks

count_by_status_and_priority :
    Context → String → List Status → List Priority → RepoAction Store Counts
count_by_status_and_priority ctx user_id statuses priorities =
    while_live ctx
      λ store. (ok (tally_from user_id statuses priorities no_counts (values store)), store)

-- The row that replaces the stored one: the caller's, with the stored creation time and the next
-- version.
abbrev pub next_row : Task → Task → Task
next_row stored task = record task { created_at = stored.created_at; version = stored.version + 1 }

update : Context → Task → RepoAction Store (Unit {0})
update ctx task = while_live ctx λ store. elim (lookup task.id store) [
  | none ↦ (err (sentinel not_found), store)
  | some stored ↦
      if not (str_eq stored.user_id task.user_id)
      then (err (sentinel not_found), store)
      else if not (task.version == stored.version)
      then (err (sentinel conflict), store)
      else (ok tt, insert task.id (next_row stored task) store)
]

delete : Context → String → String → RepoAction Store (Unit {0})
delete ctx id user_id = while_live ctx λ store. elim (lookup id store) [
  | none ↦ (err (sentinel not_found), store)
  | some stored ↦
      if not (str_eq stored.user_id user_id)
      then (err (sentinel not_found), store)
      else (ok tt, Dict.delete id store)
]

-- `NewMemoryRepository`: the methods, as the interface.
unfoldable pub memory_repository : Repository Store
unfolding create find_by_id find_all count_all count_by_status_and_priority update delete count_from
    tally_from
memory_repository = record {
  create = create;
  find_by_id = find_by_id;
  find_all = find_all;
  update = update;
  delete = delete;
  count_all = count_all;
  count_by_status_and_priority = count_by_status_and_priority;
}
