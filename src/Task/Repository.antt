-- ===== src/Task/Repository.antt =====
-- internal/task/repository.go: the interface as a record of operations on a state `St`.
use task_api.Common.{ℕ, String, List}
use task_api.Common.Int.{ℤ}
use task_api.Common.Failure.{Action, Context}
use task_api.Task.Entity.{Status, Priority, Task, Sentinel}

abbrev pub RepoAction : Type 0 → Type 0 → Type 0
RepoAction = Action Sentinel

-- The two maps of `CountByStatusAndPriority`, which hold every key.
pub record Counts : Type 0 where
  pub by_status : Status → ℕ
  pub by_priority : Priority → ℕ

-- `limit` may be negative for "no limit"; a negative `offset` is outside the contract.
pub record Repository (St : Type 0) : Type 0 where
  pub create : Context → Task → RepoAction St (Unit {0})
  pub find_by_id : Context → String → String → RepoAction St Task
  pub find_all : Context → String → ℤ → ℕ → List Status → List Priority → RepoAction St (List Task)
  pub update : Context → Task → RepoAction St (Unit {0})
  pub delete : Context → String → String → RepoAction St (Unit {0})
  pub count_all : Context → String → List Status → List Priority → RepoAction St ℕ
  pub count_by_status_and_priority :
      Context → String → List Status → List Priority → RepoAction St Counts
