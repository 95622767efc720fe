-- ===== src/Task/Breaker.antt =====
-- internal/task/postgres_breaker.go: a repository behind a circuit breaker.
pub mod Calls
pub mod Transparent
use task_api.Common.{ℕ}
use task_api.Common.Breaker.{Breaker, guarded}
use task_api.Task.Entity.{Sentinel}
use task_api.Task.Repository.{Repository}

module _ {B St : Type 0} (next : Repository St) (b : Breaker Sentinel B) (retry_after : ℕ) where
  -- `NewBreakerRepository`: each method whole, behind one call of the breaker.
  unfoldable pub breaker_repository : Repository (B × St)
  unfolding guarded
  breaker_repository = record {
    create = λ c task. guarded b retry_after (next.create c task);
    find_by_id = λ c id u. guarded b retry_after (next.find_by_id c id u);
    find_all = λ c u limit offset st p. guarded b retry_after (next.find_all c u limit offset st p);
    update = λ c task. guarded b retry_after (next.update c task);
    delete = λ c id u. guarded b retry_after (next.delete c id u);
    count_all = λ c u st p. guarded b retry_after (next.count_all c u st p);
    count_by_status_and_priority =
        λ c u st p. guarded b retry_after (next.count_by_status_and_priority c u st p);
  }
