-- ===== src/Task/Memory/Windows.antt =====
-- internal/task/memory_repository.go: paginateTasks as a window of its list.
use task_api.Common.{ℕ, ◌≡◌, arith, List, [], take, drop, take_all, drop_all, length-drop}
use task_api.Common.Int.{ℤ, pos, negsuc}
use task_api.Task.Entity.{Task}
use task_api.Task.Memory.{paginate_tasks}
use task_api.Task.Contract.{window}

paginate_limited : (ts : List Task) (n k : ℕ) → paginate_tasks ts (pos n) k ≡ take n (drop k ts)
unfolding paginate_tasks
paginate_limited ts n k =
    ground
      (arith, drop_all k ts, take_all n (drop k ts), length-drop k ts, take_all {A = Task} n [])

paginate_unlimited : (ts : List Task) (m k : ℕ) → paginate_tasks ts (negsuc m) k ≡ drop k ts
unfolding paginate_tasks
paginate_unlimited ts m k = ground (arith, drop_all k ts)

pub paginate_tasks_lem :
    (ts : List Task) (limit : ℤ) (offset : ℕ)
    → paginate_tasks ts limit offset ≡ window limit offset ts
paginate_tasks_lem ts (pos n) k = paginate_limited ts n k
paginate_tasks_lem ts (negsuc m) k = paginate_unlimited ts m k
