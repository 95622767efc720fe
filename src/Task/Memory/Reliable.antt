-- ===== src/Task/Memory/Reliable.antt =====
-- internal/task/memory_repository.go: which errors its methods report while the context is live.
use task_api.Common.{
  String, ◌≡◌, sym, inl, inr, arith, str_eq, Option-cases, Bool-cases, subst, ◌==◌, none,
}
use task_api.Common.Dict.{lookup}
use task_api.Common.Failure.{ok, err, sentinel}
use task_api.Task.Entity.{Task, TaskResult, not_found, already_exists, conflict}
use task_api.Task.Memory.{
  Store, memory_repository, create, find_by_id, update, delete, find_all, count_all,
  count_by_status_and_priority,
}
use task_api.Task.Contract.{IsReliable, HasReport}

HasReport-of :
    {A : Type 0} (r : TaskResult A) {r' : TaskResult A} → r ≡ r' → HasReport r' → HasReport r
HasReport-of r e h = subst HasReport (sym e) h

module _ (s : Store) where
  create-HasReport : (t : Task) → HasReport (create none t s).0
  unfolding create
  create-HasReport t = elim (Option-cases (lookup t.id s)) [
    | inl e ↦ HasReport-of (create none t s).0 {r' = ok tt} (ground arith) tt
    | inr (w, e) ↦
        HasReport-of (create none t s).0 {r' = err (sentinel already_exists)} (ground arith)
          (λ h. h)
  ]

  find-HasReport : (id u : String) → HasReport (find_by_id none id u s).0
  unfolding find_by_id
  find-HasReport id u = elim (Option-cases (lookup id s)) [
    | inl e ↦
        HasReport-of (find_by_id none id u s).0 {r' = err (sentinel not_found)} (ground arith)
          (λ h. h)
    | inr (w, e) ↦ elim (Bool-cases (str_eq w.user_id u)) [
      | inl m ↦ HasReport-of (find_by_id none id u s).0 {r' = ok w} (ground arith) tt
      | inr m ↦
          HasReport-of (find_by_id none id u s).0 {r' = err (sentinel not_found)} (ground arith)
            (λ h. h)
    ]
  ]

  update-HasReport : (t : Task) → HasReport (update none t s).0
  unfolding update
  update-HasReport t = elim (Option-cases (lookup t.id s)) [
    | inl e ↦
        HasReport-of (update none t s).0 {r' = err (sentinel not_found)} (ground arith) (λ h. h)
    | inr (w, e) ↦ elim (Bool-cases (str_eq w.user_id t.user_id)) [
      | inr m ↦
          HasReport-of (update none t s).0 {r' = err (sentinel not_found)} (ground arith) (λ h. h)
      | inl m ↦ elim (Bool-cases (t.version == w.version)) [
        | inl v ↦ HasReport-of (update none t s).0 {r' = ok tt} (ground arith) tt
        | inr v ↦
            HasReport-of (update none t s).0 {r' = err (sentinel conflict)} (ground arith) (λ h. h)
      ]
    ]
  ]

  delete-HasReport : (id u : String) → HasReport (delete none id u s).0
  unfolding delete
  delete-HasReport id u = elim (Option-cases (lookup id s)) [
    | inl e ↦
        HasReport-of (delete none id u s).0 {r' = err (sentinel not_found)} (ground arith) (λ h. h)
    | inr (w, e) ↦ elim (Bool-cases (str_eq w.user_id u)) [
      | inl m ↦ HasReport-of (delete none id u s).0 {r' = ok tt} (ground arith) tt
      | inr m ↦
          HasReport-of (delete none id u s).0 {r' = err (sentinel not_found)} (ground arith)
            (λ h. h)
    ]
  ]

pub memory-IsReliable : IsReliable memory_repository
unfolding memory_repository find_all count_all count_by_status_and_priority
memory-IsReliable = record {
  create_reports = λ t s. create-HasReport s t;
  find_reports = λ id u s. find-HasReport s id u;
  update_reports = λ t s. update-HasReport s t;
  delete_reports = λ id u s. delete-HasReport s id u;
  find_all_reports = λ u limit offset st p s. tt;
  count_all_reports = λ u st p s. tt;
  count_by_reports = λ u st p s. tt;
}
