-- ===== src/Task/Handler/Down.antt =====
-- internal/task/service.go over a repository that rejects every call.
use task_api.Common.{
  ℕ, String, ◌≡◌, refl, ap, subst, ◌⊎◌, inl, inr, some, List, Option-cases, Bool-cases,
}
use task_api.Common.Failure.{
  Context, ok, err, sentinel, wrapped, rejected, foreign, is, Result-cases,
}
use task_api.Common.Int.{ℤ}
use task_api.Common.Uuid.{is_valid_id, new_id}
use task_api.Task.Entity.{
  Status, Priority, TaskError, TaskResult, task_sentinels, parse_status, status_eq, priority_eq,
  parse_priority, Task, medium, done, status_name, priority_name,
}
use task_api.Task.Repository.{Repository}
use task_api.Task.Handler.Faults.{
  IsRefusal, IsBadId, IsBadText, IsUnknown, IsBadPriority, IsBadFilter, Validates,
  validate_title_and_description-Validates, validate_priority-Validates, status_filters-Validates,
  priority_filters-Validates, IsUnknown-status, not_id,
}
use task_api.Task.Service.{
  Sanitizer, validate_title_and_description, validate_priority, validate_status_filters,
  validate_priority_filters, validate_filters, create_task, get_task, list_tasks, task_stats,
  export_tasks, update_task, delete_task, transition_status, complete_task,
}

-- At the state `s` every method gives the breaker's rejection with the delay `d`, and leaves `t`.
pub record IsDown {St : Type 0} (repo : Repository St) (d : ℕ) (s t : St) : Type 0 where
  pub create : (c : Context) (task : Task) → repo.create c task s ≡ (err (rejected d), t)
  pub find_by_id : (c : Context) (id u : String) → repo.find_by_id c id u s ≡ (err (rejected d), t)
  pub find_all :
      (c : Context) (u : String) (limit : ℤ) (offset : ℕ) (st : List Status) (p : List Priority)
      → repo.find_all c u limit offset st p s ≡ (err (rejected d), t)
  pub delete : (c : Context) (id u : String) → repo.delete c id u s ≡ (err (rejected d), t)
  pub count_all :
      (c : Context) (u : String) (st : List Status) (p : List Priority)
      → repo.count_all c u st p s ≡ (err (rejected d), t)
  pub count_by_status_and_priority :
      (c : Context) (u : String) (st : List Status) (p : List Priority)
      → repo.count_by_status_and_priority c u st p s ≡ (err (rejected d), t)

-- The error is the rejection, under any number of wraps.
abbrev pub IsRejection : ℕ → TaskError → Type 0
IsRejection d (sentinel e) = ⊥
IsRejection d (wrapped e) = IsRejection d e
IsRejection d (rejected d') = d' ≡ d
IsRejection d (foreign f) = ⊥

module _ {A St : Type 0} (d : ℕ) (s t : St) (F : Type 0) where
  -- The call was rejected, or refused for the fault before it reached the repository.
  abbrev pub Unserved : TaskResult A × St → Type 0
  Unserved (ok a, w) = ⊥
  Unserved (err e, w) = (IsRejection d e × (w ≡ t)) ⊎ (F × IsRefusal e × (w ≡ s))

pub Unserved-map :
    {A St : Type 0} {F G : Type 0} (d : ℕ) (s t : St)
    → (F → G)
    → (o : TaskResult A × St) → Unserved d s t F o
    → Unserved d s t G o
Unserved-map d s t f (ok a, w) h = h
Unserved-map d s t f (err e, w) (inl h) = inl h
Unserved-map d s t f (err e, w) (inr (fault, h, same)) = inr (f fault, h, same)

-- A check that failed before the repository was reached.
refused_by :
    {B St : Type 0} {F G : Type 0} (s : St) (e : TaskError) (r : TaskResult B)
    → (F → G)
    → r ≡ err e
    → Validates F r
    → G × IsRefusal e × (s ≡ s)
refused_by {F = F} s e r f k h =
    let (fault, refusal) = subst (Validates F) k h in (f fault, refusal, refl)

wrapped-Unserved :
    {A St : Type 0} (d : ℕ) (s t : St) (F : Type 0) (o : TaskResult A × St)
    → Unserved d s t F o
    → Unserved d s t F (elim o.0 [ ok a ↦ ok a | err e ↦ err (wrapped e) ], o.1)
unfolding is
wrapped-Unserved d s t F (ok a, w) h = h
wrapped-Unserved d s t F (err e, w) h = h

module _ {St : Type 0} {repo : Repository St} {d : ℕ} {s t : St} (down : IsDown repo d s t)
    (clean : Sanitizer) (c : Context) where
  pub get_task-Unserved : (u id : String) → Unserved d s t (IsBadId id) (get_task repo c u id s)
  unfolding get_task is
  get_task-Unserved u id = elim (Bool-cases (is_valid_id id)) [
    | inl e ↦ rw (e, down.find_by_id c id u) (inl (refl, refl))
    | inr e ↦ rw e (inr (not_id id e, inl refl, refl))
  ]

  pub delete_task-Unserved :
      (u id : String) → Unserved d s t (IsBadId id) (delete_task repo c u id s)
  unfolding delete_task is
  delete_task-Unserved u id = elim (Bool-cases (is_valid_id id)) [
    | inl e ↦ rw (e, down.delete c id u) (inl (refl, refl))
    | inr e ↦ rw e (inr (not_id id e, inl refl, refl))
  ]

  pub create_task-Unserved :
      (now : ℕ) (b : ℕ → ℕ) (u title description priority : String)
      → Unserved d s t
          (IsBadText clean title description ⊎ IsBadPriority priority)
          (create_task repo clean c now (some b) u title description priority s)
  unfolding create_task new_id
  create_task-Unserved now b u title description priority =
      elim (Result-cases (validate_title_and_description clean title description)) [
        | inr (e, k) ↦ rw k (
            inr (
              refused_by s _ _ (λ h. inl h) k
                (validate_title_and_description-Validates clean title description)))
        | inl (texts, k) ↦ rw k (elim (Result-cases (validate_priority priority medium)) [
          | inr (e, j) ↦
              rw j (
                inr (refused_by s _ _ (λ h. inr h) j (validate_priority-Validates priority medium)))
          | inl (p, j) ↦ rw (j, down.create c _) (inl (refl, ap (λ w. w.1) (down.create c _)))
        ])
      ]

  pub update_task-Unserved :
      (now : ℕ) (u id title description priority : String)
      → Unserved d s t
          (IsBadId id ⊎ IsBadText clean title description)
          (update_task repo clean c now u id title description priority s)
  unfolding update_task is
  update_task-Unserved now u id title description priority = elim (Bool-cases (is_valid_id id)) [
    | inr e ↦ rw e (inr (inl (not_id id e), inl refl, refl))
    | inl e ↦ rw e (elim (Result-cases (validate_title_and_description clean title description)) [
      | inr (f, k) ↦ rw k (
          inr (
            refused_by s _ _ (λ h. inr h) k
              (validate_title_and_description-Validates clean title description)))
      | inl (texts, k) ↦
          rw (k, down.find_by_id c id u) (inl (refl, ap (λ w. w.1) (down.find_by_id c id u)))
    ])
  ]

  pub transition_status-Unserved :
      (now : ℕ) (u id target : String)
      → Unserved d s t
          (IsBadId id ⊎ IsUnknown status_name target)
          (transition_status repo c now u id target s)
  unfolding transition_status is
  transition_status-Unserved now u id target = elim (Bool-cases (is_valid_id id)) [
    | inr e ↦ rw e (inr (inl (not_id id e), inl refl, refl))
    | inl e ↦ rw e (elim (Option-cases (parse_status target)) [
      | inl k ↦ rw k (inr (inr (IsUnknown-status target k), inr (refl, refl), refl))
      | inr (to, k) ↦
          rw (k, down.find_by_id c id u) (inl (refl, ap (λ w. w.1) (down.find_by_id c id u)))
    ])
  ]

  pub list_tasks-Unserved :
      (u : String) (limit : ℤ) (offset : ℕ) (statuses priorities : List String)
      → Unserved d s t
          (IsBadFilter status_name statuses ⊎ IsBadFilter priority_name priorities)
          (list_tasks repo c u limit offset statuses priorities s)
  unfolding list_tasks validate_status_filters validate_priority_filters
  list_tasks-Unserved u limit offset statuses priorities =
      elim (Result-cases (validate_filters parse_status status_eq statuses)) [
        | inr (e, k) ↦
            rw k
              (inr (refused_by s _ _ (λ h. inl h) k (status_filters-Validates status_eq statuses)))
        | inl (st, k) ↦
            rw k (elim (Result-cases (validate_filters parse_priority priority_eq priorities)) [
              | inr (e, j) ↦ rw j (
                  inr (
                    refused_by s _ _ (λ h. inr h) j
                      (priority_filters-Validates priority_eq priorities)))
              | inl (p, j) ↦
                  rw (j, down.find_all c u limit offset st p)
                    (inl (refl, ap (λ w. w.1) (down.find_all c u limit offset st p)))
            ])
      ]

  pub task_stats-Unserved :
      (u : String) (statuses priorities : List String)
      → Unserved d s t
          (IsBadFilter status_name statuses ⊎ IsBadFilter priority_name priorities)
          (task_stats repo c u statuses priorities s)
  unfolding task_stats validate_status_filters validate_priority_filters
  task_stats-Unserved u statuses priorities =
      elim (Result-cases (validate_filters parse_status status_eq statuses)) [
        | inr (e, k) ↦
            rw k
              (inr (refused_by s _ _ (λ h. inl h) k (status_filters-Validates status_eq statuses)))
        | inl (st, k) ↦
            rw k (elim (Result-cases (validate_filters parse_priority priority_eq priorities)) [
              | inr (e, j) ↦ rw j (
                  inr (
                    refused_by s _ _ (λ h. inr h) j
                      (priority_filters-Validates priority_eq priorities)))
              | inl (p, j) ↦
                  rw (j, down.count_by_status_and_priority c u st p)
                    (inl (refl, ap (λ w. w.1) (down.count_by_status_and_priority c u st p)))
            ])
      ]

  pub export_tasks-Unserved :
      (u : String) (statuses priorities : List String)
      → Unserved d s t
          (IsBadFilter status_name statuses ⊎ IsBadFilter priority_name priorities)
          (export_tasks repo c u statuses priorities s)
  unfolding export_tasks validate_status_filters validate_priority_filters
  export_tasks-Unserved u statuses priorities =
      elim (Result-cases (validate_filters parse_status status_eq statuses)) [
        | inr (e, k) ↦
            rw k
              (inr (refused_by s _ _ (λ h. inl h) k (status_filters-Validates status_eq statuses)))
        | inl (st, k) ↦
            rw k (elim (Result-cases (validate_filters parse_priority priority_eq priorities)) [
              | inr (e, j) ↦ rw j (
                  inr (
                    refused_by s _ _ (λ h. inr h) j
                      (priority_filters-Validates priority_eq priorities)))
              | inl (p, j) ↦
                  rw (j, down.count_all c u st p)
                    (inl (refl, ap (λ w. w.1) (down.count_all c u st p)))
            ])
      ]

  pub complete_task-Unserved :
      (now : ℕ) (u id : String) → Unserved d s t (IsBadId id) (complete_task repo c now u id s)
  unfolding complete_task
  complete_task-Unserved now u id =
      wrapped-Unserved d s t (IsBadId id) (transition_status repo c now u id "done" s) (
        Unserved-map d s t only_id (transition_status repo c now u id "done" s)
          (transition_status-Unserved now u id "done"))
    where
      only_id : IsBadId id ⊎ IsUnknown status_name "done" → IsBadId id
      only_id (inl bad) = bad
      only_id (inr unknown) = absurd (unknown done refl)
