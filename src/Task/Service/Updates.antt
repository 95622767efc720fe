-- ===== src/Task/Service/Updates.antt =====
-- internal/task/service.go: CreateTask, UpdateTask and DeleteTask over any repository that keeps its
-- contract, and what a later read sees.
use task_api.Common.{
  ℕ, ◌+◌, String, ◌≡◌, refl, ◌⊎◌, inl, inr, Option, none, some, arith, Option-cases, List,
}
use task_api.Common.Uuid.{new_id}
use task_api.Common.Failure.{Context, ok, err, Result-cases}
use task_api.Task.Entity.{Status, pending, Priority, medium, Task, TaskError}
use task_api.Task.Repository.{Repository}
use task_api.Task.Contract.{Rows, put, owned, found, Implements}
use task_api.Task.Service.{
  Sanitizer, validate_title_and_description, validate_priority, create_task, update_task,
  delete_task, new_task,
}
use task_api.Task.Service.Writes.{update_read, find_outcome}

module _ {St : Type 0} {repo : Repository St} {view : St → Rows} {IsGood : St → Type 0}
    {listing : St → String → List Status → List Priority → List Task}
    (impl : Implements repo view IsGood listing) (clean : Sanitizer) (c : Context) where
  pub update_task_writes :
      (now : ℕ) (u id title description priority : String) (s : St)
      → IsGood s
      → let (r, t) = update_task repo clean c now u id title description priority s in
        IsGood t
        × ((view t ≡ view s)
            ⊎ ((task : Task) × (text : String × String) × (p : Priority) × (owned (view s) id u
                  ≡ some task)
                × (validate_title_and_description clean title description ≡ ok text)
                × (validate_priority priority task.priority ≡ ok p)
                × (view t
                    ≡ put (view s) id (
                        some (record task {
                          title = text.0;
                          description = text.1;
                          priority = p;
                          updated_at = now;
                          version = task.version + 1;
                        })))))
  unfolding update_task
  update_task_writes now u id title description priority s g =
      elim (Result-cases (validate_title_and_description clean title description)) [
        | inl (text, valid) ↦
            let (g', same, answer) = find_outcome impl c s id u g in
            elim answer [
              | inl (task, found, there) ↦
                  elim (Result-cases (validate_priority priority task.priority)) [
                    | inl (p, named) ↦ ground (
                      arith,
                      update_read impl c (repo.find_by_id c id u s).1 id u task
                          (record task {
                            title = text.0;
                            description = text.1;
                            priority = p;
                            updated_at = now;
                          })
                          g' (rw same there) refl refl refl,
                    )
                    | inr (e, unknown) ↦ ground arith
                  ]
              | inr (e, failed) ↦ ground arith
            ]
        | inr (e, invalid) ↦ ground arith
      ]

  -- Deleting leaves every row as it was, or removes the caller's own task.
  pub delete_task_writes :
      (u id : String) (s : St)
      → IsGood s
      → let (r, t) = delete_task repo c u id s in
        IsGood t
        × ((view t ≡ view s)
            ⊎ ((task : Task) × (owned (view s) id u ≡ some task) × (view t ≡ put (view s) id none)))
  unfolding delete_task
  delete_task_writes u id s g = elim (Option-cases (owned (view s) id u)) [
    | inl absent ↦ ground (arith, impl.delete-Meets c id u s g)
    | inr (task, there) ↦ ground (arith, impl.delete-Meets c id u s g)
  ]

  create_outcome :
      (task : Task) (s : St)
      → IsGood s
      → let (r, t) = repo.create c task s in
        IsGood t
        × (((r ≡ ok tt)
              × (view s task.id ≡ none)
              × (view t ≡ put (view s) task.id (some (record task { version = 1 }))))
            ⊎ ((e : TaskError) × (r ≡ err e) × (view t ≡ view s)))
  create_outcome task s g = elim (Option-cases (view s task.id)) [
    | inl free ↦ ground (arith, impl.create-Meets c task s g)
    | inr (old, taken) ↦ ground (arith, impl.create-Meets c task s g)
  ]

  -- Creating leaves every row as it was, or adds a pending row of the caller's under a new id.
  pub create_task_writes :
      (now : ℕ) (random : Option (ℕ → ℕ)) (u title description priority : String) (s : St)
      → IsGood s
      → let (r, t) = create_task repo clean c now random u title description priority s in
        IsGood t
        × ((view t ≡ view s)
            ⊎ ((task : Task) × (r ≡ ok task)
                × (view s task.id ≡ none)
                × (new_id random ≡ some task.id)
                × (task.user_id ≡ u)
                × (task.status ≡ pending)
                × (task.created_at ≡ now)
                × (task.updated_at ≡ now)
                × (validate_title_and_description clean title description
                    ≡ ok (task.title, task.description))
                × (validate_priority priority medium ≡ ok task.priority)
                × (view t ≡ put (view s) task.id (some (record task { version = 1 })))))
  unfolding create_task
  create_task_writes now random u title description priority s g =
      elim (Result-cases (validate_title_and_description clean title description)) [
        | inl (text, valid) ↦ elim (Result-cases (validate_priority priority medium)) [
          | inl (p, named) ↦ elim (Option-cases (new_id random)) [
            | inl no_bytes ↦ ground arith
            | inr (id, made) ↦
                let task : Task = new_task id text.0 text.1 p now u in
                let (g', answer) = create_outcome task s g in
                elim answer [
                  | inl (done, free, after) ↦ (
                    ground arith,
                    inr (
                      task,
                      ground arith,
                      free,
                      made,
                      refl,
                      refl,
                      refl,
                      refl,
                      valid,
                      named,
                      ground arith,
                    ),
                  )
                  | inr (e, failed, same) ↦ ground arith
                ]
          ]
          | inr (e, unknown) ↦ ground arith
        ]
        | inr (e, invalid) ↦ ground arith
      ]
