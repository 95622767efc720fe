-- ===== src/Task/Service/Writes.antt =====
-- internal/task/service.go: what UpdateTask and TransitionStatus write, over any repository that
-- keeps its contract.
use task_api.Common.{
  ℕ, ◌+◌, String, ◌≡◌, refl, ◌⊎◌, inl, inr, true, some, arith, Option-cases, List,
}
use task_api.Common.Failure.{Context, ok, err}
use task_api.Task.Entity.{Status, Priority, parse_status, Task, TaskError, TaskResult}
use task_api.Task.Repository.{Repository}
use task_api.Task.Contract.{Rows, put, owned, IsOutage, found, Implements, owned-eq-some, owned_of}
use task_api.Task.Service.{legal_transition, move_to, transition_status}

-- A call on the state `s` gave an error and left the rows alone.
abbrev pub Refused : {A : Type 0} → TaskResult A → Type 0
Refused (ok a) = ⊥
Refused (err e) = Unit

module _ {St : Type 0} {repo : Repository St} {view : St → Rows} {IsGood : St → Type 0}
    {listing : St → String → List Status → List Priority → List Task}
    (impl : Implements repo view IsGood listing) (c : Context) where
  -- Writing back what was just read: the version cannot have moved.
  pub update_read :
      (s : St) (id u : String) (task task' : Task)
      → IsGood s
      → owned (view s) id u ≡ some task
      → task'.id ≡ task.id
      → task'.user_id ≡ task.user_id
      → task'.version ≡ task.version
      → let (r, t) = repo.update c task' s in
        IsGood t
        × (((r ≡ ok tt)
              × (view t
                  ≡ put (view s) id (
                      some (record task' {
                        created_at = task.created_at;
                        version = task.version + 1;
                      }))))
            ⊎ ((e : TaskError) × IsOutage e × (r ≡ err e) × (view t ≡ view s)))
  update_read s id u task task' g h same_id same_user same_version =
      let (at_id, at_user) = owned-eq-some (view s) id u task h in
      let key = impl.keyed s id task g at_id in
      ground (arith, impl.update-Meets c task' s g, owned_of (view s) id task at_id)

  -- What the rows are after the status change of a task that was read.
  move_to_outcome :
      (now : ℕ) (target : Status) (s : St) (id u : String) (task : Task)
      → IsGood s
      → owned (view s) id u ≡ some task
      → let (r, t) = move_to repo c now target task s in
        IsGood t
        × ((view t ≡ view s)
            ⊎ ((legal_transition task.status target ≡ true)
                × (view t
                    ≡ put (view s) id (
                        some (record task {
                          status = target;
                          updated_at = now;
                          version = task.version + 1;
                        })))))
  unfolding move_to
  move_to_outcome now target s id u task g h = ground (
    arith,
    update_read s id u task (record task { status = target; updated_at = now }) g h refl refl refl,
  )

  pub find_outcome :
      (s : St) (id u : String)
      → IsGood s
      → let (r, t) = repo.find_by_id c id u s in
        IsGood t
        × (view t ≡ view s)
        × (((task : Task) × (r ≡ ok task) × (owned (view s) id u ≡ some task))
            ⊎ ((e : TaskError) × (r ≡ err e)))
  find_outcome s id u g = elim (Option-cases (owned (view s) id u)) [
    | inl absent ↦ ground (arith, impl.find-Meets c id u s g)
    | inr (task, there) ↦ ground (arith, impl.find-Meets c id u s g)
  ]

  -- Whatever the answer, a status change leaves every row as it was, or it takes the caller's own
  -- task along an edge of the transition table to the status that was named: then it sets the
  -- status, the time and the next version of that row and nothing else.
  pub transition_status_writes :
      (now : ℕ) (u id target : String) (s : St)
      → IsGood s
      → let (r, t) = transition_status repo c now u id target s in
        IsGood t
        × ((view t ≡ view s)
            ⊎ ((task : Task) × (to : Status) × (owned (view s) id u ≡ some task)
                × (parse_status target ≡ some to)
                × (legal_transition task.status to ≡ true)
                × (view t
                    ≡ put (view s) id (
                        some (record task {
                          status = to;
                          updated_at = now;
                          version = task.version + 1;
                        })))))
  unfolding transition_status
  transition_status_writes now u id target s g = elim (Option-cases (parse_status target)) [
    | inl unknown ↦ ground arith
    | inr (to, named) ↦
        let (g', same, answer) = find_outcome s id u g in
        elim answer [
          | inl (task, found, there) ↦ ground (
            arith,
            move_to_outcome now to (repo.find_by_id c id u s).1 id u task g' (rw same there),
          )
          | inr (e, failed) ↦ ground arith
        ]
  ]
