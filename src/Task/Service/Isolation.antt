-- ===== src/Task/Service/Isolation.antt =====
-- internal/task/service.go: sequences of requests by any users, and what one user's requests do to
-- another's tasks.
use task_api.Common.{
  ℕ, ◌+◌, String, ◌≡◌, refl, ◌≢◌, inl, inr, Option, none, some, List, [], ◌∷◌, str_eq_refl,
  str_eq-cases, All,
}
use task_api.Common.Failure.{Context}
use task_api.Task.Entity.{Status, Priority, Task}
use task_api.Task.Repository.{Repository}
use task_api.Task.Contract.{Rows, put, Implements, owned-eq-some}
use task_api.Task.Service.{
  Sanitizer, create_task, update_task, delete_task, transition_status, complete_task,
}
use task_api.Task.Service.Writes.{transition_status_writes}
use task_api.Task.Service.Updates.{update_task_writes, create_task_writes, delete_task_writes}

-- The requests that may write, with what each takes from outside.
pub data Request : Type 0 where
  create_request : ℕ → Option (ℕ → ℕ) → String → String → String → Request
  update_request : ℕ → String → String → String → String → Request
  delete_request : String → Request
  status_request : ℕ → String → String → Request
  complete_request : ℕ → String → Request

module _ {St : Type 0} (repo : Repository St) (clean : Sanitizer) where
  -- The state after a user's request, under a context.
  unfoldable pub serve : Context → String → Request → St → St
  serve c u (create_request now random title description priority) s =
      (create_task repo clean c now random u title description priority s).1
  serve c u (update_request now id title description priority) s =
      (update_task repo clean c now u id title description priority s).1
  serve c u (delete_request id) s = (delete_task repo c u id s).1
  serve c u (status_request now id target) s = (transition_status repo c now u id target s).1
  serve c u (complete_request now id) s = (complete_task repo c now u id s).1

  -- Requests one after another, each with its context and its user.
  unfoldable pub serve_all : List (Context × String × Request) → St → St
  serve_all [] s = s
  serve_all ((c, u, q) ∷ qs) s = serve_all qs (serve c u q s)

-- How the row under `k` may change at the request `q` of the user `u`.
pub data RowStep (u : String) (q : Request) (k : String) : Option Task → Option Task → Type 0 where
  kept : {o : Option Task} → RowStep u q k o o
  added : {t : Task} → t.user_id ≡ u → t.version ≡ 1 → RowStep u q k none (some t)
  rewritten :
      {t t' : Task}
      → t.user_id ≡ u
      → t'.id ≡ t.id
      → t'.user_id ≡ t.user_id
      → t'.created_at ≡ t.created_at
      → t'.version ≡ t.version + 1
      → RowStep u q k (some t) (some t')
  removed : {t : Task} → t.user_id ≡ u → q ≡ delete_request k → RowStep u q k (some t) none

module _ {St : Type 0} {repo : Repository St} {view : St → Rows} {IsGood : St → Type 0}
    {listing : St → String → List Status → List Priority → List Task}
    (impl : Implements repo view IsGood listing) (clean : Sanitizer) where
  complete_task_state :
      (c : Context) (now : ℕ) (u id : String) (s : St)
      → (complete_task repo c now u id s).1 ≡ (transition_status repo c now u id "done" s).1
  unfolding complete_task
  complete_task_state c now u id s = refl

  row_at :
      {u : String} {q : Request} (rows : Rows) (rows' : Rows) (k id : String) (entry : Option Task)
      → rows' ≡ put rows id entry
      → RowStep u q id (rows id) entry
      → RowStep u q k (rows k) (rows' k)
  unfolding put
  row_at {u} rows rows' k id entry e step = rw e (elim (str_eq-cases k id) [
    | inl same ↦ rw (same, str_eq_refl id) step
    | inr other ↦ rw other kept
  ])

  unchanged :
      {u : String} {q : Request} (rows rows' : Rows) (k : String)
      → rows' ≡ rows
      → RowStep u q k (rows k) (rows' k)
  unchanged rows rows' k e = rw e kept

  -- A status change keeps to the row steps of its user.
  status-RowStep :
      (q : Request) (c : Context) (now : ℕ) (u id target : String) (s : St)
      → IsGood s
      → let t = (transition_status repo c now u id target s).1 in
        IsGood t × ((k : String) → RowStep u q k (view s k) (view t k))
  status-RowStep q c now u id target s g =
      let (g', after) = transition_status_writes impl c now u id target s g in
      let t = (transition_status repo c now u id target s).1 in
      elim after [
        | inl same ↦ (g', λ k. unchanged (view s) (view t) k same)
        | inr (task, to, there, named, legal, set) ↦
            let (at_id, at_user) = owned-eq-some (view s) id u task there in
            (
              g',
              λ k.
                  row_at (view s) (view t) k id _ set
                    (rw at_id (rewritten at_user refl refl refl refl)),
            )
      ]

  -- Whatever the request and the answer, the invariant is kept, and each row is kept, or it is the
  -- user's: added at version 1, removed, or rewritten with the same owner, id and creation time
  -- under the next version.
  pub serve-RowStep :
      (c : Context) (u : String) (q : Request) (s : St)
      → IsGood s
      → IsGood (serve repo clean c u q s)
        × ((k : String) → RowStep u q k (view s k) (view (serve repo clean c u q s) k))
  unfolding serve
  serve-RowStep c u (create_request now random title description priority) s g =
      let (g', after) =
        create_task_writes impl clean c now random u title description priority s g in
      let t = (create_task repo clean c now random u title description priority s).1 in
      elim after [
        | inl same ↦ (g', λ k. unchanged (view s) (view t) k same)
        | inr (task, _, free, _, mine, _, _, _, _, _, set) ↦
            (g', λ k. row_at (view s) (view t) k task.id _ set (rw free (added mine refl)))
      ]
  serve-RowStep c u (update_request now id title description priority) s g =
      let (g', after) = update_task_writes impl clean c now u id title description priority s g in
      let t = (update_task repo clean c now u id title description priority s).1 in
      elim after [
        | inl same ↦ (g', λ k. unchanged (view s) (view t) k same)
        | inr (task, text, p, there, _, _, set) ↦
            let (at_id, at_user) = owned-eq-some (view s) id u task there in
            (
              g',
              λ k.
                  row_at (view s) (view t) k id _ set
                    (rw at_id (rewritten at_user refl refl refl refl)),
            )
      ]
  serve-RowStep c u (delete_request id) s g =
      let (g', after) = delete_task_writes impl clean c u id s g in
      let t = (delete_task repo c u id s).1 in
      elim after [
        | inl same ↦ (g', λ k. unchanged (view s) (view t) k same)
        | inr (task, there, set) ↦
            let (at_id, at_user) = owned-eq-some (view s) id u task there in
            (g', λ k. row_at (view s) (view t) k id none set (rw at_id (removed at_user refl)))
      ]
  serve-RowStep c u (status_request now id target) s g =
      status-RowStep (status_request now id target) c now u id target s g
  serve-RowStep c u (complete_request now id) s g =
      rw (complete_task_state c now u id s)
        (status-RowStep (complete_request now id) c now u id "done" s g)

  RowStep-foreign :
      {u : String} {q : Request} {k : String} {o o' : Option Task} (task : Task)
      → RowStep u q k o o'
      → o ≡ some task
      → task.user_id ≢ u
      → o' ≡ some task
  RowStep-foreign task kept e other = e
  RowStep-foreign task (added mine v) e other = cc
  RowStep-foreign task (rewritten {t} mine a b d v) e other = absurd (other (cc))
  RowStep-foreign task (removed {t} mine d) e other = absurd (other (cc))

  -- A task stays exactly as it is under any sequence of requests by users other than its owner.
  pub serve_all-keeps_foreign :
      (qs : List (Context × String × Request)) (s : St) (id : String) (task : Task)
      → IsGood s
      → view s id ≡ some task
      → All (λ q. task.user_id ≢ q.1) qs
      → IsGood (serve_all repo clean qs s) × (view (serve_all repo clean qs s) id ≡ some task)
  unfolding serve_all
  serve_all-keeps_foreign [] s id task g e others = (g, e)
  serve_all-keeps_foreign ((c, u, q) ∷ qs) s id task g e (other, others) =
      let (g', steps) = serve-RowStep c u q s g in
      serve_all-keeps_foreign qs (serve repo clean c u q s) id task g'
        (RowStep-foreign task (steps id) e other) others
