-- ===== src/Task/Service/Graph.antt =====
-- internal/task/service.go: the graph of `legalTransitions`, and which answer TransitionStatus gives.
use task_api.Common.{ℕ, String, ◌≡◌, refl, true, false, some, arith, not, if◌then◌else◌}
use task_api.Common.Uuid.{is_valid_id}
use task_api.Common.Failure.{Context, ok, err, sentinel, wrapped}
use task_api.Task.Entity.{
  Status, pending, in_progress, done, cancelled, parse_status, Task, invalid_transition,
  task_sentinels, status_eq,
}
use task_api.Task.Repository.{Repository}
use task_api.Task.Service.{legal_transition, transition_status}

-- A path of legal moves.
pub data Route : Status → Status → Type 0 where
  stay : {s : Status} → Route s s
  move : {s t u : Status} → Route s t → legal_transition t u ≡ true → Route s u

-- Every status but pending itself can be left for pending, and pending for every other one; nothing
-- moves to itself; a cancelled task moves to pending alone; and a done task is not cancelled.
pub legal_transition_graph :
    (s t : Status)
    → (legal_transition s pending ≡ not (status_eq s pending))
      × (legal_transition pending t ≡ not (status_eq pending t))
      × (legal_transition s s ≡ false)
      × (legal_transition cancelled t ≡ status_eq t pending)
      × (legal_transition done cancelled ≡ false)
unfolding legal_transition
legal_transition_graph pending t = ground arith
legal_transition_graph in_progress t = ground arith
legal_transition_graph done t = ground arith
legal_transition_graph cancelled t = ground arith

to_pending : (s : Status) → Route s pending
unfolding legal_transition
to_pending pending = stay
to_pending in_progress = move stay refl
to_pending done = move stay refl
to_pending cancelled = move stay refl

-- No workflow state is a dead end: every status is reached from every other one.
pub Route-all : (s t : Status) → Route s t
unfolding legal_transition
Route-all s pending = to_pending s
Route-all s in_progress = move (to_pending s) refl
Route-all s done = move (to_pending s) refl
Route-all s cancelled = move (to_pending s) refl

module _ {St : Type 0} (repo : Repository St) (c : Context) where
  -- Where the table has no move from the task's status to the named one, the call writes nothing, so
  -- it cannot conflict: it answers with the task as it was found if that status is its own, and
  -- refuses an invalid transition otherwise.
  pub transition_status_no_write :
      (now : ℕ) (u id target : String) (to : Status) (task : Task) (s : St)
      → is_valid_id id ≡ true
      → parse_status target ≡ some to
      → (repo.find_by_id c id u s).0 ≡ ok task
      → legal_transition task.status to ≡ false
      → transition_status repo c now u id target s ≡ (
        if status_eq task.status to then ok task else err (wrapped (sentinel invalid_transition)),
        (repo.find_by_id c id u s).1,
      )
  unfolding transition_status
  transition_status_no_write now u id target to task s valid named there illegal = ground arith
