-- ===== src/Task/Contract.antt =====
-- internal/task/repository.go: what the interface's doc comment promises, over an abstract view of
-- the store as the rows by id. An operation meets its specification or reports an outage, an error
-- that is none of the domain's answers, and then the rows are as before.
use task_api.Common.{
  ℕ, ◌+◌, ◌<◌, String, ◌≡◌, ◌⊎◌, ◌↔◌, Option, none, some, List, [], ◌∷◌, if◌then◌else◌, str_eq,
  ◌==◌, length, take, drop, select, In, All, Distinct, Option-cases, inl, inr, str_eq_iff, arith,
  false,
}
use task_api.Common.Int.{ℤ, pos, negsuc}
use task_api.Common.Text.{str_ltb}
use task_api.Common.Failure.{Context, ok, err, sentinel, wrapped, rejected, foreign}
use task_api.Task.Entity.{
  Status, Priority, status_eq, priority_eq, Task, TaskError, TaskResult, not_found, already_exists,
  conflict, dependency_unavailable,
}
use task_api.Task.Repository.{Repository, Counts}

abbrev pub Rows : Type 0
Rows = String → Option Task

-- The rows with another entry under `k`.
unfoldable pub put : Rows → String → Option Task → Rows
put rows k entry j = if str_eq j k then entry else rows j

-- The row under `id`, if it belongs to the user.
unfoldable pub owned : Rows → String → String → Option Task
owned rows id user_id = elim (rows id) [
  | none ↦ none
  | some task ↦ if str_eq task.user_id user_id then some task else none
]

abbrev pub Outcome : Type 0 → Type 0
Outcome A = TaskResult A × Rows

abbrev pub created : Task → Rows → Outcome (Unit {0})
created task rows = elim (rows task.id) [
  | some _ ↦ (err (sentinel already_exists), rows)
  | none ↦ (ok tt, put rows task.id (some (record task { version = 1 })))
]

abbrev pub found : String → String → Rows → Outcome Task
found id user_id rows = elim (owned rows id user_id) [
  | none ↦ (err (sentinel not_found), rows)
  | some task ↦ (ok task, rows)
]

abbrev pub updated : Task → Rows → Outcome (Unit {0})
updated task rows = elim (owned rows task.id task.user_id) [
  | none ↦ (err (sentinel not_found), rows)
  | some stored ↦
      if task.version == stored.version
      then (
        ok tt,
        put rows task.id
            (some (record task { created_at = stored.created_at; version = stored.version + 1 })),
      )
      else (err (sentinel conflict), rows)
]

abbrev pub deleted : String → String → Rows → Outcome (Unit {0})
deleted id user_id rows = elim (owned rows id user_id) [
  | none ↦ (err (sentinel not_found), rows)
  | some _ ↦ (ok tt, put rows id none)
]

-- Errors that say nothing of the request: the breaker's, the driver's, an ended context.
abbrev pub IsOutage : TaskError → Type 0
IsOutage (sentinel dependency_unavailable) = Unit
IsOutage (sentinel _) = ⊥
IsOutage (wrapped e) = IsOutage e
IsOutage (rejected d) = Unit
IsOutage (foreign f) = Unit

-- A value, or an error that is no outage.
abbrev pub HasReport : {A : Type 0} → TaskResult A → Type 0
HasReport (ok a) = Unit
HasReport (err e) = ¬ IsOutage e

-- A task of the user that passes both filters; an empty filter admits everything.
abbrev pub IsSelected : String → List Status → List Priority → Task → Type 0
IsSelected u st p task =
    (task.user_id ≡ u) × ((st ≡ []) ⊎ In task.status st) × ((p ≡ []) ⊎ In task.priority p)

-- The order of a listing: by the time of creation, and by id at the same time.
abbrev pub IsNotAfter : Task → Task → Type 0
IsNotAfter a b =
    (a.created_at < b.created_at) ⊎ ((a.created_at ≡ b.created_at) × (str_ltb b.id a.id ≡ false))

abbrev pub IsByAge : List Task → Type 0
IsByAge [] = Unit
IsByAge (task ∷ tasks) = All (IsNotAfter task) tasks × IsByAge tasks

-- The window of a listing: what is left after the offset, and no more of it than a limit that is
-- not negative.
abbrev pub window : ℤ → ℕ → List Task → List Task
window (pos n) offset tasks = take n (drop offset tasks)
window (negsuc n) offset tasks = drop offset tasks

-- How many tasks of a list have each status and each priority.
abbrev pub counts_of : List Task → Counts
counts_of tasks = record {
  by_status = λ x. length (select (λ t. status_eq t.status x) tasks);
  by_priority = λ x. length (select (λ t. priority_eq t.priority x) tasks);
}

-- A call that began at `rows` and gave `out` meets the specification, or reports an outage.
abbrev pub Meets : {A : Type 0} → Rows → Outcome A → Outcome A → Type 0
Meets rows spec out = (out ≡ spec) ⊎ ((e : TaskError) × IsOutage e × (out ≡ (err e, rows)))

module _ {St : Type 0} (repo : Repository St) where
  -- `view` reads the rows of a state, `IsGood` is the implementation's invariant, and `listing` the
  -- filtered rows of a user in order, of which `find_all` gives a window.
  pub record Implements (view : St → Rows) (IsGood : St → Type 0)
      (listing : St → String → List Status → List Priority → List Task) : Type 0 where
    -- A row stands under its own id.
    pub keyed : (s : St) (k : String) (task : Task) → IsGood s → view s k ≡ some task → task.id ≡ k
    pub create-Meets :
        (c : Context) (task : Task) (s : St)
        → IsGood s
        → let (r, t) = repo.create c task s in
          Meets (view s) (created task (view s)) (r, view t) × IsGood t
    pub find-Meets :
        (c : Context) (id u : String) (s : St)
        → IsGood s
        → let (r, t) = repo.find_by_id c id u s in
          Meets (view s) (found id u (view s)) (r, view t) × IsGood t
    pub update-Meets :
        (c : Context) (task : Task) (s : St)
        → IsGood s
        → let (r, t) = repo.update c task s in
          Meets (view s) (updated task (view s)) (r, view t) × IsGood t
    pub delete-Meets :
        (c : Context) (id u : String) (s : St)
        → IsGood s
        → let (r, t) = repo.delete c id u s in
          Meets (view s) (deleted id u (view s)) (r, view t) × IsGood t
    pub find_all-Meets :
        (c : Context) (u : String) (limit : ℤ) (offset : ℕ) (st : List Status) (p : List Priority)
        (s : St)
        → IsGood s
        → let (r, t) = repo.find_all c u limit offset st p s in
          Meets (view s) (ok (window limit offset (listing s u st p)), view s) (r, view t)
          × IsGood t
          × (listing t ≡ listing s)
    pub count_all-Meets :
        (c : Context) (u : String) (st : List Status) (p : List Priority) (s : St)
        → IsGood s
        → let (r, t) = repo.count_all c u st p s in
          Meets (view s) (ok (length (listing s u st p)), view s) (r, view t)
          × IsGood t
          × (listing t ≡ listing s)
    pub count_by-Meets :
        (c : Context) (u : String) (st : List Status) (p : List Priority) (s : St)
        → IsGood s
        → let (r, t) = repo.count_by_status_and_priority c u st p s in
          Meets (view s) (ok (counts_of (listing s u st p)), view s) (r, view t)
          × IsGood t
          × (listing t ≡ listing s)
    -- The rows of a listing are the user's that pass the filters, each once, in order of age.
    pub listing_by_age :
        (s : St) (u : String) (st : List Status) (p : List Priority)
        → IsGood s
        → IsByAge (listing s u st p)
    pub listing_distinct :
        (s : St) (u : String) (st : List Status) (p : List Priority)
        → IsGood s
        → Distinct (listing s u st p)
    pub In-listing :
        (s : St) (u : String) (st : List Status) (p : List Priority) (task : Task)
        → IsGood s
        → In task (listing s u st p) ↔ ((view s task.id ≡ some task) × IsSelected u st p task)

  -- While the context is live, no operation reports an outage: with the contract, each gives exactly
  -- what its specification says.
  pub record IsReliable : Type 0 where
    pub create_reports : (task : Task) (s : St) → HasReport (repo.create none task s).0
    pub find_reports : (id u : String) (s : St) → HasReport (repo.find_by_id none id u s).0
    pub update_reports : (task : Task) (s : St) → HasReport (repo.update none task s).0
    pub delete_reports : (id u : String) (s : St) → HasReport (repo.delete none id u s).0
    pub find_all_reports :
        (u : String) (limit : ℤ) (offset : ℕ) (st : List Status) (p : List Priority) (s : St)
        → HasReport (repo.find_all none u limit offset st p s).0
    pub count_all_reports :
        (u : String) (st : List Status) (p : List Priority) (s : St)
        → HasReport (repo.count_all none u st p s).0
    pub count_by_reports :
        (u : String) (st : List Status) (p : List Priority) (s : St)
        → HasReport (repo.count_by_status_and_priority none u st p s).0

pub owned-eq-some :
    (rows : Rows) (id u : String) (t : Task)
    → owned rows id u ≡ some t
    → (rows id ≡ some t) × (t.user_id ≡ u)
unfolding owned
owned-eq-some rows id u t h = elim (Option-cases (rows id)) [
  | inl e ↦ ground arith
  | inr (w, e) ↦ ground (arith, str_eq_iff w.user_id u)
]

pub owned_of :
    (rows : Rows) (id : String) (t : Task) → rows id ≡ some t → owned rows id t.user_id ≡ some t
unfolding owned
owned_of rows id t h = ground (arith, str_eq_iff t.user_id t.user_id)
