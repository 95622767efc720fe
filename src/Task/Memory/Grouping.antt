-- ===== src/Task/Memory/Grouping.antt =====
-- internal/task/memory_repository.go: CountByStatusAndPriority against the listing, and the total
-- that TaskStats of internal/task/service.go adds up.
use task_api.Common.{
  ℕ, ◌+◌, String, ◌≡◌, refl, Bool, none, arith, List, [], ◌∷◌, length, select, Bool-cases, inl, inr,
}
use task_api.Common.Dict.{values}
use task_api.Common.Failure.{ok}
use task_api.Task.Entity.{
  Status, pending, in_progress, done, cancelled, Priority, low, medium, high, status_eq,
  priority_eq, Task,
}
use task_api.Task.Repository.{Counts}
use task_api.Common.Sort.{length-select-sort_by}
use task_api.Task.Contract.{counts_of}
use task_api.Task.Memory.Listings.{listing}
use task_api.Task.Memory.{
  Store, older, memory_repository, selected, tally, no_counts, tally_from,
  count_by_status_and_priority,
}
use task_api.Task.Service.{Stats, task_stats, validate_status_filters, validate_priority_filters}

-- How many of the tasks are selected and pass one more test.
abbrev pub number : String → List Status → List Priority → (Task → Bool) → List Task → ℕ
number u st p test ts = length (select test (select (selected u st p) ts))

tally_from-by_status :
    (u : String) (st : List Status) (p : List Priority) (counts : Counts) (ts : List Task)
    (x : Status)
    → (tally_from u st p counts ts).by_status x
      ≡ counts.by_status x + number u st p (λ t. status_eq t.status x) ts
unfolding tally_from
tally_from-by_status u st p counts [] x = omega arith
tally_from-by_status u st p counts (t ∷ ts) x = elim (Bool-cases (selected u st p t)) [
  | inl e ↦ rw (e, tally_from) (ground (arith, tally_from-by_status u st p (tally t counts) ts x))
  | inr e ↦ rw (e, tally_from) (tally_from-by_status u st p counts ts x)
]

tally_from-by_priority :
    (u : String) (st : List Status) (p : List Priority) (counts : Counts) (ts : List Task)
    (x : Priority)
    → (tally_from u st p counts ts).by_priority x
      ≡ counts.by_priority x + number u st p (λ t. priority_eq t.priority x) ts
unfolding tally_from
tally_from-by_priority u st p counts [] x = omega arith
tally_from-by_priority u st p counts (t ∷ ts) x = elim (Bool-cases (selected u st p t)) [
  | inl e ↦ rw (e, tally_from) (ground (arith, tally_from-by_priority u st p (tally t counts) ts x))
  | inr e ↦ rw (e, tally_from) (tally_from-by_priority u st p counts ts x)
]

Counts-eq :
    (a b : Counts)
    → ((x : Status) → a.by_status x ≡ b.by_status x)
    → ((x : Priority) → a.by_priority x ≡ b.by_priority x)
    → a ≡ b
Counts-eq a b h k = λ i. record { by_status = λ x. h x i; by_priority = λ x. k x i }

-- The loop counts the rows of the listing.
pub tally_from-listing :
    (u : String) (st : List Status) (p : List Priority) (s : Store)
    → tally_from u st p no_counts (values s) ≡ counts_of (listing s u st p)
tally_from-listing u st p s =
    let rows = select (selected u st p) (values s) in
    Counts-eq (tally_from u st p no_counts (values s)) (counts_of (listing s u st p))
      (λ x. omega (
        arith,
        tally_from-by_status u st p no_counts (values s) x,
        length-select-sort_by older (λ t. status_eq t.status x) rows,
      ))
      (λ x. omega (
        arith,
        tally_from-by_priority u st p no_counts (values s) x,
        length-select-sort_by older (λ t. priority_eq t.priority x) rows,
      ))

-- Each task has exactly one status.
split_by_status :
    (ts : List Task)
    → length (select (λ t. status_eq t.status pending) ts)
        + length (select (λ t. status_eq t.status in_progress) ts)
        + length (select (λ t. status_eq t.status done) ts)
        + length (select (λ t. status_eq t.status cancelled) ts)
      ≡ length ts
split_by_status [] = omega arith
split_by_status (t ∷ ts) = ground (arith, split_by_status ts)

split_by_priority :
    (ts : List Task)
    → length (select (λ t. priority_eq t.priority low) ts)
        + length (select (λ t. priority_eq t.priority medium) ts)
        + length (select (λ t. priority_eq t.priority high) ts)
      ≡ length ts
split_by_priority [] = omega arith
split_by_priority (t ∷ ts) = ground (arith, split_by_priority ts)

-- The statistics of a user over the in-memory store are exact: the counts of the four statuses are
-- the numbers of selected rows with each, so for the three priorities, and the total, the sum over
-- the statuses, is also the sum over the priorities and the number of selected rows.
pub task_stats_exact :
    (u : String) (statuses priorities : List String) (st : List Status) (p : List Priority)
    (s : Store)
    → validate_status_filters statuses ≡ ok st
    → validate_priority_filters priorities ≡ ok p
    → (stats : Stats) × (task_stats memory_repository none u statuses priorities s ≡ (ok stats, s))
      × ((x : Status) → stats.by_status x ≡ number u st p (λ t. status_eq t.status x) (values s))
      × ((x : Priority)
          → stats.by_priority x ≡ number u st p (λ t. priority_eq t.priority x) (values s))
      × (stats.total ≡ length (select (selected u st p) (values s)))
      × (stats.total ≡ stats.by_priority low + stats.by_priority medium + stats.by_priority high)
unfolding task_stats memory_repository count_by_status_and_priority
task_stats_exact u statuses priorities st p s status_ok priority_ok =
    let counts : Counts = tally_from u st p no_counts (values s) in
    let rows = select (selected u st p) (values s) in
    let n = λ (x : Status). tally_from-by_status u st p no_counts (values s) x in
    let m = λ (x : Priority). tally_from-by_priority u st p no_counts (values s) x in
    (
      record {
        total =
            counts.by_status pending
            + counts.by_status in_progress
            + counts.by_status done
            + counts.by_status cancelled;
        by_status = counts.by_status;
        by_priority = counts.by_priority;
      },
      rw (status_ok, priority_ok) refl,
      λ x. omega (arith, n x),
      λ x. omega (arith, m x),
      omega (arith, n pending, n in_progress, n done, n cancelled, split_by_status rows),
      omega (
        arith,
        n pending,
        n in_progress,
        n done,
        n cancelled,
        split_by_status rows,
        m low,
        m medium,
        m high,
        split_by_priority rows,
      ),
    )
