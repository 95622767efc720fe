-- ===== src/Task/Service/Listing.antt =====
-- internal/task/service.go: ListTasks and ExportTasks over any repository that keeps its contract.
use task_api.Common.{
  ℕ, ◌≤◌, ◌<◌, String, ◌≡◌, ◌⊎◌, ◌↔◌, inl, inr, some, arith, List, length, In, Distinct, Bool-cases,
  ltb,
}
use task_api.Common.Int.{ℤ, negsuc}
use task_api.Common.Failure.{Context, ok, err, sentinel, wrapped, Result-cases}
use task_api.Task.Entity.{Status, Priority, Task, TaskError, invalid_input}
use task_api.Task.Repository.{Repository}
use task_api.Task.Contract.{Rows, Implements, IsSelected, IsByAge, window}
use task_api.Task.Service.{
  max_export_rows, validate_status_filters, validate_priority_filters, list_tasks, export_tasks,
}

module _ {St : Type 0} {repo : Repository St} {view : St → Rows} {IsGood : St → Type 0}
    {listing : St → String → List Status → List Priority → List Task}
    (impl : Implements repo view IsGood listing) (c : Context) where
  find_all_outcome :
      (u : String) (limit : ℤ) (offset : ℕ) (st : List Status) (p : List Priority) (s : St)
      → IsGood s
      → let (r, t) = repo.find_all c u limit offset st p s in
        IsGood t
        × (listing t ≡ listing s)
        × ((r ≡ ok (window limit offset (listing s u st p))) ⊎ ((e : TaskError) × (r ≡ err e)))
  find_all_outcome u limit offset st p s g =
      ground (arith, impl.find_all-Meets c u limit offset st p s g)

  count_all_outcome :
      (u : String) (st : List Status) (p : List Priority) (s : St)
      → IsGood s
      → let (r, t) = repo.count_all c u st p s in
        IsGood t
        × (listing t ≡ listing s)
        × ((r ≡ ok (length (listing s u st p))) ⊎ ((e : TaskError) × (r ≡ err e)))
  count_all_outcome u st p s g = ground (arith, impl.count_all-Meets c u st p s g)

  -- A successful listing returns the asked window of the caller's rows that pass both filters, in
  -- order of age: as many as the limit of those left after the offset, or all of these for a negative
  -- limit. The total is the number of all such rows, each counted once, whatever the window.
  pub list_tasks_ok :
      (u : String) (limit : ℤ) (offset : ℕ) (statuses priorities : List String) (s : St)
      (tasks : List Task) (total : ℕ)
      → IsGood s
      → (list_tasks repo c u limit offset statuses priorities s).0 ≡ ok (tasks, total)
      → (st : List Status) × (p : List Priority) × (validate_status_filters statuses ≡ ok st)
        × (validate_priority_filters priorities ≡ ok p)
        × (tasks ≡ window limit offset (listing s u st p))
        × (total ≡ length (listing s u st p))
        × IsByAge (listing s u st p)
        × Distinct (listing s u st p)
        × ((t : Task) → In t (listing s u st p) ↔ ((view s t.id ≡ some t) × IsSelected u st p t))
  unfolding list_tasks
  list_tasks_ok u limit offset statuses priorities s tasks total g h =
      elim (Result-cases (validate_status_filters statuses)) [
        | inl (st, status_ok) ↦ elim (Result-cases (validate_priority_filters priorities)) [
          | inl (p, priority_ok) ↦
              let (g', same, rows) = find_all_outcome u limit offset st p s g in
              let (_, _, counted) =
                count_all_outcome u st p (repo.find_all c u limit offset st p s).1 g' in
              elim rows [
                | inl window ↦ elim counted [
                  | inl count ↦ (
                    st,
                    p,
                    status_ok,
                    priority_ok,
                    ground arith,
                    ground arith,
                    impl.listing_by_age s u st p g,
                    impl.listing_distinct s u st p g,
                    λ t. impl.In-listing s u st p t g,
                  )
                  | inr (e, failed) ↦ absurd (ground arith)
                ]
                | inr (e, failed) ↦ absurd (ground arith)
              ]
          | inr (e, bad) ↦ absurd (ground arith)
        ]
        | inr (e, bad) ↦ absurd (ground arith)
      ]

  -- A successful export returns every one of the caller's rows that pass both filters, in order, and
  -- never more than ten thousand; where the repository answers and there are more, the export is
  -- refused as invalid input.
  pub export_tasks_bounded :
      (u : String) (statuses priorities : List String) (st : List Status) (p : List Priority)
      (s : St)
      → IsGood s
      → validate_status_filters statuses ≡ ok st
      → validate_priority_filters priorities ≡ ok p
      → let r = (export_tasks repo c u statuses priorities s).0 in
        ((r ≡ ok (listing s u st p)) × (length (listing s u st p) ≤ max_export_rows))
        ⊎ ((r ≡ err (wrapped (sentinel invalid_input)))
            × (max_export_rows < length (listing s u st p)))
        ⊎ ((e : TaskError) × (r ≡ err (wrapped e))
            × (((repo.count_all c u st p s).0 ≡ err e)
                ⊎ ((repo.find_all c u (negsuc 0) 0 st p (repo.count_all c u st p s).1).0 ≡ err e)))
  unfolding export_tasks
  export_tasks_bounded u statuses priorities st p s g status_ok priority_ok =
      let (g', same, counted) = count_all_outcome u st p s g in
      let (_, _, rows) = find_all_outcome u (negsuc 0) 0 st p (repo.count_all c u st p s).1 g' in
      elim counted [
        | inl count ↦ elim (Bool-cases (ltb max_export_rows (length (listing s u st p)))) [
          | inl many ↦ inr (inl (ground arith, ground arith))
          | inr few ↦ elim rows [
            | inl all ↦ inl (ground arith, ground arith)
            | inr (e, failed) ↦ inr (inr (e, ground arith, inr failed))
          ]
        ]
        | inr (e, failed) ↦ inr (inr (e, ground arith, inl failed))
      ]
