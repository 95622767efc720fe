-- ===== src/Api/Cascade/Tasks.antt =====
-- internal/task/service.go: DeleteTask and ListTasks as the cascade calls them, over any repository
-- that keeps its contract.
use task_api.Common.{
  String, ◌≡◌, refl, sym, ◌∙◌, ap, ◌≢◌, ◌⊎◌, inl, inr, false, none, some, List, [], arith,
  if◌then◌else◌, In, Bool-cases, Option-cases, str_eq, str_eq_iff, ℕ,
}
use task_api.Common.Failure.{Context, ok, err, sentinel, wrapped, Result-cases}
use task_api.Common.Uuid.{is_valid_id}
use task_api.Task.Entity.{Status, Priority, Task, TaskError, TaskResult, not_found}
use task_api.Task.Repository.{Repository}
use task_api.Task.Contract.{Rows, Outcome, Meets, put, owned, Implements, owned-eq-some}
use task_api.Task.Service.Listing.{list_tasks_ok}
use task_api.Common.Int.{negsuc}
use task_api.Task.Service.{
  delete_task, list_tasks, validate_status_filters, validate_priority_filters, validate_filters,
  collect,
}

Meets-view :
    {A : Type 0} (rows : Rows) (spec : TaskResult A) (out : Outcome A)
    → Meets rows (spec, rows) out
    → out.1 ≡ rows
Meets-view rows spec out (inl same) = ap (λ x. x.1) same
Meets-view rows spec out (inr (e, outage, same)) = ap (λ x. x.1) same

pub ne_of : {s t : String} → str_eq s t ≡ false → s ≢ t
ne_of {s} {t} h e = ground (arith, str_eq_iff s t)

put_gone :
    (rows : Rows) (id k : String) → put rows id none k ≡ (if str_eq k id then none else rows k)
unfolding put
put_gone rows id k = refl

-- A row of another user is not under the key of a row of the user.
pub put_foreign :
    (rows : Rows) (id k u : String) (x t : Task)
    → rows id ≡ some x
    → x.user_id ≡ u
    → rows k ≡ some t
    → t.user_id ≢ u
    → put rows id none k ≡ some t
put_foreign rows id k u x t there mine here other = elim (Bool-cases (str_eq k id)) [
  | inr ne ↦ put_gone rows id k ∙ rw ne here
  | inl eq ↦
      let same : k ≡ id = (str_eq_iff k id).0 eq in
      absurd (other (ground (arith, same, there, here, mine)))
]

-- What is left under a key after a deletion was there before, and the key is another one.
pub put_left :
    (rows : Rows) (id k : String) (t : Task)
    → put rows id none k ≡ some t
    → (rows k ≡ some t) × (id ≢ k)
put_left rows id k t h =
    let h' = sym (put_gone rows id k) ∙ h in
    elim (Bool-cases (str_eq k id)) [
      | inl eq ↦ absurd (ground arith)
      | inr ne ↦ (ground arith, λ same. ground (arith, str_eq_iff k id))
    ]

module _ {St : Type 0} {repo : Repository St} {view : St → Rows} {IsGood : St → Type 0}
    {listing : St → String → List Status → List Priority → List Task}
    (impl : Implements repo view IsGood listing) where
  -- A deletion that succeeds removes a row of the user, and one that fails changes nothing.
  pub delete_task_outcome :
      (c : Context) (u id : String) (s : St)
      → IsGood s
      → let (r, t) = delete_task repo c u id s in
        IsGood t
        × (((r ≡ ok tt)
              × (view t ≡ put (view s) id none)
              × (x : Task) × (view s id ≡ some x)
              × (x.user_id ≡ u))
            ⊎ ((e : TaskError) × (r ≡ err e) × (view t ≡ view s)))
  unfolding delete_task
  delete_task_outcome c u id s g =
      let (met, good) = impl.delete-Meets c id u s g in
      elim (Bool-cases (is_valid_id id)) [
        | inr v ↦ (ground arith, inr (sentinel not_found, ground arith, ground arith))
        | inl v ↦ elim met [
          | inr (e, outage, same) ↦ (ground arith, inr (wrapped e, ground arith, ground arith))
          | inl same ↦ elim (Option-cases (owned (view s) id u)) [
            | inl absent ↦
                (ground arith, inr (wrapped (sentinel not_found), ground arith, ground arith))
            | inr (x, there) ↦
                let (here, mine) = owned-eq-some (view s) id u x there in
                (ground arith, inl (ground arith, ground arith, x, here, mine))
          ]
        ]
      ]

  -- Listing the tasks changes none, and lists every task of the user.
  pub list_tasks_keeps :
      (c : Context) (u : String) (s : St)
      → IsGood s
      → let (r, t) = list_tasks repo c u (negsuc 0) 0 [] [] s in IsGood t × (view t ≡ view s)
  unfolding list_tasks validate_status_filters validate_priority_filters validate_filters collect
  list_tasks_keeps c u s g =
      let (met, good, _) = impl.find_all-Meets c u (negsuc 0) 0 [] [] s g in
      let (met', good', _) =
        impl.count_all-Meets c u [] [] (repo.find_all c u (negsuc 0) 0 [] [] s).1 good in
      let same = Meets-view (view s) _ _ met in
      let same' = Meets-view (view (repo.find_all c u (negsuc 0) 0 [] [] s).1) _ _ met' in
      elim (Result-cases (repo.find_all c u (negsuc 0) 0 [] [] s).0) [
        | inr (e, h) ↦ (ground arith, ground arith)
        | inl (ts, h) ↦
            elim (Result-cases
              (repo.count_all c u [] [] (repo.find_all c u (negsuc 0) 0 [] [] s).1).0) [
                | inr (e, h') ↦ (ground arith, ground arith)
                | inl (n, h') ↦ (ground arith, ground arith)
              ]
      ]

  no_filters : (validate_status_filters [] ≡ ok []) × (validate_priority_filters [] ≡ ok [])
  unfolding validate_status_filters validate_priority_filters validate_filters collect
  no_filters = (refl, refl)

  pub list_tasks_complete :
      (c : Context) (t : Task) (s : St) (ts : List Task) (total : ℕ)
      → IsGood s
      → view s t.id ≡ some t
      → (list_tasks repo c t.user_id (negsuc 0) 0 [] [] s).0 ≡ ok (ts, total)
      → In t ts
  list_tasks_complete c t s ts total g here h =
      let (st, p, status_ok, priority_ok, same, _, _, _, rows) =
        list_tasks_ok impl c t.user_id (negsuc 0) 0 [] [] s ts total g h in
      let st_empty : st ≡ [] = ground (arith, no_filters) in
      let p_empty : p ≡ [] = ground (arith, no_filters) in
      let all : In t (listing s t.user_id st p) =
        (rows t).1 (here, (refl, inl st_empty, inl p_empty)) in
      rw same all
