-- ===== src/Api/Cascade/Empties.antt =====
-- cmd/api/main.go: what the cascade of an account's deletion leaves of the tasks, over any
-- repository that keeps its contract.
use task_api.Common.{
  String, ◌≡◌, refl, sym, ◌∙◌, ap, ◌≢◌, ◌⊎◌, inl, inr, true, false, Option, none, some, List, [],
  ◌∷◌, arith, All, All-In, Bool-cases, Option-cases, str_eq-cases, ℕ,
}
use task_api.Common.Failure.{Context, ok, Result-cases}
use task_api.Task.Entity.{Status, Priority, Task}
use task_api.Task.Repository.{Repository}
use task_api.Task.Contract.{Rows, Implements}
use task_api.Common.Int.{negsuc}
use task_api.Task.Service.{delete_task, list_tasks}
use task_api.Api.Cascade.Tasks.{
  ne_of, put_foreign, put_left, delete_task_outcome, list_tasks_keeps, list_tasks_complete,
}
use task_api.Api.Cascade.{Files, delete_files_of, delete_tasks, delete_account_cascade}

module _ {St : Type 0} {repo : Repository St} {view : St → Rows} {IsGood : St → Type 0}
    {listing : St → String → List Status → List Priority → List Task}
    (impl : Implements repo view IsGood listing) where
  module _ {Sa Bl : Type 0} (files : Option (Files Sa Bl)) (c : Context) (u : String) where
    delete_tasks_keeps :
        (k : String) (t : Task) (ts : List Task) (s : St) (f : Sa × Bl)
        → IsGood s
        → view s k ≡ some t
        → t.user_id ≢ u
        → view (delete_tasks files c u repo ts (s, f)).1.0 k ≡ some t
    unfolding delete_tasks
    delete_tasks_keeps k t [] s f g here other = here
    delete_tasks_keeps k t (x ∷ ts) s f g here other =
        let (emptied, f') = delete_files_of files c u x.id f in
        let s' = (delete_task repo c u x.id s).1 in
        let (good, outcome) = delete_task_outcome impl c u x.id s g in
        elim (Bool-cases emptied) [
          | inr e ↦ ground arith
          | inl e ↦ elim outcome [
            | inr (y, failed, same) ↦ ground arith
            | inl (done, same, y, there, mine) ↦
                let here' =
                  ap (λ rows. rows k) same
                  ∙ put_foreign (view s) x.id k u y t there mine here other in
                ground (arith, delete_tasks_keeps k t ts s' f' good here' other)
          ]
        ]

    delete_tasks_gone :
        (k : String) (t : Task) (ts : List Task) (s : St) (f : Sa × Bl)
        → IsGood s
        → (delete_tasks files c u repo ts (s, f)).0 ≡ true
        → view (delete_tasks files c u repo ts (s, f)).1.0 k ≡ some t
        → (view s k ≡ some t) × All (λ x. x.id ≢ k) ts
    unfolding delete_tasks
    delete_tasks_gone k t [] s f g done left = (left, tt)
    delete_tasks_gone k t (x ∷ ts) s f g done left =
        let (emptied, f') = delete_files_of files c u x.id f in
        let s' = (delete_task repo c u x.id s).1 in
        let (good, outcome) = delete_task_outcome impl c u x.id s g in
        elim (Bool-cases emptied) [
          | inr e ↦ absurd (ground arith)
          | inl e ↦ elim outcome [
            | inr (y, failed, same) ↦ absurd (ground arith)
            | inl (ended, same, y, there, mine) ↦
                let done' : (delete_tasks files c u repo ts (s', f')).0 ≡ true = ground arith in
                let left' : view (delete_tasks files c u repo ts (s', f')).1.0 k ≡ some t =
                  ground arith in
                let (before, others) = delete_tasks_gone k t ts s' f' good done' left' in
                let (here, ne) =
                  put_left (view s) x.id k t (sym (ap (λ rows. rows k) same) ∙ before) in
                (here, (ne, others))
          ]
        ]

  user_tasks_gone :
      {Sa Bl : Type 0} (files : Option (Files Sa Bl)) (c : Context) (u k : String) (t : Task)
      (ts : List Task) (total : ℕ) (s : St) (f : Sa × Bl)
      → IsGood s
      → view s k ≡ some t
      → t.user_id ≡ u
      → (list_tasks repo c u (negsuc 0) 0 [] [] s).0 ≡ ok (ts, total)
      → let (done, (s', _)) =
          delete_tasks files c u repo ts ((list_tasks repo c u (negsuc 0) 0 [] [] s).1, f) in
        (done ≡ false) ⊎ (view s' k ≡ none)
  user_tasks_gone files c u k t ts total s f g here mine h =
      let (good, same) = list_tasks_keeps impl c u s g in
      let after = (list_tasks repo c u (negsuc 0) 0 [] [] s).1 in
      let out = delete_tasks files c u repo ts (after, f) in
      elim (Bool-cases out.0) [
        | inr failed ↦ inl failed
        | inl done ↦ elim (Option-cases (view out.1.0 k)) [
          | inl gone ↦ inr gone
          | inr (x, left) ↦
              let (before, others) = delete_tasks_gone files c u k x ts after f good done left in
              let key = impl.keyed s k t g here in
              let whole =
                list_tasks_complete impl c t s ts total g (ap (view s) key ∙ here) (rw mine h) in
              absurd (All-In (λ y. y.id ≢ k) t ts others whole key)
        ]
      ]

  -- Over repositories that keep the contract, for a row that is stored when an account is deleted: if
  -- it is another user's it stays as it is, even where the cascade fails; if it is the user's, it is
  -- gone where the cascade succeeds, whatever becomes of the attachments.
  pub delete_account_cascade_empties :
      {Sa Bl : Type 0} (files : Option (Files Sa Bl)) (c : Context) (u k : String) (t : Task)
      (s : St) (f : Sa × Bl)
      → IsGood s
      → view s k ≡ some t
      → let (done, (s', _)) = delete_account_cascade files c u repo (s, f) in
        ((t.user_id ≢ u) × (view s' k ≡ some t))
        ⊎ ((t.user_id ≡ u) × ((done ≡ false) ⊎ (view s' k ≡ none)))
  unfolding delete_account_cascade
  delete_account_cascade_empties files c u k t s f g here =
      let (good, same) = list_tasks_keeps impl c u s g in
      let after = (list_tasks repo c u (negsuc 0) 0 [] [] s).1 in
      let here' = ap (λ rows. rows k) same ∙ here in
      elim (Result-cases (list_tasks repo c u (negsuc 0) 0 [] [] s).0) [
        | inr (e, h) ↦ elim (str_eq-cases t.user_id u) [
          | inl mine ↦ inr (mine, inl (rw h refl))
          | inr other ↦ inl (ne_of other, rw h here')
        ]
        | inl ((ts, total), h) ↦ elim (str_eq-cases t.user_id u) [
          | inl mine ↦ inr (mine, rw h (user_tasks_gone files c u k t ts total s f g here mine h))
          | inr other ↦ inl (
            ne_of other,
            rw h (delete_tasks_keeps files c u k t ts after f good here' (ne_of other)),
          )
        ]
      ]
