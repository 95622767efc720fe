-- ===== src/Task/Breaker/Calls.antt =====
-- internal/task/postgres_breaker.go: each call of the repository through the breaker.
use task_api.Common.{
  ℕ, String, ◌≡◌, ◌⊎◌, ◌↔◌, refl, inl, inr, true, none, some, List, arith, Option-cases, Bool-cases,
}
use task_api.Common.Breaker.{
  Breaker, execute, guarded, translate_result, translate_breaker_error, is_rejection, Rejection,
  opened, crowded, failure,
}
use task_api.Common.Failure.{
  Context, ok, err, sentinel, wrapped, rejected, foreign, context_ended, open_state,
  too_many_requests, entropy, hashing, driver,
}
use task_api.Common.Int.{ℤ}
use task_api.Task.Entity.{Status, Priority, Task, Sentinel, TaskError, TaskResult}
use task_api.Task.Repository.{Repository, RepoAction}
use task_api.Task.Breaker.{breaker_repository}

-- The library's own rejections, under any number of wraps: the errors that its breaker gives for a call
-- that it does not make.
abbrev pub IsLibraryRejection : TaskError → Type 0
IsLibraryRejection (sentinel s) = ⊥
IsLibraryRejection (wrapped e) = IsLibraryRejection e
IsLibraryRejection (rejected d) = ⊥
IsLibraryRejection (foreign open_state) = Unit
IsLibraryRejection (foreign too_many_requests) = Unit
IsLibraryRejection (foreign _) = ⊥

-- The answer of a repository, with such an error turned into the domain's rejection and every other
-- answer as it is.
abbrev pub IsTranslated : {A : Type 0} → ℕ → TaskResult A → TaskResult A → Type 0
IsTranslated d (ok a) r = r ≡ ok a
IsTranslated d (err e) r =
    (IsLibraryRejection e × (r ≡ err (rejected d))) ⊎ ((¬ IsLibraryRejection e) × (r ≡ err e))

-- How `outer`, a call through the breaker from the state `(breaker, s)`, follows from `inner`, the call
-- of the repository itself from `s`: the breaker admits it, what is stored is the repository's, the
-- answer is the repository's translated, and the breaker is told how the call ended; or it rejects
-- it, nothing is called, and the answer is the rejection.
module _ {B St : Type 0} (b : Breaker Sentinel B) (d : ℕ) where
  abbrev pub IsPassed : {A : Type 0} → RepoAction St A → RepoAction (B × St) A → Type 0
  IsPassed inner outer =
      (breaker : B) (s : St)
      → let (verdict, entered) = b.enter breaker in
        let (r, t) = inner s in
        let (r', (breaker', t')) = outer (breaker, s) in
        ((verdict ≡ none)
          × IsTranslated d r r'
          × (t' ≡ t)
          × (breaker' ≡ b.leave (failure r) entered))
        ⊎ ((x : Rejection) × (verdict ≡ some x)
            × (r' ≡ err (rejected d))
            × (t' ≡ s)
            × (breaker' ≡ entered))

  pub record IsTransparent (next : Repository St) (outer : Repository (B × St)) : Type 0 where
    pub create-IsPassed :
        (c : Context) (task : Task) → IsPassed (next.create c task) (outer.create c task)
    pub find-IsPassed :
        (c : Context) (id u : String) → IsPassed (next.find_by_id c id u) (outer.find_by_id c id u)
    pub update-IsPassed :
        (c : Context) (task : Task) → IsPassed (next.update c task) (outer.update c task)
    pub delete-IsPassed :
        (c : Context) (id u : String) → IsPassed (next.delete c id u) (outer.delete c id u)
    pub find_all-IsPassed :
        (c : Context) (u : String) (limit : ℤ) (offset : ℕ) (st : List Status) (p : List Priority)
        → IsPassed (next.find_all c u limit offset st p) (outer.find_all c u limit offset st p)
    pub count_all-IsPassed :
        (c : Context) (u : String) (st : List Status) (p : List Priority)
        → IsPassed (next.count_all c u st p) (outer.count_all c u st p)
    pub count_by-IsPassed :
        (c : Context) (u : String) (st : List Status) (p : List Priority)
        → IsPassed
            (next.count_by_status_and_priority c u st p)
            (outer.count_by_status_and_priority c u st p)

is_rejection-IsLibraryRejection : (e : TaskError) → (is_rejection e ≡ true) ↔ IsLibraryRejection e
unfolding is_rejection
is_rejection-IsLibraryRejection (sentinel s) = ((λ h. cc), (λ h. absurd h))
is_rejection-IsLibraryRejection (wrapped e) = is_rejection-IsLibraryRejection e
is_rejection-IsLibraryRejection (rejected d) = ((λ h. cc), (λ h. absurd h))
is_rejection-IsLibraryRejection (foreign context_ended) = ((λ h. cc), (λ h. absurd h))
is_rejection-IsLibraryRejection (foreign open_state) = ((λ h. tt), (λ h. refl))
is_rejection-IsLibraryRejection (foreign too_many_requests) = ((λ h. tt), (λ h. refl))
is_rejection-IsLibraryRejection (foreign entropy) = ((λ h. cc), (λ h. absurd h))
is_rejection-IsLibraryRejection (foreign hashing) = ((λ h. cc), (λ h. absurd h))
is_rejection-IsLibraryRejection (foreign (driver n)) = ((λ h. cc), (λ h. absurd h))

translate_result-IsTranslated :
    {A : Type 0} (d : ℕ) (r : TaskResult A) → IsTranslated d r (translate_result d r)
unfolding translate_result translate_breaker_error
translate_result-IsTranslated d (ok a) = refl
translate_result-IsTranslated d (err e) = elim (Bool-cases (is_rejection e)) [
  | inl h ↦ inl ((is_rejection-IsLibraryRejection e).0 h, rw h refl)
  | inr h ↦ inr (λ k. cc (h, (is_rejection-IsLibraryRejection e).1 k), rw h refl)
]

module _ {B St : Type 0} (b : Breaker Sentinel B) (d : ℕ) where
  pub guarded_admitted :
      {A : Type 0} (m : RepoAction St A) (breaker : B) (s : St)
      → (b.enter breaker).0 ≡ none
      → guarded b d m (breaker, s)
        ≡ (translate_result d (m s).0, (b.leave (failure (m s).0) (b.enter breaker).1, (m s).1))
  unfolding guarded execute
  guarded_admitted m breaker s e = ground arith

  pub guarded_rejected :
      {A : Type 0} (m : RepoAction St A) (breaker : B) (s : St) (r : Rejection)
      → (b.enter breaker).0 ≡ some r
      → guarded b d m (breaker, s) ≡ (err (rejected d), ((b.enter breaker).1, s))
  unfolding guarded execute translate_result translate_breaker_error is_rejection
  guarded_rejected m breaker s opened e = ground arith
  guarded_rejected m breaker s crowded e = ground arith

guarded-IsPassed :
    {B St A : Type 0} (b : Breaker Sentinel B) (d : ℕ) (m : RepoAction St A)
    → IsPassed b d m (guarded b d m)
guarded-IsPassed b d m breaker s = elim (Option-cases (b.enter breaker).0) [
  | inl e ↦
      rw (guarded_admitted b d m breaker s e)
        (inl (e, translate_result-IsTranslated d (m s).0, refl, refl))
  | inr (r, e) ↦ rw (guarded_rejected b d m breaker s r e) (inr (r, e, refl, refl, refl))
]

pub breaker_repository-IsTransparent :
    {B St : Type 0} (next : Repository St) (b : Breaker Sentinel B) (d : ℕ)
    → IsTransparent b d next (breaker_repository next b d)
unfolding breaker_repository
breaker_repository-IsTransparent next b d = record {
  create-IsPassed = λ c task. guarded-IsPassed b d (next.create c task);
  find-IsPassed = λ c id u. guarded-IsPassed b d (next.find_by_id c id u);
  update-IsPassed = λ c task. guarded-IsPassed b d (next.update c task);
  delete-IsPassed = λ c id u. guarded-IsPassed b d (next.delete c id u);
  find_all-IsPassed =
      λ c u limit offset st p. guarded-IsPassed b d (next.find_all c u limit offset st p);
  count_all-IsPassed = λ c u st p. guarded-IsPassed b d (next.count_all c u st p);
  count_by-IsPassed = λ c u st p. guarded-IsPassed b d (next.count_by_status_and_priority c u st p);
}
