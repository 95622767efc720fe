-- ===== src/Task/Breaker/Transparent.antt =====
-- internal/task/postgres_breaker.go: the breaker and the contract of the repository that it wraps.
use task_api.Common.{
  ℕ, ◌+◌, String, ◌≡◌, refl, inl, inr, none, some, List, arith, Option-cases, Bool-cases, ap, ◌∙◌,
  ◌==◌, sym, subst, length,
}
use task_api.Common.Breaker.{
  Breaker, guarded, translate_result, translate_breaker_error, is_rejection,
}
use task_api.Common.Failure.{ok, err, sentinel, wrapped, rejected, foreign}
use task_api.Task.Entity.{
  Status, Priority, Task, Sentinel, TaskError, TaskResult, not_found, already_exists, conflict,
}
use task_api.Task.Repository.{Repository, RepoAction}
use task_api.Task.Contract.{
  Rows, Outcome, Meets, IsOutage, Implements, owned, put, created, found, updated, deleted, window,
  counts_of,
}
use task_api.Task.Breaker.{breaker_repository}
use task_api.Task.Breaker.Calls.{
  IsTransparent, guarded_admitted, guarded_rejected, breaker_repository-IsTransparent,
}

-- An answer of the domain: a value, or a sentinel as it is.
abbrev IsAnswer : {A : Type 0} → TaskResult A → Type 0
IsAnswer (ok a) = Unit
IsAnswer (err (sentinel s)) = Unit
IsAnswer (err _) = ⊥

translate-IsOutage : (d : ℕ) (e : TaskError) → IsOutage e → IsOutage (translate_breaker_error d e)
unfolding translate_breaker_error
translate-IsOutage d e h = elim (Bool-cases (is_rejection e)) [ inl r ↦ rw r tt | inr r ↦ rw r h ]

translate-IsAnswer : {A : Type 0} (d : ℕ) (r : TaskResult A) → IsAnswer r → translate_result d r ≡ r
unfolding translate_result translate_breaker_error is_rejection
translate-IsAnswer d (ok a) h = refl
translate-IsAnswer d (err (sentinel s)) h = refl
translate-IsAnswer d (err (wrapped e)) h = absurd h
translate-IsAnswer d (err (rejected x)) h = absurd h
translate-IsAnswer d (err (foreign f)) h = absurd h

Meets-translate :
    {A : Type 0} (d : ℕ) (rows : Rows) (spec out : Outcome A)
    → IsAnswer spec.0
    → Meets rows spec out
    → Meets rows spec (translate_result d out.0, out.1)
unfolding translate_result
Meets-translate d rows spec out answer (inl e) = inl (
    ap (λ (o : Outcome _). (translate_result d o.0, o.1)) e
    ∙ ap (λ r. (r, spec.1)) (translate-IsAnswer d spec.0 answer))
Meets-translate d rows spec out answer (inr (x, outage, e)) = inr (
  translate_breaker_error d x,
  translate-IsOutage d x outage,
  ap (λ (o : Outcome _). (translate_result d o.0, o.1)) e,
)

module _ {B St : Type 0} (b : Breaker Sentinel B) (d : ℕ) (view : St → Rows) where
  guarded-Meets :
      {A : Type 0} (m : RepoAction St A) (P : St → Type 0) (breaker : B) (s : St) (spec : Outcome A)
      → IsAnswer spec.0
      → P s
      → (let (r, t) = m s in Meets (view s) spec (r, view t) × P t)
      → let (r, t) = guarded b d m (breaker, s) in Meets (view s) spec (r, view t.1) × P t.1
  guarded-Meets m P breaker s spec answer good (meets, kept) =
      elim (Option-cases (b.enter breaker).0) [
        | inl e ↦
            rw (guarded_admitted b d m breaker s e)
              (Meets-translate d (view s) spec ((m s).0, view (m s).1) answer meets, kept)
        | inr (r, e) ↦ rw (guarded_rejected b d m breaker s r e) (inr (rejected d, tt, refl), good)
      ]

IsAnswer-of : {A : Type 0} (x : Outcome A) {y : Outcome A} → x ≡ y → IsAnswer y.0 → IsAnswer x.0
IsAnswer-of x e h = subst (λ (o : Outcome _). IsAnswer o.0) (sym e) h

created-IsAnswer : (task : Task) (rows : Rows) → IsAnswer (created task rows).0
created-IsAnswer task rows = elim (Option-cases (rows task.id)) [
  | inl e ↦
      IsAnswer-of (created task rows)
        {y = (ok tt, put rows task.id (some (record task { version = 1 })))} (ground arith) tt
  | inr (t, e) ↦
      IsAnswer-of (created task rows) {y = (err (sentinel already_exists), rows)} (ground arith) tt
]

found-IsAnswer : (id u : String) (rows : Rows) → IsAnswer (found id u rows).0
found-IsAnswer id u rows = elim (Option-cases (owned rows id u)) [
  | inl e ↦ IsAnswer-of (found id u rows) {y = (err (sentinel not_found), rows)} (ground arith) tt
  | inr (t, e) ↦ IsAnswer-of (found id u rows) {y = (ok t, rows)} (ground arith) tt
]

updated-IsAnswer : (task : Task) (rows : Rows) → IsAnswer (updated task rows).0
updated-IsAnswer task rows = elim (Option-cases (owned rows task.id task.user_id)) [
  | inl e ↦ IsAnswer-of (updated task rows) {y = (err (sentinel not_found), rows)} (ground arith) tt
  | inr (t, e) ↦ elim (Bool-cases (task.version == t.version)) [
    | inl v ↦
        IsAnswer-of (updated task rows)
          {y = (
            ok tt,
            put rows task.id
                (some (record task { created_at = t.created_at; version = t.version + 1 })),
          )}
          (ground arith) tt
    | inr v ↦
        IsAnswer-of (updated task rows) {y = (err (sentinel conflict), rows)} (ground arith) tt
  ]
]

deleted-IsAnswer : (id u : String) (rows : Rows) → IsAnswer (deleted id u rows).0
deleted-IsAnswer id u rows = elim (Option-cases (owned rows id u)) [
  | inl e ↦ IsAnswer-of (deleted id u rows) {y = (err (sentinel not_found), rows)} (ground arith) tt
  | inr (t, e) ↦ IsAnswer-of (deleted id u rows) {y = (ok tt, put rows id none)} (ground arith) tt
]

breaker_contract :
    {B St : Type 0} {next : Repository St} {view : St → Rows} {IsGood : St → Type 0}
    {listing : St → String → List Status → List Priority → List Task} (b : Breaker Sentinel B)
    (d : ℕ)
    → Implements next view IsGood listing
    → Implements (breaker_repository next b d) (λ s. view s.1) (λ s. IsGood s.1) (λ s. listing s.1)
unfolding breaker_repository
breaker_contract {next = next} {view = view} {IsGood = IsGood} {listing = listing} b d impl =
    record {
      keyed = λ s k task g h. impl.keyed s.1 k task g h;
      create-Meets = λ c task s g.
          guarded-Meets b d view (next.create c task) IsGood s.0 s.1 (created task (view s.1))
            (created-IsAnswer task (view s.1)) g (impl.create-Meets c task s.1 g);
      find-Meets = λ c id u s g.
          guarded-Meets b d view (next.find_by_id c id u) IsGood s.0 s.1 (found id u (view s.1))
            (found-IsAnswer id u (view s.1)) g (impl.find-Meets c id u s.1 g);
      update-Meets = λ c task s g.
          guarded-Meets b d view (next.update c task) IsGood s.0 s.1 (updated task (view s.1))
            (updated-IsAnswer task (view s.1)) g (impl.update-Meets c task s.1 g);
      delete-Meets = λ c id u s g.
          guarded-Meets b d view (next.delete c id u) IsGood s.0 s.1 (deleted id u (view s.1))
            (deleted-IsAnswer id u (view s.1)) g (impl.delete-Meets c id u s.1 g);
      find_all-Meets = λ c u limit offset st p s g.
          let (meets, good, same) = impl.find_all-Meets c u limit offset st p s.1 g in
          let out =
            guarded-Meets b d view (next.find_all c u limit offset st p)
              (λ t. IsGood t × (listing t ≡ listing s.1)) s.0 s.1
              (ok (window limit offset (listing s.1 u st p)), view s.1) tt (g, refl)
              (meets, (good, same)) in
          (out.0, out.1.0, out.1.1);
      count_all-Meets = λ c u st p s g.
          let (meets, good, same) = impl.count_all-Meets c u st p s.1 g in
          let out =
            guarded-Meets b d view (next.count_all c u st p)
              (λ t. IsGood t × (listing t ≡ listing s.1)) s.0 s.1
              (ok (length (listing s.1 u st p)), view s.1) tt (g, refl) (meets, (good, same)) in
          (out.0, out.1.0, out.1.1);
      count_by-Meets = λ c u st p s g.
          let (meets, good, same) = impl.count_by-Meets c u st p s.1 g in
          let out =
            guarded-Meets b d view (next.count_by_status_and_priority c u st p)
              (λ t. IsGood t × (listing t ≡ listing s.1)) s.0 s.1
              (ok (counts_of (listing s.1 u st p)), view s.1) tt (g, refl) (meets, (good, same)) in
          (out.0, out.1.0, out.1.1);
      listing_by_age = λ s u st p g. impl.listing_by_age s.1 u st p g;
      listing_distinct = λ s u st p g. impl.listing_distinct s.1 u st p g;
      In-listing = λ s u st p task g. impl.In-listing s.1 u st p task g;
    }

-- A repository behind a breaker keeps the contract that the repository keeps, whatever the breaker
-- decides. Each of the seven operations either is admitted: then it stores what the repository
-- stores, gives the repository's answer as it is, but for an error that is the library's own
-- rejection, which becomes the domain's, and the breaker is told how the call ended; or it is
-- rejected: then the repository is not called and the answer is the domain's rejection.
pub breaker_repository-Implements :
    {B St : Type 0} {next : Repository St} {view : St → Rows} {IsGood : St → Type 0}
    {listing : St → String → List Status → List Priority → List Task} (b : Breaker Sentinel B)
    (d : ℕ)
    → Implements next view IsGood listing
    → Implements (breaker_repository next b d) (λ s. view s.1) (λ s. IsGood s.1) (λ s. listing s.1)
      × IsTransparent b d next (breaker_repository next b d)
breaker_repository-Implements {next = next} b d impl =
    (breaker_contract b d impl, breaker_repository-IsTransparent next b d)
