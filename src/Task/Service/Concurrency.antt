-- ===== src/Task/Service/Concurrency.antt =====
-- internal/task/service.go and repository.go: optimistic concurrency, where a write has the version of
-- an earlier read.
use task_api.Common.{
  ◌+◌, ◌<◌, String, subst, Option-cases, ◌≡◌, refl, ◌≢◌, ◌⊎◌, inl, inr, Option, none, some, arith,
  List, [], ◌∷◌, All,
}
use task_api.Common.Failure.{Context, ok, err, sentinel}
use task_api.Task.Entity.{Status, Priority, Task, TaskError, conflict}
use task_api.Task.Repository.{Repository}
use task_api.Task.Contract.{Rows, Implements, IsOutage, put, owned_of}
use task_api.Task.Service.{Sanitizer}
use task_api.Task.Service.Isolation.{
  Request, delete_request, serve, serve_all, RowStep, kept, added, rewritten, removed,
  serve-RowStep,
}

-- The row is the one that was read, or a later version of it, of the same owner.
abbrev pub SameOrNewer : Task → Option Task → Type 0
SameOrNewer task none = ⊥
SameOrNewer task (some t) = (t ≡ task) ⊎ ((task.version < t.version) × (t.user_id ≡ task.user_id))

RowStep-SameOrNewer :
    {u : String} {q : Request} {k : String} {o o' : Option Task} (task : Task)
    → RowStep u q k o o'
    → q ≢ delete_request k
    → SameOrNewer task o
    → SameOrNewer task o'
RowStep-SameOrNewer task kept d h = h
RowStep-SameOrNewer task (added mine v) d h = absurd h
RowStep-SameOrNewer task (rewritten {t} {t'} mine a b e v) d h = ground arith
RowStep-SameOrNewer task (removed mine e) d h = absurd (d e)

module _ {St : Type 0} {repo : Repository St} {view : St → Rows} {IsGood : St → Type 0}
    {listing : St → String → List Status → List Priority → List Task}
    (impl : Implements repo view IsGood listing) (clean : Sanitizer) where
  pub serve_all-IsGood :
      (qs : List (Context × String × Request)) (s : St)
      → IsGood s
      → IsGood (serve_all repo clean qs s)
  unfolding serve_all
  serve_all-IsGood [] s g = g
  serve_all-IsGood ((c, u, q) ∷ qs) s g =
      serve_all-IsGood qs _ (serve-RowStep impl clean c u q s g).0

  pub serve_all-SameOrNewer :
      (qs : List (Context × String × Request)) (s : St) (id : String) (task : Task)
      → IsGood s
      → SameOrNewer task (view s id)
      → All (λ q. q.2 ≢ delete_request id) qs
      → SameOrNewer task (view (serve_all repo clean qs s) id)
  unfolding serve_all
  serve_all-SameOrNewer [] s id task g h stays = h
  serve_all-SameOrNewer ((c, u, q) ∷ qs) s id task g h (stay, stays) =
      let (g', steps) = serve-RowStep impl clean c u q s g in
      serve_all-SameOrNewer qs (serve repo clean c u q s) id task g'
        (RowStep-SameOrNewer task (steps id) stay h) stays

  -- A write with the version that was read, where the row is that one or a later one.
  update_SameOrNewer :
      (c : Context) (s : St) (id : String) (task new now : Task)
      → IsGood s
      → view s id ≡ some now
      → SameOrNewer task (some now)
      → new.id ≡ id
      → new.user_id ≡ task.user_id
      → new.version ≡ task.version
      → let (r, t) = repo.update c new s in
        ((now ≡ task)
          × (r ≡ ok tt)
          × (view t
              ≡ put
                  (view s)
                  id
                  (some (record new { created_at = task.created_at; version = task.version + 1 }))))
        ⊎ ((task.version < now.version) × (r ≡ err (sentinel conflict)) × (view t ≡ view s))
        ⊎ ((e : TaskError) × IsOutage e × (r ≡ err e) × (view t ≡ view s))
  update_SameOrNewer c s id task new now g there h same_id same_user same_version = elim h [
    | inl unchanged ↦ ground (arith, impl.update-Meets c new s g, owned_of (view s) id now there)
    | inr newer ↦ ground (arith, impl.update-Meets c new s g, owned_of (view s) id now there)
  ]

  -- Over a repository that keeps its contract: between a read of a row and a write of that row
  -- with the owner and the version that were read, any users may have sent any requests but the
  -- deletion of that row. The row is then the one that was read, and the write is stored under the
  -- next version with the creation time kept; or it has a greater version, and the write is
  -- refused as a conflict and changes nothing; or the repository reports an outage and nothing
  -- changes. So no update is lost.
  pub no_update_is_lost :
      (qs : List (Context × String × Request)) (s : St) (id : String) (task new : Task)
      (c : Context)
      → IsGood s
      → view s id ≡ some task
      → All (λ q. q.2 ≢ delete_request id) qs
      → new.id ≡ id
      → new.user_id ≡ task.user_id
      → new.version ≡ task.version
      → let s' = serve_all repo clean qs s in
        let (r, t) = repo.update c new s' in
        (now : Task) × (view s' id ≡ some now)
        × (((now ≡ task)
              × (r ≡ ok tt)
              × (view t
                  ≡ put (view s') id (
                      some
                        (record new { created_at = task.created_at; version = task.version + 1 }))))
            ⊎ ((task.version < now.version) × (r ≡ err (sentinel conflict)) × (view t ≡ view s'))
            ⊎ ((e : TaskError) × IsOutage e × (r ≡ err e) × (view t ≡ view s')))
  no_update_is_lost qs s id task new c g stored stays same_id same_user same_version =
      let s' = serve_all repo clean qs s in
      let h = serve_all-SameOrNewer qs s id task g (rw stored (inl refl)) stays in
      elim (Option-cases (view s' id)) [
        | inl gone ↦ absurd (subst (SameOrNewer task) gone h)
        | inr (now, there) ↦ (
          now,
          there,
          update_SameOrNewer c s' id task new now (serve_all-IsGood qs s g) there
              (subst (SameOrNewer task) there h) same_id same_user same_version,
        )
      ]
