-- ===== src/Task/Handler/Conditional.antt =====
-- internal/task/handler.go, service.go and repository.go together: conditional reads of a task.
use task_api.Common.{
  ◌<◌, String, ◌≡◌, refl, sym, ◌∙◌, subst, ◌≢◌, ◌⊎◌, inl, inr, true, some, List, arith,
  if◌then◌else◌, str_eq, str_eq_refl, Bool-cases, Option-cases, All,
}
use task_api.Common.Failure.{Context, ok}
use task_api.Common.Uuid.{is_valid_id}
use task_api.Task.Entity.{Status, Priority, Task}
use task_api.Task.Repository.{Repository}
use task_api.Task.Contract.{Rows, owned, Implements, owned-eq-some}
use task_api.Task.Service.{Sanitizer, get_task}
use task_api.Task.Service.Isolation.{Request as TaskRequest, delete_request, serve_all}
use task_api.Task.Service.Concurrency.{SameOrNewer, serve_all-IsGood, serve_all-SameOrNewer}
use task_api.Task.Handler.{
  task_body, write_json, task_etag, if_none_match_hits, reply, tagged, handle_get,
}
use task_api.Task.Handler.Etags.{task_etag_injective, if_none_match_hits-task_etag, str_eq-false}
use task_api.Web.{Request, from_context, status_of, answer}

module _ {St : Type 0} {repo : Repository St} {view : St → Rows} {IsGood : St → Type 0}
    {listing : St → String → List Status → List Priority → List Task}
    (impl : Implements repo view IsGood listing) (clean : Sanitizer) where
  -- What `GetTask` returns is the row, and its id is one.
  get_task_ok :
      (c : Context) (u id : String) (s : St) (now : Task)
      → IsGood s
      → (get_task repo c u id s).0 ≡ ok now
      → (is_valid_id id ≡ true) × (view s id ≡ some now)
  unfolding get_task
  get_task_ok c u id s now g h = elim (Bool-cases (is_valid_id id)) [
    | inr e ↦ absurd (ground arith)
    | inl e ↦ elim (impl.find-Meets c id u s g).0 [
      | inl m ↦ elim (Option-cases (owned (view s) id u)) [
        | inl o ↦ absurd (ground arith)
        | inr (task, o) ↦ ground (arith, owned-eq-some (view s) id u task)
      ]
      | inr (failed, outage, m) ↦ absurd (ground arith)
    ]
  ]

  -- The status of an answer with an entity tag.
  tagged-status :
      (r : Request) (etag : String) (task : Task)
      → status_of (reply (tagged r etag (write_json 200 (task_body task))))
        ≡ some (if if_none_match_hits (r.header "If-None-Match") etag then 304 else 200)
  unfolding answer write_json
  tagged-status r etag task =
      elim (Bool-cases (if_none_match_hits (r.header "If-None-Match") etag)) [
        | inl e ↦ rw e refl
        | inr e ↦ rw e refl
      ]

  handle_get-status :
      (c : Context) (id : String) (r : Request) (s : St) (now : Task)
      → (get_task repo c (from_context r.user_id) id s).0 ≡ ok now
      → status_of (handle_get repo clean c id r s).0
        ≡ some (if if_none_match_hits (r.header "If-None-Match") (task_etag now) then 304 else 200)
  unfolding handle_get
  handle_get-status c id r s now h = rw h (tagged-status r (task_etag now) now)

  -- A client that has read a task sends its tag back with a later read, and any users may have sent
  -- any requests in between but the deletion of that task. If the later read finds a task, then
  -- either it is the task that the client has, and the answer is 304, or it has a greater version,
  -- and the answer is 200.
  pub conditional_read :
      (qs : List (Context × String × TaskRequest)) (s : St) (id : String) (task now : Task)
      (c : Context) (r : Request)
      → IsGood s
      → view s id ≡ some task
      → All (λ q. q.2 ≢ delete_request id) qs
      → r.header "If-None-Match" ≡ task_etag task
      → (get_task repo c (from_context r.user_id) id (serve_all repo clean qs s)).0 ≡ ok now
      → ((now ≡ task)
          × (status_of (handle_get repo clean c id r (serve_all repo clean qs s)).0 ≡ some 304))
        ⊎ ((task.version < now.version)
            × (status_of (handle_get repo clean c id r (serve_all repo clean qs s)).0 ≡ some 200))
  conditional_read qs s id task now c r g there stays header found =
      let s' = serve_all repo clean qs s in
      let g' = serve_all-IsGood impl clean qs s g in
      let (valid, there') = get_task_ok c (from_context r.user_id) id s' now g' found in
      let same : task.id ≡ id = impl.keyed s id task g there in
      let same' : now.id ≡ id = impl.keyed s' id now g' there' in
      let status = handle_get-status c id r s' now found in
      let hit : if_none_match_hits (r.header "If-None-Match") (task_etag now)
          ≡ str_eq (task_etag now) (task_etag task) =
        rw (header, if_none_match_hits-task_etag task now (rw same valid)) refl in
      let h : SameOrNewer task (some now) =
        subst (SameOrNewer task) there'
          (serve_all-SameOrNewer impl clean qs s id task g (rw there (inl refl)) stays) in
      elim h [
        | inl unchanged ↦
            inl (unchanged, status ∙ rw (hit, unchanged, str_eq_refl (task_etag task)) refl)
        | inr (newer, _) ↦ inr (
          newer,
          status
              ∙ rw
                  (
                    hit,
                    str_eq-false (task_etag now) (task_etag task) (λ e.
                        absurd (
                          omega (arith, task_etag_injective now task (same' ∙ sym same) e, newer))),
                  )
                  refl,
        )
      ]
