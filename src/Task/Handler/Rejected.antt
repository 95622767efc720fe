-- ===== src/Task/Handler/Rejected.antt =====
-- internal/task/handler.go over postgres_breaker.go: what a client is told while the database is down.
use task_api.Common.{ℕ, ◌≡◌, refl, ap, ◌⊎◌, inl, inr, none, some, str_eq}
use task_api.Common.Breaker.{Breaker, Rejection}
use task_api.Common.Dict.{insert}
use task_api.Common.Failure.{Context, ok, err}
use task_api.Common.Int.{ℤ}
use task_api.Task.Entity.{
  Sentinel, TaskError, TaskResult, task_sentinels, status_name, priority_name,
}
use task_api.Task.Repository.{Repository}
use task_api.Task.Breaker.{breaker_repository}
use task_api.Task.Breaker.Calls.{guarded_rejected}
use task_api.Task.Handler.{
  Body, Message, Ops, Query, write_error, reply, answered, handle_service_error,
  handle_transition_status_error, handle_create, parse_pagination, list_page,
}
use task_api.Task.Handler.Down.{
  IsDown, Unserved, Unserved-map, get_task-Unserved, delete_task-Unserved, create_task-Unserved,
  update_task-Unserved, transition_status-Unserved, list_tasks-Unserved, task_stats-Unserved,
  export_tasks-Unserved, complete_task-Unserved,
}
use task_api.Task.Handler.Faults.{
  IsBadId, IsBadText, IsUnknown, IsBadPriority, IsBadFilter, IsBadPage,
}
use task_api.Task.Service.{Sanitizer}
use task_api.Task.Handler.Routes.{
  Route, post_task, list_route, stats_route, export_route, get_route, put_task, done_route,
  status_route, delete_route, Libraries, route,
}
use task_api.Web.{Request, Reply, from_context, answer, status_of}
use task_api.Task.Handler.Paging.{parse_pagination-Refuses}
use task_api.Task.Handler.Unavailable.{
  unavailable_answer, Handles, handle_service_error-Handles, handle_transition_status_error-Handles,
}

-- The client is told to try again later, or that its request has the fault, and nothing is stored.
abbrev pub IsTurnedAway : {B St : Type 0} → Type 0 → ℕ → St → Reply Body × (B × St) → Type 0
IsTurnedAway F d s (reply, (breaker, t)) =
    (t ≡ s)
    × ((answer reply ≡ unavailable_answer d)
        ⊎ (F × ((status_of reply ≡ some 400) ⊎ (status_of reply ≡ some 404))))

answered-IsTurnedAway :
    {A B St : Type 0} (F : Type 0) (d : ℕ) (before after : B) (s : St) (done : A → Ops)
    (failed : TaskError → Ops) (o : TaskResult A × (B × St))
    → Handles failed
    → Unserved d (before, s) (after, s) F o
    → IsTurnedAway F d s (answered done failed o)
answered-IsTurnedAway F d before after s done failed (ok a, w) h u = absurd u
answered-IsTurnedAway F d before after s done failed (err e, w) h (inl (rejection, same)) =
    (ap (λ x. x.1) same, inl (h.0 d e rejection))
answered-IsTurnedAway F d before after s done failed (err e, w) h (inr (fault, refusal, same)) =
    (ap (λ x. x.1) same, inr (fault, h.1 e refusal))

-- What is at fault with a request to a route, whatever is stored: a body that is not understood, or a
-- field, an id, a status, a filter or a page of it that is not allowed.
abbrev pub IsFault : Sanitizer → Route → Type 0
IsFault clean (post_task now random none) = Unit
IsFault clean (post_task now random (some f)) =
    IsBadText clean f.title f.description ⊎ IsBadPriority f.priority
IsFault clean (list_route query) =
    IsBadPage query
    ⊎ IsBadFilter status_name (query "status")
    ⊎ IsBadFilter priority_name (query "priority")
IsFault clean (stats_route query) =
    IsBadFilter status_name (query "status") ⊎ IsBadFilter priority_name (query "priority")
IsFault clean (export_route now taken query) =
    IsBadFilter status_name (query "status") ⊎ IsBadFilter priority_name (query "priority")
IsFault clean (get_route id) = IsBadId id
IsFault clean (put_task now id none) = Unit
IsFault clean (put_task now id (some f)) = IsBadId id ⊎ IsBadText clean f.title f.description
IsFault clean (done_route now id) = IsBadId id
IsFault clean (status_route now id none) = Unit
IsFault clean (status_route now id (some status)) = IsBadId id ⊎ IsUnknown status_name status
IsFault clean (delete_route id) = IsBadId id

-- A body or a query that is not understood is answered 400.
refused_400 : (message : Message) → status_of (reply (write_error 400 message)) ≡ some 400
unfolding write_error answer insert str_eq
refused_400 message = refl

-- `CreateTask` has random bytes for an identifier.
abbrev pub HasRandom : Route → Type 0
HasRandom (post_task now none body) = ⊥
HasRandom _ = Unit

module _ {B St : Type 0} (next : Repository St) (b : Breaker Sentinel B) (d : ℕ) where
  breaker_repository-IsDown :
      (breaker : B) (s : St) (r : Rejection)
      → (b.enter breaker).0 ≡ some r
      → IsDown (breaker_repository next b d) d (breaker, s) ((b.enter breaker).1, s)
  unfolding breaker_repository
  breaker_repository-IsDown breaker s r e = record {
    create = λ c task. guarded_rejected b d (next.create c task) breaker s r e;
    find_by_id = λ c id u. guarded_rejected b d (next.find_by_id c id u) breaker s r e;
    find_all = λ c u limit offset st p.
        guarded_rejected b d (next.find_all c u limit offset st p) breaker s r e;
    delete = λ c id u. guarded_rejected b d (next.delete c id u) breaker s r e;
    count_all = λ c u st p. guarded_rejected b d (next.count_all c u st p) breaker s r e;
    count_by_status_and_priority =
        λ c u st p. guarded_rejected b d (next.count_by_status_and_priority c u st p) breaker s r e;
  }

  list_page-IsTurnedAway :
      (libs : Libraries) (c : Context) (query : Query) (request : Request) (breaker : B) (s : St)
      (r : Rejection)
      → (b.enter breaker).0 ≡ some r
      → (page : TaskResult (ℤ × ℕ)) → ((f : TaskError) → page ≡ err f → IsBadPage query)
      → IsTurnedAway (IsFault libs.clean (list_route query)) d s (
          list_page
            (breaker_repository next b d)
            libs.clean
            c
            libs.sha256
            query
            page
            request
            (breaker, s))
  unfolding list_page
  list_page-IsTurnedAway libs c query request breaker s r e (err f) bad =
      (refl, inr (inl (bad f refl), inl (refused_400 _)))
  list_page-IsTurnedAway libs c query request breaker s r e (ok (limit, offset)) bad =
      answered-IsTurnedAway _ d breaker _ s _ handle_service_error _ handle_service_error-Handles (
        Unserved-map d (breaker, s) _ (λ h. inr h) _
          (list_tasks-Unserved (breaker_repository-IsDown breaker s r e) libs.clean c
            (from_context request.user_id) limit offset (query "status") (query "priority")))

  -- While the breaker rejects calls, every route answers 503 with the time after which to try
  -- again, or the request is itself at fault and the answer is 400 or 404; what is stored stays as
  -- it is in both cases. The faults are: a body that is not understood; no title, or one of more
  -- than 200 characters, or a description of more than 2000; an unknown priority or status; an id
  -- that is no UUID; a filter of more than fifty values or with an unknown one; a limit or an
  -- offset that is no number or a negative one, or a limit above 100. For a new task the random
  -- source has not failed.
  pub route-IsTurnedAway :
      (libs : Libraries) (c : Context) (q : Route) (request : Request) (breaker : B) (s : St)
      (r : Rejection)
      → HasRandom q
      → (b.enter breaker).0 ≡ some r
      → IsTurnedAway
          (IsFault libs.clean q)
          d
          s
          (route (breaker_repository next b d) libs c q request (breaker, s))
  unfolding route handle_create
  route-IsTurnedAway libs c (post_task now none body) request breaker s r ready e = absurd ready
  route-IsTurnedAway libs c (post_task now (some bytes) none) request breaker s r ready e =
      (refl, inr (tt, inl (refused_400 _)))
  route-IsTurnedAway libs c (post_task now (some bytes) (some f)) request breaker s r ready e =
      answered-IsTurnedAway _ d breaker _ s _ handle_service_error _ handle_service_error-Handles (
        create_task-Unserved (breaker_repository-IsDown breaker s r e) libs.clean c now bytes
          (from_context request.user_id) f.title f.description f.priority)
  route-IsTurnedAway libs c (stats_route query) request breaker s r ready e =
      answered-IsTurnedAway _ d breaker _ s _ handle_service_error _ handle_service_error-Handles (
        task_stats-Unserved (breaker_repository-IsDown breaker s r e) libs.clean c
          (from_context request.user_id) (query "status") (query "priority"))
  route-IsTurnedAway libs c (export_route now taken query) request breaker s r ready e =
      answered-IsTurnedAway _ d breaker _ s _ handle_service_error _ handle_service_error-Handles (
        export_tasks-Unserved (breaker_repository-IsDown breaker s r e) libs.clean c
          (from_context request.user_id) (query "status") (query "priority"))
  route-IsTurnedAway libs c (get_route id) request breaker s r ready e =
      answered-IsTurnedAway _ d breaker _ s _ handle_service_error _ handle_service_error-Handles (
        get_task-Unserved (breaker_repository-IsDown breaker s r e) libs.clean c
          (from_context request.user_id) id)
  route-IsTurnedAway libs c (put_task now id none) request breaker s r ready e =
      (refl, inr (tt, inl (refused_400 _)))
  route-IsTurnedAway libs c (put_task now id (some f)) request breaker s r ready e =
      answered-IsTurnedAway _ d breaker _ s _ handle_service_error _ handle_service_error-Handles (
        update_task-Unserved (breaker_repository-IsDown breaker s r e) libs.clean c now
          (from_context request.user_id) id f.title f.description f.priority)
  route-IsTurnedAway libs c (done_route now id) request breaker s r ready e =
      answered-IsTurnedAway _ d breaker _ s _ handle_service_error _ handle_service_error-Handles (
        complete_task-Unserved (breaker_repository-IsDown breaker s r e) libs.clean c now
          (from_context request.user_id) id)
  route-IsTurnedAway libs c (status_route now id none) request breaker s r ready e =
      (refl, inr (tt, inl (refused_400 _)))
  route-IsTurnedAway libs c (status_route now id (some status)) request breaker s r ready e =
      answered-IsTurnedAway _ d breaker _ s _ handle_transition_status_error _
        handle_transition_status_error-Handles
        (transition_status-Unserved (breaker_repository-IsDown breaker s r e) libs.clean c now
          (from_context request.user_id) id status)
  route-IsTurnedAway libs c (delete_route id) request breaker s r ready e =
      answered-IsTurnedAway _ d breaker _ s _ handle_service_error _ handle_service_error-Handles (
        delete_task-Unserved (breaker_repository-IsDown breaker s r e) libs.clean c
          (from_context request.user_id) id)
  route-IsTurnedAway libs c (list_route query) request breaker s r ready e =
      list_page-IsTurnedAway libs c query request breaker s r e (parse_pagination query)
        (parse_pagination-Refuses query)
