-- ===== src/Task/Handler/Unavailable.antt =====
-- internal/task/handler.go: the answers for a rejection and for a request at fault.
use task_api.Common.{
  ℕ, String, ◌≡◌, refl, ap, subst, ◌∙◌, ◌⊎◌, inl, inr, true, false, Option, some, List, [], ◌∷◌,
  arith, str_eq,
}
use task_api.Common.Decimal.{itoa}
use task_api.Common.Dict.{Dict, insert}
use task_api.Common.Failure.{sentinel, wrapped, rejected, foreign, is, retry_after}
use task_api.Task.Entity.{
  Sentinel, TaskError, not_found, already_exists, invalid_input, conflict, invalid_transition,
  dependency_unavailable, unavailable, sentinel_eq, task_sentinels,
}
use task_api.Task.Handler.{
  Ops, write_error, reply, handle_service_error, handle_transition_status_error, seconds,
}
use task_api.Task.Handler.Down.{IsRejection}
use task_api.Task.Handler.Faults.{IsRefusal}
use task_api.Web.{answer, status_of}

-- An error is one of the sentinels at most.
sentinel_eq_only : (s x y : Sentinel) → sentinel_eq s x ≡ true → sentinel_eq s y ≡ sentinel_eq x y
sentinel_eq_only not_found x y h = ground arith
sentinel_eq_only already_exists x y h = ground arith
sentinel_eq_only invalid_input x y h = ground arith
sentinel_eq_only conflict x y h = ground arith
sentinel_eq_only invalid_transition x y h = ground arith
sentinel_eq_only dependency_unavailable x y h = ground arith
sentinel_eq_only unavailable x y h = ground arith

is_only : (e : TaskError) (x y : Sentinel) → is e x ≡ true → is e y ≡ sentinel_eq x y
unfolding is
is_only (sentinel s) x y h = sentinel_eq_only s x y h
is_only (wrapped e) x y h = is_only e x y h
is_only (rejected d) x y h = sentinel_eq_only unavailable x y h
is_only (foreign f) x y h = cc

IsRejection-is :
    (d : ℕ) (e : TaskError) → IsRejection d e → (is e unavailable ≡ true) × (retry_after e ≡ some d)
unfolding is retry_after
IsRejection-is d (sentinel s) h = absurd h
IsRejection-is d (wrapped e) h = IsRejection-is d e h
IsRejection-is d (rejected d') h = (refl, ap some h)
IsRejection-is d (foreign f) h = absurd h

-- The answer while calls are rejected: 503, with the time after which to try again.
abbrev pub unavailable_answer : ℕ → Option (ℕ × Dict (List String))
unavailable_answer d =
    some
      (503, ("Retry-After", itoa (seconds d) ∷ []) ∷ ("Content-Type", "application/json" ∷ []) ∷ [])

abbrev pub Handles : (TaskError → Ops) → Type 0
Handles failed =
    ((d : ℕ) (e : TaskError) → IsRejection d e → answer (reply (failed e)) ≡ unavailable_answer d)
    × ((e : TaskError)
        → IsRefusal e
        → (status_of (reply (failed e)) ≡ some 400) ⊎ (status_of (reply (failed e)) ≡ some 404))

pub handle_service_error-Handles : Handles handle_service_error
unfolding handle_service_error write_error answer insert str_eq
handle_service_error-Handles = (
  λ d e h.
      let (u, r) = IsRejection-is d e h in
      rw
        (
          is_only e unavailable not_found u,
          is_only e unavailable invalid_input u,
          is_only e unavailable already_exists u,
          is_only e unavailable conflict u,
          is_only e unavailable invalid_transition u,
          is_only e unavailable dependency_unavailable u,
          u,
          r,
        )
        refl,
  λ e h. elim h [ inl n ↦ rw n (inr refl) | inr (n, i) ↦ rw (n, i) (inl refl) ],
)

handle_transition_status_error-other :
    (e : TaskError)
    → is e conflict ≡ false
    → is e invalid_transition ≡ false
    → handle_service_error e ≡ handle_transition_status_error e
unfolding handle_transition_status_error
handle_transition_status_error-other e h k = rw (h, k) refl

-- An error that is another sentinel is no conflict.
transition_as_service :
    (e : TaskError) (x : Sentinel)
    → is e x ≡ true
    → sentinel_eq x conflict ≡ false
    → sentinel_eq x invalid_transition ≡ false
    → handle_service_error e ≡ handle_transition_status_error e
transition_as_service e x h c t =
    handle_transition_status_error-other e (is_only e x conflict h ∙ c)
      (is_only e x invalid_transition h ∙ t)

pub handle_transition_status_error-Handles : Handles handle_transition_status_error
handle_transition_status_error-Handles = (
  λ d e h.
      subst (λ ops. answer (reply ops) ≡ unavailable_answer d)
        (transition_as_service e unavailable (IsRejection-is d e h).0 refl refl)
        (handle_service_error-Handles.0 d e h),
  λ e h.
      let same : handle_service_error e ≡ handle_transition_status_error e = elim h [
        | inl n ↦ transition_as_service e not_found n refl refl
        | inr (n, i) ↦ transition_as_service e invalid_input i refl refl
      ] in
      subst (λ ops. (status_of (reply ops) ≡ some 400) ⊎ (status_of (reply ops) ≡ some 404)) same
        (handle_service_error-Handles.1 e h),
)
