-- ===== src/Common/Breaker.antt =====
-- The circuit breaker that internal/task/postgres_breaker.go, internal/user/postgres_breaker.go and
-- internal/attachment/postgres_breaker.go wrap around a repository. The library's breaker is a
-- parameter: it admits a call or rejects it, and learns how an admitted call ended.
use task_api.Common.{ℕ, Bool, true, false, Option, none, some, if◌then◌else◌}
use task_api.Common.Failure.{
  Foreign, open_state, too_many_requests, Error, sentinel, wrapped, rejected, foreign, Result, ok,
  err, Action,
}

-- Its two rejections.
pub data Rejection : Type 0 where
  opened crowded : Rejection

abbrev pub rejection_error : Rejection → Foreign
rejection_error opened = open_state
rejection_error crowded = too_many_requests

pub record Breaker (S B : Type 0) : Type 0 where
  pub enter : B → Option Rejection × B
  pub leave : Option (Error S) → B → B

abbrev pub failure : {S A : Type 0} → Result S A → Option (Error S)
failure (ok a) = none
failure (err e) = some e

-- `errors.Is` at the library's `ErrOpenState` or `ErrTooManyRequests`.
unfoldable pub is_rejection : {S : Type 0} → Error S → Bool
is_rejection (sentinel s) = false
is_rejection (wrapped e) = is_rejection e
is_rejection (rejected d) = false
is_rejection (foreign open_state) = true
is_rejection (foreign too_many_requests) = true
is_rejection (foreign f) = false

-- `translateBreakerError`
unfoldable pub translate_breaker_error : {S : Type 0} → ℕ → Error S → Error S
unfolding is_rejection
translate_breaker_error retry_after e = if is_rejection e then rejected retry_after else e

unfoldable pub translate_result : {S A : Type 0} → ℕ → Result S A → Result S A
unfolding translate_breaker_error
translate_result retry_after (ok a) = ok a
translate_result retry_after (err e) = err (translate_breaker_error retry_after e)

module _ {S B St : Type 0} (b : Breaker S B) where
  -- `bastion.Execute` and `bastion.Do`: a rejected call is not made.
  unfoldable pub execute : {A : Type 0} → Action S St A → Action S (B × St) A
  execute m (breaker, s) =
      let (verdict, entered) = b.enter breaker in
      elim verdict [
        | some r ↦ (err (foreign (rejection_error r)), (entered, s))
        | none ↦ let (r, t) = m s in (r, (b.leave (failure r) entered, t))
      ]

  -- One method of a breaker repository.
  unfoldable pub guarded : {A : Type 0} → ℕ → Action S St A → Action S (B × St) A
  unfolding execute translate_result
  guarded retry_after m s = let (r, t) = execute m s in (translate_result retry_after r, t)
