-- ===== src/Common/Failure.antt =====
-- Go's error values, as far as `errors.Is` and `errors.As` look into them, and results.
use task_api.Common.{ℕ, ◌≡◌, refl, ◌⊎◌, inl, inr, Bool, false, Option, none, some, if◌then◌else◌}

-- Errors that come from outside a domain package: a context that has ended, the driver, the two
-- rejections of the circuit breaker library, the random source, the password hash.
pub data Foreign : Type 0 where
  context_ended : Foreign
  open_state too_many_requests : Foreign
  entropy hashing : Foreign
  driver : ℕ → Foreign

-- `S` is a package's set of sentinel errors. `wrapped e` is `fmt.Errorf` with `%w` for `e`,
-- `rejected` is `unavailableError` with its retry delay. The texts of errors are left out.
pub data Error (S : Type 0) : Type 0 where
  sentinel : S → Error S
  wrapped : Error S → Error S
  rejected : ℕ → Error S
  foreign : Foreign → Error S

pub data Result (S A : Type 0) : Type 0 where
  ok : A → Result S A
  err : Error S → Result S A

-- A package's sentinels: their identity, and its `ErrUnavailable`.
pub record Sentinels (S : Type 0) : Type 0 where
  pub same : S → S → Bool
  pub unavailable : S

-- `errors.Is(e, target)` at a sentinel of the package.
unfoldable pub is : {S : Type 0} ⦃p : Sentinels S⦄ → Error S → S → Bool
is ⦃p⦄ (sentinel s) target = p.same s target
is ⦃p⦄ (wrapped e) target = is e target
is ⦃p⦄ (rejected d) target = p.same p.unavailable target
is (foreign f) target = false

-- `errors.As(e, &withRetryAfter)`: the delay that a rejection carries.
unfoldable pub retry_after : {S : Type 0} → Error S → Option ℕ
retry_after (sentinel s) = none
retry_after (wrapped e) = retry_after e
retry_after (rejected d) = some d
retry_after (foreign f) = none

-- A call that may fail, on a state. What was written stays written after an error.
abbrev pub Action : Type 0 → Type 0 → Type 0 → Type 0
Action S St A = St → Result S A × St

module _ {S St A : Type 0} where
  abbrev pub pure : A → Action S St A
  pure a s = (ok a, s)

  abbrev pub fail : Error S → Action S St A
  fail e s = (err e, s)

  -- `if err != nil { return fmt.Errorf("…: %w", err) }`
  abbrev pub wrap : Action S St A → Action S St A
  wrap m s = let (r, t) = m s in (elim r [ ok a ↦ ok a | err e ↦ err (wrapped e) ], t)

  abbrev pub lift : Result S A → Action S St A
  lift r s = (r, s)

-- `if c { return err }`
abbrev pub fail_if : {S St : Type 0} → Bool → Error S → Action S St (Unit {0})
fail_if c e s = (if c then err e else ok tt, s)

infixl 5 ◌>>=◌ ◌>>◌
abbrev pub ◌>>=◌ : {S St A B : Type 0} → Action S St A → (A → Action S St B) → Action S St B
◌>>=◌ m f s = let (r, t) = m s in elim r [ ok a ↦ f a t | err e ↦ (err e, t) ]

abbrev pub ◌>>◌ : {S St A B : Type 0} → Action S St A → Action S St B → Action S St B
m >> k = m >>= λ _. k

-- A context: `none` while it is live, and the error of `ctx.Err()` afterwards.
abbrev pub Context : Type 0
Context = Option Foreign

-- `if err := ctx.Err(); err != nil { return err }` before `m`.
abbrev pub while_live : {S St A : Type 0} → Context → Action S St A → Action S St A
while_live none m s = m s
while_live (some e) m s = (err (foreign e), s)

pub Result-cases :
    {S A : Type 0} (r : Result S A) → ((a : A) × (r ≡ ok a)) ⊎ ((e : Error S) × (r ≡ err e))
Result-cases (ok a) = inl (a, refl)
Result-cases (err e) = inr (e, refl)
