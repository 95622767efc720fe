-- ===== src/Web/Json.antt =====
-- What the handlers of the domain packages share: an answer to a call of a service.
use task_api.Common.{ℕ, ◌/◌, Option, none, some, [], ◌∷◌, List}
use task_api.Common.Decimal.{itoa}
use task_api.Common.Failure.{Error, Result, ok, err}
use task_api.Web.{Op, set_header, write_header, write, returned, Reply}

-- `int(d.Seconds())` of nanoseconds
abbrev pub seconds : ℕ → ℕ
seconds d = d / 1_000_000_000

module _ {P : Type 0} where
  abbrev pub reply : List (Op P) → Reply P
  reply ops = record { ops = ops; ending = returned }

  -- The calls of `writeJSON`, whose encoder does not fail.
  abbrev pub json : ℕ → P → List (Op P)
  json status body =
      set_header "Content-Type" "application/json" ∷ write_header status ∷ write body ∷ []

  -- The header of a rejection that says when to come back.
  abbrev pub retry_header : Option ℕ → List (Op P)
  retry_header none = []
  retry_header (some d) = set_header "Retry-After" (itoa (seconds d)) ∷ []

-- The answer to a call of the service: `done` for its result, `failed` for its error.
abbrev pub answered :
    {S P A St : Type 0}
    → (A → List (Op P))
    → (Error S → List (Op P))
    → Result S A × St
    → Reply P × St
answered done failed (r, s) = (reply (elim r [ ok a ↦ done a | err e ↦ failed e ]), s)
