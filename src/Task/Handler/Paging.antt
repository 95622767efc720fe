-- ===== src/Task/Handler/Paging.antt =====
-- internal/task/handler.go: `parsePagination` on printed numbers, and its errors.
use task_api.Common.{
  ℕ, ◌<◌, ◌^◌, String, ◌≡◌, refl, ap, ◌∙◌, Bool, true, false, List, ◌∷◌, ltb, if◌then◌else◌,
}
use task_api.Common.Decimal.{itoa, itoa-ne_empty, atoi-itoa}
use task_api.Common.Failure.{ok}
use task_api.Common.Int.{ℤ, pos}
use task_api.Task.Handler.{
  Query, first_value, page_of, parse_limit, parse_offset, parse_pagination, refusal,
  max_task_list_limit,
}
use task_api.Common.{
  ◌≢◌, ◌⊎◌, ◌<◌, inl, inr, subst, Option-cases, Bool-cases, str_eq, str_eq_iff, arith, some,
}
use task_api.Common.Decimal.{atoi}
use task_api.Common.Failure.{err}
use task_api.Common.Int.{negsuc}
use task_api.Task.Entity.{TaskError, TaskResult}
use task_api.Task.Handler.Faults.{IsBadNumber, IsBadPage}
use task_api.Task.Handler.Etags.{str_eq-false}

parse_limit-itoa :
    (n : ℕ)
    → n < 2 ^ 63
    → parse_limit (itoa n) ≡ (if ltb max_task_list_limit n then refusal else ok (pos n))
unfolding parse_limit
parse_limit-itoa n small = rw (str_eq-false (itoa n) "" (itoa-ne_empty n), atoi-itoa n small) refl

parse_offset-itoa : (n : ℕ) → n < 2 ^ 63 → parse_offset (itoa n) ≡ ok n
unfolding parse_offset
parse_offset-itoa n small = rw (str_eq-false (itoa n) "" (itoa-ne_empty n), atoi-itoa n small) refl

page_of-if :
    (b : Bool) (limit : ℤ) (offset : ℕ)
    → page_of (if b then refusal else ok limit) (ok offset)
      ≡ (if b then refusal else ok (limit, offset))
unfolding page_of
page_of-if true limit offset = refl
page_of-if false limit offset = refl

-- A limit and an offset below 2^63 that are printed in decimal are read back as they are, if the limit
-- is at most 100, and refused as invalid input otherwise. Further values of the parameters are
-- ignored.
pub parse_pagination-itoa :
    (query : Query) (limit offset : ℕ) (others more : List String)
    → limit < 2 ^ 63
    → offset < 2 ^ 63
    → query "limit" ≡ itoa limit ∷ others
    → query "offset" ≡ itoa offset ∷ more
    → parse_pagination query ≡ (if ltb 100 limit then refusal else ok (pos limit, offset))
unfolding parse_pagination
parse_pagination-itoa query limit offset others more small small' at_limit at_offset =
    ap (λ vs. page_of (parse_limit (first_value vs)) (parse_offset (first_value (query "offset"))))
      at_limit
    ∙ ap (λ vs. page_of (parse_limit (itoa limit)) (parse_offset (first_value vs))) at_offset
    ∙ ap (λ r. page_of r (parse_offset (itoa offset))) (parse_limit-itoa limit small)
    ∙ ap (page_of _) (parse_offset-itoa offset small')
    ∙ page_of-if (ltb 100 limit) (pos limit) offset

-- The page of a query is refused only where there is the fault.
abbrev Refuses : {A : Type 0} → Type 0 → TaskResult A → Type 0
Refuses F (ok a) = Unit
Refuses F (err e) = F

parse_limit-Refuses :
    (raw : String)
    → Refuses
        (IsBadNumber raw ⊎ ((n : ℕ) × (atoi raw ≡ some (pos n)) × (100 < n)))
        (parse_limit raw)
unfolding parse_limit
parse_limit-Refuses raw = elim (Bool-cases (str_eq raw "")) [
  | inl e ↦ rw e tt
  | inr e ↦
      let full : raw ≢ "" = λ same. cc ((str_eq_iff raw "").1 same, e) in
      rw e (elim (Option-cases (atoi raw)) [
        | inl k ↦ rw k (inl (full, inl refl))
        | inr (pos n, k) ↦ rw k (elim (Bool-cases (ltb 100 n)) [
          | inl j ↦ rw j (inr (n, refl, ground arith))
          | inr j ↦ rw j tt
        ])
        | inr (negsuc n, k) ↦ rw k (inl (full, inr (n, refl)))
      ])
]

parse_offset-Refuses : (raw : String) → Refuses (IsBadNumber raw) (parse_offset raw)
unfolding parse_offset
parse_offset-Refuses raw = elim (Bool-cases (str_eq raw "")) [
  | inl e ↦ rw e tt
  | inr e ↦
      let full : raw ≢ "" = λ same. cc ((str_eq_iff raw "").1 same, e) in
      rw e (elim (Option-cases (atoi raw)) [
        | inl k ↦ rw k (full, inl refl)
        | inr (pos n, k) ↦ rw k tt
        | inr (negsuc n, k) ↦ rw k (full, inr (n, refl))
      ])
]

page_of-Refuses :
    (F G : Type 0) (limit : TaskResult ℤ) (offset : TaskResult ℕ)
    → Refuses F limit
    → Refuses G offset
    → Refuses (F ⊎ G) (page_of limit offset)
unfolding page_of
page_of-Refuses F G (err e) offset h k = inl h
page_of-Refuses F G (ok n) (err e) h k = inr k
page_of-Refuses F G (ok n) (ok m) h k = tt

pub parse_pagination-Refuses :
    (query : Query) (e : TaskError) → parse_pagination query ≡ err e → IsBadPage query
unfolding parse_pagination
parse_pagination-Refuses query e h =
    let limit = first_value (query "limit") in
    let offset = first_value (query "offset") in
    let fault = subst (Refuses _) h (
      page_of-Refuses _ _ (parse_limit limit) (parse_offset offset) (parse_limit-Refuses limit)
        (parse_offset-Refuses offset)) in
    elim fault [
      | inl (inl bad) ↦ inl bad
      | inl (inr large) ↦ inr (inl large)
      | inr bad ↦ inr (inr bad)
    ]
