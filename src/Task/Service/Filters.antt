-- ===== src/Task/Service/Filters.antt =====
-- internal/task/service.go: validateStatusFilters and validatePriorityFilters, by what they return
-- and not by their loop.
use task_api.Common.{
  ◌≤◌, String, ◌≡◌, refl, ◌≢◌, ◌⊎◌, ◌↔◌, inl, inr, Bool, true, false, Option, some, arith, List, [],
  ◌∷◌, ◌++◌, length, In, Distinct, str_eq, str_eq_iff, Bool-cases, Option-cases, sym, if◌then◌else◌,
}
use task_api.Common.Failure.{ok}
use task_api.Task.Service.{collect, validate_filters, max_filter_values}

module _ {T : Type 0} (parse : String → Option T) (eq : T → T → Bool) where
  -- The value is named by some raw string that is not empty.
  abbrev pub Named : T → List String → Type 0
  Named a [] = ⊥
  Named a (raw ∷ raws) = ((raw ≢ "") × (parse raw ≡ some a)) ⊎ Named a raws

  -- Every raw string is empty or names a value.
  abbrev pub AllNamed : List String → Type 0
  AllNamed [] = Unit
  AllNamed (raw ∷ raws) = ((raw ≡ "") ⊎ ((a : T) × (parse raw ≡ some a))) × AllNamed raws

  collect-AllNamed :
      (seen : T → Bool) (out : List T) (raws : List String) (res : List T)
      → collect parse eq seen out raws ≡ ok res
      → AllNamed raws
  unfolding collect
  collect-AllNamed seen out [] res h = tt
  collect-AllNamed seen out (raw ∷ raws) res h = elim (Bool-cases (str_eq raw "")) [
    | inl e ↦ (inl ((str_eq_iff raw "").0 e), collect-AllNamed seen out raws res (ground arith))
    | inr f ↦ elim (Option-cases (parse raw)) [
      | inl unknown ↦ absurd (ground arith)
      | inr (a, named) ↦ (
        inr (a, named),
        elim (Bool-cases (seen a)) [
          | inl old ↦ collect-AllNamed seen out raws res (ground arith)
          | inr new ↦
              collect-AllNamed (λ t. if eq a t then true else seen t) (out ++ a ∷ []) raws res
                (ground arith)
        ],
      )
    ]
  ]

  collect_total :
      (seen : T → Bool) (out : List T) (raws : List String)
      → AllNamed raws
      → (res : List T) × (collect parse eq seen out raws ≡ ok res)
  unfolding collect
  collect_total seen out [] h = (out, refl)
  collect_total seen out (raw ∷ raws) (h, hs) =
      let (skip, skipped) = collect_total seen out raws hs in
      elim (Bool-cases (str_eq raw "")) [
        | inl e ↦ (skip, ground arith)
        | inr f ↦ elim h [
          | inl empty ↦ absurd (ground (arith, str_eq_iff raw ""))
          | inr (a, named) ↦
              let (keep, kept) =
                collect_total (λ t. if eq a t then true else seen t) (out ++ a ∷ []) raws hs in
              elim (Bool-cases (seen a)) [
                | inl old ↦ (skip, ground arith)
                | inr new ↦ (keep, ground arith)
              ]
        ]
      ]

module _ {T : Type 0} where
  In-concat→ : (a b : T) (xs : List T) → In a (xs ++ b ∷ []) → In a xs ⊎ (a ≡ b)
  In-concat→ a b [] h = elim h [ inl e ↦ inr e | inr bad ↦ absurd bad ]
  In-concat→ a b (x ∷ xs) (inl e) = inl (inl e)
  In-concat→ a b (x ∷ xs) (inr h) = elim (In-concat→ a b xs h) [
    | inl there ↦ inl (inr there)
    | inr e ↦ inr e
  ]

  In-concat← : (a b : T) (xs : List T) → In a xs ⊎ (a ≡ b) → In a (xs ++ b ∷ [])
  In-concat← a b [] (inl h) = absurd h
  In-concat← a b [] (inr e) = inl e
  In-concat← a b (x ∷ xs) (inl (inl e)) = inl e
  In-concat← a b (x ∷ xs) (inl (inr h)) = inr (In-concat← a b xs (inl h))
  In-concat← a b (x ∷ xs) (inr e) = inr (In-concat← a b xs (inr e))

  Distinct-concat : (b : T) (xs : List T) → Distinct xs → ¬ In b xs → Distinct (xs ++ b ∷ [])
  Distinct-concat b [] d h = ((λ bad. bad), tt)
  Distinct-concat b (x ∷ xs) (fresh, d) h = (
    λ there. elim (In-concat→ x b xs there) [ inl again ↦ fresh again | inr e ↦ h (inl (sym e)) ],
    Distinct-concat b xs d (λ there. h (inr there)),
  )

module _ {T : Type 0} (parse : String → Option T) (eq : T → T → Bool)
    (eq_iff : (a b : T) → (eq a b ≡ true) ↔ (a ≡ b)) where
  -- The map `seen` holds what stands in `out`.
  abbrev Sees : (T → Bool) → List T → Type 0
  Sees seen out = (a : T) → (seen a ≡ true) ↔ In a out

  Sees-concat :
      (seen : T → Bool) (out : List T) (b : T)
      → Sees seen out
      → Sees (λ t. if eq b t then true else seen t) (out ++ b ∷ [])
  Sees-concat seen out b sees a = (
    λ h. elim (Bool-cases (eq b a)) [
      | inl e ↦ In-concat← a b out (inr (sym ((eq_iff b a).0 e)))
      | inr f ↦ In-concat← a b out (inl ((sees a).0 (ground arith)))
    ],
    λ h. elim (In-concat→ a b out h) [
      | inl there ↦ ground (arith, (sees a).1 there)
      | inr e ↦ ground (arith, (eq_iff b a).1 (sym e))
    ],
  )

  -- The result holds the values so far and those named by the rest, each once.
  abbrev Collected : List T → List String → List T → Type 0
  Collected out raws res = Distinct res × ((a : T) → In a res ↔ (In a out ⊎ Named parse eq a raws))

  Collected-skip :
      (raw : String) (raws : List String) (res out : List T)
      → ((a : T) → raw ≢ "" → parse raw ≡ some a → In a out)
      → Collected out raws res
      → Collected out (raw ∷ raws) res
  Collected-skip raw raws res out known (d, m) = (
    d,
    λ a. (
      λ there. elim ((m a).0 there) [ inl i ↦ inl i | inr n ↦ inr (inr n) ],
      λ there. elim there [
        | inl i ↦ (m a).1 (inl i)
        | inr (inl (full, named)) ↦ (m a).1 (inl (known a full named))
        | inr (inr n) ↦ (m a).1 (inr n)
      ],
    ),
  )

  Collected-keep :
      (raw : String) (raws : List String) (res out : List T) (b : T)
      → raw ≢ ""
      → parse raw ≡ some b
      → Collected (out ++ b ∷ []) raws res
      → Collected out (raw ∷ raws) res
  Collected-keep raw raws res out b full named (d, m) = (
    d,
    λ a. (
      λ there. elim ((m a).0 there) [
        | inl i ↦ elim (In-concat→ a b out i) [
          | inl before ↦ inl before
          | inr e ↦ inr (inl (full, rw e named))
        ]
        | inr n ↦ inr (inr n)
      ],
      λ there. elim there [
        | inl i ↦ (m a).1 (inl (In-concat← a b out (inl i)))
        | inr (inl (_, also)) ↦ (m a).1 (inl (In-concat← a b out (inr (ground arith))))
        | inr (inr n) ↦ (m a).1 (inr n)
      ],
    ),
  )

  collect-Collected :
      (seen : T → Bool) (out : List T) (raws : List String) (res : List T)
      → Sees seen out
      → Distinct out
      → collect parse eq seen out raws ≡ ok res
      → Collected out raws res
  unfolding collect
  collect-Collected seen out [] res sees d h =
      let e : out ≡ res = ground arith in
      rw (← e)
        (d, λ a. (λ there. inl there, λ there. elim there [ inl i ↦ i | inr bad ↦ absurd bad ]))
  collect-Collected seen out (raw ∷ raws) res sees d h = elim (Bool-cases (str_eq raw "")) [
    | inl e ↦
        Collected-skip raw raws res out (λ a full named. absurd (full ((str_eq_iff raw "").0 e)))
          (collect-Collected seen out raws res sees d (ground arith))
    | inr f ↦ elim (Option-cases (parse raw)) [
      | inl unknown ↦ absurd (ground arith)
      | inr (b, named) ↦ elim (Bool-cases (seen b)) [
        | inl old ↦
            Collected-skip raw raws res out
              (λ a full also. let e : a ≡ b = ground arith in rw e ((sees b).0 old))
              (collect-Collected seen out raws res sees d (ground arith))
        | inr new ↦
            Collected-keep raw raws res out b (λ empty. ground (arith, str_eq_iff raw "")) named
              (collect-Collected (λ t. if eq b t then true else seen t) (out ++ b ∷ []) raws res
                (Sees-concat seen out b sees)
                (Distinct-concat b out d (λ there. ground (arith, (sees b).1 there)))
                (ground arith))
      ]
    ]
  ]

  -- A filter that is accepted has at most fifty raw values, each empty or the name of a value, and
  -- the result lists each value that some non-empty raw string names, and no other, once.
  pub validate_filters_lem :
      (raws : List String) (res : List T)
      → validate_filters parse eq raws ≡ ok res
      → (length raws ≤ max_filter_values)
        × AllNamed parse eq raws
        × Distinct res
        × ((a : T) → In a res ↔ Named parse eq a raws)
  unfolding validate_filters
  validate_filters_lem raws res h =
      let (d, m) =
        collect-Collected (λ _. false) [] raws res
          (λ a. (λ bad. absurd (ground arith), λ bad. absurd bad)) tt (ground arith) in
      (
        ground arith,
        collect-AllNamed parse eq (λ _. false) [] raws res (ground arith),
        d,
        λ a. (
          λ there. elim ((m a).0 there) [ inl bad ↦ absurd bad | inr n ↦ n ],
          λ n. (m a).1 (inr n),
        ),
      )

  -- A filter of at most fifty raw values, each empty or the name of a value, is accepted.
  pub validate_filters_total :
      (raws : List String)
      → length raws ≤ max_filter_values
      → AllNamed parse eq raws
      → (res : List T) × (validate_filters parse eq raws ≡ ok res)
  unfolding validate_filters
  validate_filters_total raws short named =
      let (res, e) = collect_total parse eq (λ _. false) [] raws named in (res, ground arith)
