-- ===== src/Common/Dict.antt =====
-- A Go map with string keys: an association list whose order stands for the iteration order.
use task_api.Common.{
  String, ◌≡◌, refl, ◌≢◌, Bool, true, Option, none, some, List, [], ◌∷◌, arith, if◌then◌else◌,
  str_eq, str_eq_iff, str_eq_refl, In, Option-cases, inl, inr,
}

abbrev pub Dict : Type 0 → Type 0
Dict V = List (String × V)

module _ {V : Type 0} where
  -- `m[k]` with its second result.
  unfoldable pub lookup : String → Dict V → Option V
  lookup k [] = none
  lookup k ((j, v) ∷ d) = if str_eq k j then some v else lookup k d

  -- `m[k] = v`
  unfoldable pub insert : String → V → Dict V → Dict V
  insert k v [] = (k, v) ∷ []
  insert k v ((j, w) ∷ d) = if str_eq k j then (k, v) ∷ d else (j, w) ∷ insert k v d

  -- `for k, v := range m { if p(k, v) { delete(m, k) } }`
  unfoldable pub delete_where : (String → V → Bool) → Dict V → Dict V
  delete_where p [] = []
  delete_where p ((j, w) ∷ d) = if p j w then delete_where p d else (j, w) ∷ delete_where p d

  -- `delete(m, k)`
  unfoldable pub delete : String → Dict V → Dict V
  delete k = delete_where (λ j _. str_eq k j)

  abbrev pub values : Dict V → List V
  values [] = []
  values ((j, v) ∷ d) = v ∷ values d

  -- No key is listed twice, which a Go map guarantees.
  abbrev pub HasUniqueKeys : Dict V → Type 0
  HasUniqueKeys [] = Unit
  HasUniqueKeys ((k, v) ∷ d) = (lookup k d ≡ none) × HasUniqueKeys d

  pub lookup-nil : (k : String) → lookup k [] ≡ none
  unfolding lookup
  lookup-nil k = refl

  pub lookup-insert :
      (j k : String) (v : V) (d : Dict V)
      → lookup j (insert k v d) ≡ (if str_eq j k then some v else lookup j d)
  unfolding lookup insert
  lookup-insert j k v [] = refl
  lookup-insert j k v ((i, w) ∷ d) =
      ground (arith, str_eq_iff k i, str_eq_iff j i, str_eq_iff j k, lookup-insert j k v d)

  pub lookup-insert_self : (k : String) (v : V) (d : Dict V) → lookup k (insert k v d) ≡ some v
  lookup-insert_self k v d = ground (arith, lookup-insert k k v d, str_eq_refl k)

  pub lookup-insert_ne :
      (j k : String) (v : V) (d : Dict V) → j ≢ k → lookup j (insert k v d) ≡ lookup j d
  lookup-insert_ne j k v d h = ground (arith, lookup-insert j k v d, str_eq_iff j k)

  pub lookup-delete :
      (j k : String) (d : Dict V)
      → lookup j (delete k d) ≡ (if str_eq k j then none else lookup j d)
  unfolding lookup delete delete_where
  lookup-delete j k [] = ground arith
  lookup-delete j k ((i, w) ∷ d) =
      ground (arith, str_eq_iff k i, str_eq_iff j i, str_eq_iff k j, lookup-delete j k d)

  pub lookup-delete_self : (k : String) (d : Dict V) → lookup k (delete k d) ≡ none
  lookup-delete_self k d = ground (arith, lookup-delete k k d, str_eq_refl k)

  lookup-delete_where_absent :
      (j : String) (p : String → V → Bool) (d : Dict V)
      → lookup j d ≡ none
      → lookup j (delete_where p d) ≡ none
  unfolding lookup delete_where
  lookup-delete_where_absent j p [] h = refl
  lookup-delete_where_absent j p ((i, w) ∷ d) h = ground (arith, lookup-delete_where_absent j p d)

  -- What a filtered deletion leaves under a key: the old value, unless the test removes it.
  pub lookup-delete_where :
      (j : String) (p : String → V → Bool) (d : Dict V)
      → HasUniqueKeys d
      → lookup j (delete_where p d)
        ≡ elim (lookup j d) [ none ↦ none | some v ↦ if p j v then none else some v ]
  unfolding lookup delete_where
  lookup-delete_where j p [] u = refl
  lookup-delete_where j p ((i, w) ∷ d) u =
      ground
        (arith, str_eq_iff j i, lookup-delete_where j p d u.1, lookup-delete_where_absent i p d u.0)

  pub delete_where-HasUniqueKeys :
      (p : String → V → Bool) (d : Dict V) → HasUniqueKeys d → HasUniqueKeys (delete_where p d)
  unfolding lookup delete_where
  delete_where-HasUniqueKeys p [] u = u
  delete_where-HasUniqueKeys p ((i, w) ∷ d) u =
      ground (arith, delete_where-HasUniqueKeys p d u.1, lookup-delete_where_absent i p d u.0)

  pub delete-HasUniqueKeys :
      (k : String) (d : Dict V) → HasUniqueKeys d → HasUniqueKeys (delete k d)
  unfolding delete
  delete-HasUniqueKeys k d u = delete_where-HasUniqueKeys (λ j _. str_eq k j) d u

  pub insert-HasUniqueKeys :
      (k : String) (v : V) (d : Dict V) → HasUniqueKeys d → HasUniqueKeys (insert k v d)
  unfolding lookup insert
  insert-HasUniqueKeys k v [] u = (refl, tt)
  insert-HasUniqueKeys k v ((i, w) ∷ d) u =
      ground (
        arith,
        str_eq_iff k i,
        str_eq_iff i k,
        lookup-insert i k v d,
        insert-HasUniqueKeys k v d u.1,
      )

  pub In-values_of_lookup :
      (k : String) (v : V) (d : Dict V) → lookup k d ≡ some v → In v (values d)
  unfolding lookup
  In-values_of_lookup k v [] h = cc
  In-values_of_lookup k v ((j, w) ∷ d) h = ground (arith, In-values_of_lookup k v d)

  -- Of the entries of `d`, some are left, none changed.
  pub record Shrinks (d d' : Dict V) : Type 0 where
    pub keys : HasUniqueKeys d → HasUniqueKeys d'
    pub entry : (k : String) (v : V) → HasUniqueKeys d → lookup k d' ≡ some v → lookup k d ≡ some v

  pub Shrinks-refl : (d : Dict V) → Shrinks d d
  Shrinks-refl d = record { keys = λ u. u; entry = λ k v u h. h }

  pub Shrinks-trans : {d d' d'' : Dict V} → Shrinks d d' → Shrinks d' d'' → Shrinks d d''
  Shrinks-trans s t = record {
    keys = λ u. t.keys (s.keys u);
    entry = λ k v u h. s.entry k v u (t.entry k v (s.keys u) h);
  }

  pub delete_where-Shrinks : (p : String → V → Bool) (d : Dict V) → Shrinks d (delete_where p d)
  delete_where-Shrinks p d = record {
    keys = delete_where-HasUniqueKeys p d;
    entry = λ k v u h. ground (arith, lookup-delete_where k p d u);
  }

  pub delete-Shrinks : (k : String) (d : Dict V) → Shrinks d (delete k d)
  unfolding delete
  delete-Shrinks k d = delete_where-Shrinks (λ j _. str_eq k j) d

  pub absent-of-Shrinks :
      {d d' : Dict V} (k : String)
      → Shrinks d d'
      → HasUniqueKeys d
      → lookup k d ≡ none
      → lookup k d' ≡ none
  absent-of-Shrinks {d} {d'} k s u h = elim (Option-cases (lookup k d')) [
    | inl e ↦ e
    | inr (v, e) ↦ ground (arith, s.entry k v u e)
  ]

  -- A filtered deletion removes a key if its entry passes the test.
  pub absent-delete_where :
      (k : String) (p : String → V → Bool) (d : Dict V)
      → HasUniqueKeys d
      → ((v : V) → lookup k d ≡ some v → p k v ≡ true)
      → lookup k (delete_where p d) ≡ none
  absent-delete_where k p d u h = elim (Option-cases (lookup k d)) [
    | inl e ↦ ground (arith, lookup-delete_where k p d u)
    | inr (v, e) ↦ ground (arith, lookup-delete_where k p d u, h v e)
  ]
