-- ===== src/Common/Sort.antt =====
-- `sort.Slice`: an insertion sort by the comparator. Its result is an ordered rearrangement, and
-- where the order is strict and total on the elements there is no other.
use mathlib.Core.List.{Perm}
use mathlib.Core.List.Perm
use task_api.Common.{
  ◌≡◌, refl, ◌⊎◌, inl, inr, Bool, true, false, List, [], ◌∷◌, arith, if◌then◌else◌, All, Bool-cases,
  In, Distinct, length, suc, select, sym,
}

module _ {A : Type 0} (less : A → A → Bool) where
  pub insert_sorted : A → List A → List A
  insert_sorted a [] = a ∷ []
  insert_sorted a (x ∷ xs) = if less x a then x ∷ insert_sorted a xs else a ∷ x ∷ xs

  unfoldable pub sort_by : List A → List A
  unfolding insert_sorted
  sort_by [] = []
  sort_by (x ∷ xs) = insert_sorted x (sort_by xs)

  -- No later element is less than an earlier one.
  abbrev pub IsOrdered : List A → Type 0
  IsOrdered [] = Unit
  IsOrdered (x ∷ xs) = All (λ y. less y x ≡ false) xs × IsOrdered xs

  insert_sorted-perm : (a : A) (xs : List A) → Perm (insert_sorted a xs) (a ∷ xs)
  unfolding insert_sorted
  insert_sorted-perm a [] = Perm.refl (a ∷ [])
  insert_sorted-perm a (x ∷ xs) = elim (Bool-cases (less x a)) [
    | inl e ↦ rw e (Perm.trans (Perm.cons x (insert_sorted-perm a xs)) (Perm.swap a x xs))
    | inr e ↦ rw e (Perm.refl (a ∷ x ∷ xs))
  ]

  pub sort_by-perm : (xs : List A) → Perm (sort_by xs) xs
  unfolding sort_by
  sort_by-perm [] = Perm.refl []
  sort_by-perm (x ∷ xs) =
      Perm.trans (insert_sorted-perm x (sort_by xs)) (Perm.cons x (sort_by-perm xs))

  length-insert_sorted : (a : A) (xs : List A) → length (insert_sorted a xs) ≡ suc (length xs)
  unfolding insert_sorted
  length-insert_sorted a [] = refl
  length-insert_sorted a (x ∷ xs) = ground (arith, length-insert_sorted a xs)

  pub length-sort_by : (xs : List A) → length (sort_by xs) ≡ length xs
  unfolding sort_by
  length-sort_by [] = refl
  length-sort_by (x ∷ xs) = ground (arith, length-insert_sorted x (sort_by xs), length-sort_by xs)

  length-select-insert_sorted :
      (p : A → Bool) (a : A) (xs : List A)
      → length (select p (insert_sorted a xs)) ≡ length (select p (a ∷ xs))
  unfolding insert_sorted
  length-select-insert_sorted p a [] = refl
  length-select-insert_sorted p a (x ∷ xs) = ground (arith, length-select-insert_sorted p a xs)

  -- A sort keeps how many elements pass a test.
  pub length-select-sort_by :
      (p : A → Bool) (xs : List A) → length (select p (sort_by xs)) ≡ length (select p xs)
  unfolding sort_by
  length-select-sort_by p [] = refl
  length-select-sort_by p (x ∷ xs) =
      ground (arith, length-select-insert_sorted p x (sort_by xs), length-select-sort_by p xs)

  pub In-insert_sorted : (a b : A) (xs : List A) → In b (insert_sorted a xs) → (b ≡ a) ⊎ In b xs
  unfolding insert_sorted
  In-insert_sorted a b [] h = h
  In-insert_sorted a b (x ∷ xs) h = ground (arith, In-insert_sorted a b xs)

  pub insert_sorted-In : (a b : A) (xs : List A) → (b ≡ a) ⊎ In b xs → In b (insert_sorted a xs)
  unfolding insert_sorted
  insert_sorted-In a b [] h = h
  insert_sorted-In a b (x ∷ xs) h = ground (arith, insert_sorted-In a b xs)

  pub In-sort_by→ : (b : A) (xs : List A) → In b (sort_by xs) → In b xs
  unfolding sort_by
  In-sort_by→ b [] h = h
  In-sort_by→ b (x ∷ xs) h = ground (arith, In-insert_sorted x b (sort_by xs), In-sort_by→ b xs)

  pub In-sort_by← : (b : A) (xs : List A) → In b xs → In b (sort_by xs)
  unfolding sort_by
  In-sort_by← b [] h = h
  In-sort_by← b (x ∷ xs) h = ground (arith, insert_sorted-In x b (sort_by xs), In-sort_by← b xs)

module _ {A : Type 0} (less : A → A → Bool) where
  Distinct-insert_sorted :
      (a : A) (xs : List A) → ¬ In a xs → Distinct xs → Distinct (insert_sorted less a xs)
  unfolding insert_sorted
  Distinct-insert_sorted a [] new h = ((λ i. i), tt)
  Distinct-insert_sorted a (x ∷ xs) new (fresh, h) = elim (Bool-cases (less x a)) [
    | inl e ↦ rw e (
      (λ i. elim (In-insert_sorted less a x xs i) [
        | inl same ↦ new (inl (sym same))
        | inr there ↦ fresh there
      ]),
      Distinct-insert_sorted a xs (λ i. new (inr i)) h,
    )
    | inr e ↦ rw e (new, (fresh, h))
  ]

  pub Distinct-sort_by : (xs : List A) → Distinct xs → Distinct (sort_by less xs)
  unfolding sort_by
  Distinct-sort_by [] h = tt
  Distinct-sort_by (x ∷ xs) (fresh, h) =
      Distinct-insert_sorted x (sort_by less xs) (λ i. fresh (In-sort_by→ less x xs i))
        (Distinct-sort_by xs h)

-- What a comparator owes `sort.Slice`, with ties broken: a strict order.
pub record IsStrictOrder {A : Type 0} (less : A → A → Bool) : Type 0 where
  pub irreflexive : (a : A) → less a a ≡ false
  pub transitive : (a b c : A) → less a b ≡ true → less b c ≡ true → less a c ≡ true
  pub negative : (a b c : A) → less b a ≡ false → less c b ≡ false → less c a ≡ false

module _ {A : Type 0} {less : A → A → Bool} (order : IsStrictOrder less) where
  insert_sorted-All :
      (x a : A) (xs : List A)
      → less a x ≡ false
      → All (λ y. less y x ≡ false) xs
      → All (λ y. less y x ≡ false) (insert_sorted less a xs)
  unfolding insert_sorted
  insert_sorted-All x a [] h k = (h, tt)
  insert_sorted-All x a (y ∷ ys) h k = ground (arith, insert_sorted-All x a ys h k.1)

  All-negative :
      (a x : A) (xs : List A)
      → less x a ≡ false
      → All (λ y. less y x ≡ false) xs
      → All (λ y. less y a ≡ false) xs
  All-negative a x [] h k = tt
  All-negative a x (y ∷ ys) h k = (order.negative a x y h k.0, All-negative a x ys h k.1)

  insert_sorted-IsOrdered :
      (a : A) (xs : List A) → IsOrdered less xs → IsOrdered less (insert_sorted less a xs)
  unfolding insert_sorted
  insert_sorted-IsOrdered a [] h = (tt, tt)
  insert_sorted-IsOrdered a (x ∷ xs) h = elim (Bool-cases (less x a)) [
    | inl e ↦ rw e (insert_sorted-All x a xs (asymmetric e) h.0, insert_sorted-IsOrdered a xs h.1)
    | inr e ↦ rw e ((e, All-negative a x xs e h.0), h)
  ]
    where
      asymmetric : less x a ≡ true → less a x ≡ false
      asymmetric e = elim (Bool-cases (less a x)) [
        | inl f ↦ absurd (ground (arith, order.irreflexive x, order.transitive x a x e f))
        | inr f ↦ f
      ]

  -- The result is ordered.
  pub sort_by-IsOrdered : (xs : List A) → IsOrdered less (sort_by less xs)
  unfolding sort_by
  sort_by-IsOrdered [] = tt
  sort_by-IsOrdered (x ∷ xs) = insert_sorted-IsOrdered x (sort_by less xs) (sort_by-IsOrdered xs)
