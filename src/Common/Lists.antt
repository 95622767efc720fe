-- ===== src/Common/Lists.antt =====
-- Lists measured by native numbers, Boolean filters, and predicates on every element.
use Prim.Native.Nat.{ℕ, zero, suc, ◌+◌, ◌-◌, ◌≤◌, min}
use mathlib.Core.Path.{◌≡◌, refl, ap, sym, subst}
use mathlib.Core.Logic.{◌⊎◌, inl, inr, ◌↔◌}
use mathlib.Core.Bool.{Bool, true, false}
use mathlib.Core.List.{List, [], ◌∷◌, ◌++◌}
use native.Mathlib.Omega.{arith}
use Prim.Native.String.{String}
use task_api.Common.Tests.{if◌then◌else◌, str_eq, str_eq_iff, Bool-cases}

module _ {ℓ} {A : Type ℓ} where
  abbrev pub length : List A → ℕ
  length [] = 0
  length (x ∷ xs) = suc (length xs)

  abbrev pub take : ℕ → List A → List A
  take zero xs = []
  take (suc n) [] = []
  take (suc n) (x ∷ xs) = x ∷ take n xs

  abbrev pub drop : ℕ → List A → List A
  drop zero xs = xs
  drop (suc n) [] = []
  drop (suc n) (x ∷ xs) = drop n xs

  -- The elements that pass a Boolean test, in order.
  abbrev pub select : (A → Bool) → List A → List A
  select p [] = []
  select p (x ∷ xs) = if p x then x ∷ select p xs else select p xs

  abbrev pub any : (A → Bool) → List A → Bool
  any p [] = false
  any p (x ∷ xs) = if p x then true else any p xs

  pub length-append : (xs ys : List A) → length (xs ++ ys) ≡ length xs + length ys
  length-append [] ys = omega arith
  length-append (x ∷ xs) ys = omega (arith, length-append xs ys)

  pub take-append-drop : (n : ℕ) (xs : List A) → take n xs ++ drop n xs ≡ xs
  take-append-drop zero xs = refl
  take-append-drop (suc n) [] = refl
  take-append-drop (suc n) (x ∷ xs) = ap (◌∷◌ x) (take-append-drop n xs)

  pub length-take : (n : ℕ) (xs : List A) → length (take n xs) ≡ min n (length xs)
  length-take zero xs = omega arith
  length-take (suc n) [] = omega arith
  length-take (suc n) (x ∷ xs) = omega (arith, length-take n xs)

  pub length-drop : (n : ℕ) (xs : List A) → length (drop n xs) ≡ length xs - n
  length-drop zero xs = omega arith
  length-drop (suc n) [] = omega arith
  length-drop (suc n) (x ∷ xs) = omega (arith, length-drop n xs)

  pub take_all : (n : ℕ) (xs : List A) → length xs ≤ n → take n xs ≡ xs
  take_all zero [] h = refl
  take_all zero (x ∷ xs) h = absurd (omega arith)
  take_all (suc n) [] h = refl
  take_all (suc n) (x ∷ xs) h = ap (◌∷◌ x) (take_all n xs (omega arith))

  pub drop_all : (n : ℕ) (xs : List A) → length xs ≤ n → drop n xs ≡ []
  drop_all zero [] h = refl
  drop_all zero (x ∷ xs) h = absurd (omega arith)
  drop_all (suc n) [] h = refl
  drop_all (suc n) (x ∷ xs) h = drop_all n xs (omega arith)

module _ {ℓ κ} {A : Type ℓ} (P : A → Type κ) where
  abbrev pub All : List A → Type κ
  All [] = Unit
  All (x ∷ xs) = P x × All xs

-- Membership by recursion, which keeps the position.
abbrev pub In : {A : Type 0} → A → List A → Type 0
In a [] = ⊥
In a (x ∷ xs) = (a ≡ x) ⊎ In a xs

module _ {A : Type 0} (p : A → Bool) where
  pub length-select-append :
      (xs ys : List A) → length (select p (xs ++ ys)) ≡ length (select p xs) + length (select p ys)
  length-select-append [] ys = omega arith
  length-select-append (x ∷ xs) ys = ground (arith, length-select-append xs ys)

  pub length-select : (xs : List A) → length (select p xs) ≤ length xs
  length-select [] = omega arith
  length-select (x ∷ xs) = ground (arith, length-select xs)

  pub select-select_comm :
      (q : A → Bool) (xs : List A) → select p (select q xs) ≡ select q (select p xs)
  select-select_comm q [] = refl
  select-select_comm q (x ∷ xs) = ground (arith, select-select_comm q xs)

module _ {A : Type 0} (p : A → Bool) (a : A) where
  pub In-select→ : (xs : List A) → In a (select p xs) → In a xs × (p a ≡ true)
  In-select→ [] h = absurd h
  In-select→ (x ∷ xs) h = ground (arith, In-select→ xs)

  pub In-select← : (xs : List A) → In a xs → p a ≡ true → In a (select p xs)
  In-select← [] h e = h
  In-select← (x ∷ xs) h e = ground (arith, In-select← xs)

pub any-str_eq : (s : String) (ts : List String) → (any (str_eq s) ts ≡ true) ↔ In s ts
any-str_eq s [] = ground arith
any-str_eq s (t ∷ ts) = ground (arith, str_eq_iff s t, any-str_eq s ts)

pub In-append : {A : Type 0} (a : A) (xs ys : List A) → In a (xs ++ ys) → In a xs ⊎ In a ys
In-append a [] ys h = inr h
In-append a (x ∷ xs) ys h = ground (arith, In-append a xs ys)

pub In-append_left : {A : Type 0} (a : A) (xs ys : List A) → In a xs → In a (xs ++ ys)
In-append_left a [] ys h = absurd h
In-append_left a (x ∷ xs) ys h = ground (arith, In-append_left a xs ys)

pub All-In : {A : Type 0} (P : A → Type 0) (a : A) (xs : List A) → All P xs → In a xs → P a
All-In P a [] h i = absurd i
All-In P a (x ∷ xs) (h, hs) (inl e) = subst P (sym e) h
All-In P a (x ∷ xs) (h, hs) (inr i) = All-In P a xs hs i

pub In-append_right : {A : Type 0} (a : A) (xs ys : List A) → In a ys → In a (xs ++ ys)
In-append_right a [] ys h = h
In-append_right a (x ∷ xs) ys h = inr (In-append_right a xs ys h)

-- No element is listed twice.
abbrev pub Distinct : {T : Type 0} → List T → Type 0
Distinct [] = Unit
Distinct (a ∷ rest) = (¬ In a rest) × Distinct rest

pub Distinct-select :
    {A : Type 0} (p : A → Bool) (xs : List A) → Distinct xs → Distinct (select p xs)
Distinct-select p [] h = tt
Distinct-select p (x ∷ xs) (fresh, h) = elim (Bool-cases (p x)) [
  | inl e ↦ rw e ((λ i. fresh (In-select→ p x xs i).0), Distinct-select p xs h)
  | inr e ↦ rw e (Distinct-select p xs h)
]
