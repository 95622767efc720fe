-- ===== src/Task/Memory/Listings.antt =====
-- internal/task/memory_repository.go: the rows that the loops over the store select, as a listing.
use task_api.Common.{
  ℕ, ◌+◌, String, ◌≡◌, ◌↔◌, ◌⊎◌, refl, sym, ap, ◌∙◌, inl, inr, Bool, true, false, some, List, [],
  ◌∷◌, arith, str_eq_iff, In, In-select→, In-select←, All, any, Distinct, Distinct-select, select,
  length,
}
use task_api.Common.Dict.{lookup, values, HasUniqueKeys, In-values_of_lookup}
use task_api.Common.Sort.{
  sort_by, IsOrdered, IsStrictOrder, In-sort_by→, In-sort_by←, sort_by-IsOrdered, length-sort_by,
  Distinct-sort_by,
}
use task_api.Common.Text.{str_ltb-IsStrictOrder}
use task_api.Task.Entity.{
  Status, Priority, status_eq, status_eq_iff, priority_eq, priority_eq_iff, Task,
}
use task_api.Task.Memory.{Store, matches_any, selected, older, count_from}
use task_api.Task.Contract.{Rows, IsSelected, IsNotAfter, IsByAge}

-- Every row stands under its own id.
abbrev pub IsKeyed : Store → Type 0
IsKeyed [] = Unit
IsKeyed ((k, t) ∷ d) = (t.id ≡ k) × IsKeyed d

abbrev pub IsGood : Store → Type 0
IsGood s = HasUniqueKeys s × IsKeyed s

unfoldable pub view : Store → Rows
view s k = lookup k s

pub view_lem : (s : Store) (k : String) → view s k ≡ lookup k s
unfolding view
view_lem s k = refl

abbrev pub listing : Store → String → List Status → List Priority → List Task
listing s u st p = sort_by older (select (selected u st p) (values s))

older-IsStrictOrder : IsStrictOrder older
unfolding older
older-IsStrictOrder = record {
  irreflexive = λ a. ground (arith, str_ltb-IsStrictOrder.irreflexive a.id);
  transitive = λ a b c h k. ground (arith, str_ltb-IsStrictOrder.transitive a.id b.id c.id);
  negative = λ a b c h k. ground (arith, str_ltb-IsStrictOrder.negative a.id b.id c.id);
}

lookup_of_In-values : (t : Task) (s : Store) → IsGood s → In t (values s) → lookup t.id s ≡ some t
unfolding lookup
lookup_of_In-values t [] g h = absurd h
lookup_of_In-values t ((k, w) ∷ s) g h =
    ground (arith, str_eq_iff t.id k, lookup_of_In-values t s (g.0.1, g.1.1))

any-In :
    {T : Type 0} (eq : T → T → Bool)
    → ((a b : T) → (eq a b ≡ true) ↔ (a ≡ b))
    → (a : T) (bs : List T) → (any (eq a) bs ≡ true) ↔ In a bs
any-In eq iff a [] = ground arith
any-In eq iff a (b ∷ bs) = ground (arith, iff a b, any-In eq iff a bs)

matches_any-In :
    {T : Type 0} (eq : T → T → Bool)
    → ((a b : T) → (eq a b ≡ true) ↔ (a ≡ b))
    → (a : T) (bs : List T) → (matches_any eq a bs ≡ true) ↔ ((bs ≡ []) ⊎ In a bs)
unfolding matches_any
matches_any-In eq iff a [] = ((λ h. inl refl), (λ h. refl))
matches_any-In eq iff a (b ∷ bs) = (
  λ h. inr ((any-In eq iff a (b ∷ bs)).0 h),
  λ h. elim h [ inl e ↦ absurd (cc e) | inr i ↦ (any-In eq iff a (b ∷ bs)).1 i ],
)

-- The tests of the loops are the filters.
selected-IsSelected :
    (u : String) (st : List Status) (p : List Priority) (t : Task)
    → (selected u st p t ≡ true) ↔ IsSelected u st p t
unfolding selected
selected-IsSelected u st p t = ground (
  arith,
  str_eq_iff t.user_id u,
  matches_any-In status_eq status_eq_iff t.status st,
  matches_any-In priority_eq priority_eq_iff t.priority p,
)

pub In-listing-to :
    (s : Store) (u : String) (st : List Status) (p : List Priority) (t : Task)
    → IsGood s
    → In t (listing s u st p)
    → (view s t.id ≡ some t) × IsSelected u st p t
In-listing-to s u st p t g h =
    let (there, passes) =
      In-select→ (selected u st p) t (values s)
        (In-sort_by→ older t (select (selected u st p) (values s)) h) in
    (view_lem s t.id ∙ lookup_of_In-values t s g there, (selected-IsSelected u st p t).0 passes)

pub In-listing-from :
    (s : Store) (u : String) (st : List Status) (p : List Priority) (t : Task)
    → view s t.id ≡ some t
    → IsSelected u st p t
    → In t (listing s u st p)
In-listing-from s u st p t h e = In-sort_by← older t (select (selected u st p) (values s)) (
    In-select← (selected u st p) t (values s)
      (In-values_of_lookup t.id t s (sym (view_lem s t.id) ∙ h))
      ((selected-IsSelected u st p t).1 e))

older-IsNotAfter : (a b : Task) → older b a ≡ false → IsNotAfter a b
unfolding older
older-IsNotAfter a b h = ground arith

All-IsNotAfter :
    (a : Task) (ts : List Task) → All (λ b. older b a ≡ false) ts → All (IsNotAfter a) ts
All-IsNotAfter a [] h = tt
All-IsNotAfter a (b ∷ ts) (h, hs) = (older-IsNotAfter a b h, All-IsNotAfter a ts hs)

IsOrdered-IsByAge : (ts : List Task) → IsOrdered older ts → IsByAge ts
IsOrdered-IsByAge [] h = tt
IsOrdered-IsByAge (t ∷ ts) (h, hs) = (All-IsNotAfter t ts h, IsOrdered-IsByAge ts hs)

pub listing-IsByAge :
    (s : Store) (u : String) (st : List Status) (p : List Priority) → IsByAge (listing s u st p)
listing-IsByAge s u st p =
    IsOrdered-IsByAge (listing s u st p)
      (sort_by-IsOrdered older-IsStrictOrder (select (selected u st p) (values s)))

Distinct-values : (s : Store) → IsGood s → Distinct (values s)
Distinct-values [] g = tt
Distinct-values ((k, t) ∷ s) ((fresh, unique), (same, keyed)) = (
  λ i. cc (fresh, ap (λ j. lookup j s) same, lookup_of_In-values t s (unique, keyed) i),
  Distinct-values s (unique, keyed),
)

pub Distinct-listing :
    (s : Store) (u : String) (st : List Status) (p : List Priority)
    → IsGood s
    → Distinct (listing s u st p)
Distinct-listing s u st p g =
    Distinct-sort_by older (select (selected u st p) (values s))
      (Distinct-select (selected u st p) (values s) (Distinct-values s g))

count_from-eq-length :
    (u : String) (st : List Status) (p : List Priority) (n : ℕ) (ts : List Task)
    → count_from u st p n ts ≡ n + length (select (selected u st p) ts)
unfolding count_from
count_from-eq-length u st p n [] = omega arith
count_from-eq-length u st p n (t ∷ ts) =
    ground (arith, count_from-eq-length u st p (n + 1) ts, count_from-eq-length u st p n ts)

pub count-listing :
    (u : String) (st : List Status) (p : List Priority) (s : Store)
    → count_from u st p 0 (values s) ≡ length (listing s u st p)
count-listing u st p s = omega (
  arith,
  count_from-eq-length u st p 0 (values s),
  length-sort_by older (select (selected u st p) (values s)),
)
