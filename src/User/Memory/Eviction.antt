-- ===== src/User/Memory/Eviction.antt =====
-- internal/user/memory_repository.go: which sessions CreateSession evicts.
use task_api.Common.{
  String, ◌≡◌, refl, Bool, true, false, none, some, List, [], ◌∷◌, ◌++◌, arith, inl, inr,
  Bool-cases, if◌then◌else◌, str_eq, str_eq_iff, any, In, In-append_right, All-In,
}
use task_api.Common.Dict.{Dict, lookup, delete, values, HasUniqueKeys, lookup-delete}
use task_api.Common.Sort.{IsOrdered, IsStrictOrder}
use task_api.User.Entity.{Session}
use task_api.User.Memory.{earlier, evict}
use task_api.User.Memory.Sessions.{IsKeyed}

pub earlier-IsStrictOrder : IsStrictOrder earlier
earlier-IsStrictOrder = record {
  irreflexive = λ a. ground arith;
  transitive = λ a b c h k. ground arith;
  negative = λ a b c h k. ground arith;
}

pub lookup-evict :
    (k : String) (vs : List Session) (d : Dict Session)
    → lookup k (evict vs d) ≡ (if any (λ v. str_eq v.token_hash k) vs then none else lookup k d)
unfolding evict
lookup-evict k [] d = refl
lookup-evict k (v ∷ vs) d =
    ground (arith, lookup-evict k vs (delete v.token_hash d), lookup-delete k v.token_hash d)

pub In-of-any :
    (k : String) (vs : List Session)
    → any (λ v. str_eq v.token_hash k) vs ≡ true
    → (v : Session) × In v vs × (v.token_hash ≡ k)
In-of-any k [] h = absurd (ground arith)
In-of-any k (v ∷ vs) h = elim (Bool-cases (str_eq v.token_hash k)) [
  | inl e ↦ (v, inl refl, (str_eq_iff v.token_hash k).0 e)
  | inr e ↦ let (w, there, same) = In-of-any k vs (ground arith) in (w, inr there, same)
]

pub any-of-In :
    (v : Session) (vs : List Session)
    → In v vs
    → any (λ w. str_eq w.token_hash v.token_hash) vs ≡ true
any-of-In v [] h = absurd h
any-of-In v (w ∷ vs) h = ground (arith, any-of-In v vs, str_eq_iff w.token_hash v.token_hash)

pub IsOrdered-append :
    {A : Type 0} (less : A → A → Bool) (a b : A) (xs ys : List A)
    → IsOrdered less (xs ++ ys)
    → In a xs
    → In b ys
    → less b a ≡ false
IsOrdered-append less a b [] ys h i j = absurd i
IsOrdered-append less a b (x ∷ xs) ys (h, hs) (inl e) j =
    rw e (All-In (λ y. less y x ≡ false) b (xs ++ ys) h (In-append_right b xs ys j))
IsOrdered-append less a b (x ∷ xs) ys (h, hs) (inr i) j = IsOrdered-append less a b xs ys hs i j

pub lookup_of_In :
    (s : Session) (d : Dict Session)
    → HasUniqueKeys d
    → IsKeyed d
    → In s (values d)
    → lookup s.token_hash d ≡ some s
unfolding lookup
lookup_of_In s [] u g h = absurd h
lookup_of_In s ((k, w) ∷ d) u g h =
    ground (arith, str_eq_iff s.token_hash k, lookup_of_In s d u.1 g.1)

pub hash_of_lookup :
    (k : String) (s : Session) (d : Dict Session)
    → IsKeyed d
    → lookup k d ≡ some s
    → s.token_hash ≡ k
unfolding lookup
hash_of_lookup k s [] g h = cc
hash_of_lookup k s ((j, w) ∷ d) g h = ground (arith, str_eq_iff k j, hash_of_lookup k s d g.1)
