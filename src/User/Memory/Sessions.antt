-- ===== src/User/Memory/Sessions.antt =====
-- internal/user/memory_repository.go: the sessions that CreateSession leaves.
use task_api.Common.{
  String, ◌≡◌, refl, Bool, true, false, List, [], ◌∷◌, arith, ap, ◌∙◌, if◌then◌else◌, str_eq,
  str_eq_refl, not, length, select, All,
}
use task_api.Common.Dict.{Dict, insert, delete, delete_where, values}
use task_api.User.Entity.{Session}
use task_api.User.Memory.{evict}

-- Every session stands under the hash of its token.
abbrev pub IsKeyed : Dict Session → Type 0
IsKeyed [] = Unit
IsKeyed ((k, s) ∷ d) = (s.token_hash ≡ k) × IsKeyed d

pub insert-IsKeyed :
    (s : Session) (d : Dict Session) → IsKeyed d → IsKeyed (insert s.token_hash s d)
unfolding insert
insert-IsKeyed s [] h = (refl, tt)
insert-IsKeyed s ((k, w) ∷ d) h = ground (arith, insert-IsKeyed s d h.1)

-- The session is not one of those.
abbrev pub is_spared : List Session → Session → Bool
is_spared [] s = true
is_spared (v ∷ vs) s = if str_eq v.token_hash s.token_hash then false else is_spared vs s

delete-IsKeyed : (k : String) (d : Dict Session) → IsKeyed d → IsKeyed (delete k d)
unfolding delete delete_where
delete-IsKeyed k [] h = h
delete-IsKeyed k ((j, s) ∷ d) h = ground (arith, delete-IsKeyed k d h.1)

values-delete :
    (k : String) (d : Dict Session)
    → IsKeyed d
    → values (delete k d) ≡ select (λ s. not (str_eq k s.token_hash)) (values d)
unfolding delete delete_where
values-delete k [] h = refl
values-delete k ((j, s) ∷ d) h = ground (arith, values-delete k d h.1)

select_spared :
    (v : Session) (vs xs : List Session)
    → select (is_spared vs) (select (λ s. not (str_eq v.token_hash s.token_hash)) xs)
      ≡ select (is_spared (v ∷ vs)) xs
select_spared v vs [] = refl
select_spared v vs (x ∷ xs) = ground (arith, select_spared v vs xs)

pub values-evict :
    (vs : List Session) (d : Dict Session)
    → IsKeyed d
    → values (evict vs d) ≡ select (is_spared vs) (values d)
unfolding evict
values-evict [] d h = select_all (values d)
  where
    select_all : (xs : List Session) → xs ≡ select (is_spared []) xs
    select_all [] = refl
    select_all (x ∷ xs) = ap (◌∷◌ x) (select_all xs)
values-evict (v ∷ vs) d h =
    values-evict vs (delete v.token_hash d) (delete-IsKeyed v.token_hash d h)
    ∙ ap (select (is_spared vs)) (values-delete v.token_hash d h)
    ∙ select_spared v vs (values d)

-- No victim is spared.
pub none_spared :
    (vs ws : List Session)
    → All (λ v. is_spared ws v ≡ false) vs
    → length (select (is_spared ws) vs) ≡ 0
none_spared [] ws h = refl
none_spared (v ∷ vs) ws (h, hs) = rw h (none_spared vs ws hs)

spared_weaker :
    (w : Session) (vs ws : List Session)
    → All (λ v. is_spared ws v ≡ false) vs
    → All (λ v. is_spared (w ∷ ws) v ≡ false) vs
spared_weaker w [] ws h = tt
spared_weaker w (v ∷ vs) ws (h, hs) = (ground arith, spared_weaker w vs ws hs)

pub victims_not_spared : (vs : List Session) → All (λ v. is_spared vs v ≡ false) vs
victims_not_spared [] = tt
victims_not_spared (v ∷ vs) =
    (ground (arith, str_eq_refl v.token_hash), spared_weaker v vs vs (victims_not_spared vs))
