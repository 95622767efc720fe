-- ===== src/User/TokenCache.antt =====
-- internal/user/token_cache.go. `c.now()` is the time `now` of the call.
use task_api.Common.{ℕ, ◌+◌, String, not, ◌&&◌, Option, none, some, [], ltb, if◌then◌else◌, str_eq}
use task_api.Common.Dict.{Dict, lookup, insert, delete, delete_where}

-- Two seconds, in nanoseconds.
abbrev pub token_cache_ttl : ℕ
token_cache_ttl = 2_000_000_000

pub record Entry : Type 0 where
  pub user_id : String
  pub expires_at : ℕ

pub record TokenCache : Type 0 where
  pub entries : Dict Entry
  pub ttl : ℕ

abbrev pub new_token_cache : ℕ → TokenCache
new_token_cache ttl = record { entries = []; ttl = ttl }

unfoldable pub get : ℕ → String → TokenCache → Option String
get now token_hash c = elim (lookup token_hash c.entries) [
  | none ↦ none
  | some entry ↦ if ltb entry.expires_at now then none else some entry.user_id
]

unfoldable pub set : ℕ → String → String → TokenCache → TokenCache
set now token_hash user_id c = record c {
  entries = insert token_hash (record { user_id = user_id; expires_at = now + c.ttl }) c.entries;
}

unfoldable pub forget : String → TokenCache → TokenCache
forget token_hash c = record c { entries = delete token_hash c.entries }

unfoldable pub delete_all_for_user : String → TokenCache → TokenCache
delete_all_for_user user_id c = record c {
  entries = delete_where (λ hash entry. str_eq entry.user_id user_id) c.entries;
}

unfoldable pub delete_all_for_user_except : String → String → TokenCache → TokenCache
delete_all_for_user_except user_id keep_token_hash c = record c {
  entries =
      delete_where (λ hash entry. str_eq entry.user_id user_id && not (str_eq hash keep_token_hash))
        c.entries;
}

unfoldable pub sweep : ℕ → TokenCache → TokenCache
sweep now c = record c { entries = delete_where (λ hash entry. ltb entry.expires_at now) c.entries }
