-- ===== src/Task/Tests/Wrappers.antt =====
-- The theorems on the breaker and the cache of internal/task at inputs that meet their hypotheses.
use task_api.Common.{
  ℕ, ◌≡◌, refl, Bool, false, ◌&&◌, Option, none, some, List, [], ◌∷◌, str_eq, ◌==◌, if◌then◌else◌,
}
use task_api.Common.Breaker.{Breaker}
use task_api.Common.Dict.{lookup, insert}
use task_api.Common.Failure.{ok}
use task_api.Common.Int.{ℤ, pos, negsuc}
use task_api.Task.Entity.{Sentinel, Task}
use task_api.Task.Memory.{memory_repository, Store}
use task_api.Task.Memory.Refines.{memory_contract}
use task_api.Task.Memory.Listings.{view, IsGood, listing}
use task_api.Task.Contract.{Implements}
use task_api.Task.Breaker.{breaker_repository}
use task_api.Task.Breaker.Calls.{IsTransparent}
use task_api.Task.Breaker.Transparent.{breaker_repository-Implements}
use task_api.Task.Cached.{Cache, Cached, CacheKey, cached_repository, write_through, new_cache_key}
use task_api.Task.Cached.Freshness.{Retires, find_all_fresh, perform, owner, update_write}
use task_api.Task.Tests.{first, store}

-- A breaker that counts the calls and never rejects one.
abbrev closed_breaker : Breaker Sentinel ℕ
closed_breaker = record { enter = λ n. (none, n); leave = λ e n. n }

breaker_repository-Implements_example :
    Implements
      (breaker_repository memory_repository closed_breaker 30)
      (λ s. view s.1)
      (λ s. IsGood s.1)
      (λ s. listing s.1)
    × IsTransparent closed_breaker 30 memory_repository
        (breaker_repository memory_repository closed_breaker 30)
breaker_repository-Implements_example =
    breaker_repository-Implements closed_breaker 30 memory_contract

int_eq : ℤ → ℤ → Bool
int_eq (pos m) (pos n) = m == n
int_eq (negsuc m) (negsuc n) = m == n
int_eq _ _ = false

same_key : CacheKey → CacheKey → Bool
same_key j k =
    str_eq j.user_id k.user_id
    && str_eq j.statuses k.statuses
    && str_eq j.priorities k.priorities
    && int_eq j.limit k.limit
    && j.offset == k.offset

-- A cache of one page, which any invalidation empties.
abbrev one_page : Cache (Option (CacheKey × List Task))
one_page = record {
  peek = λ k slot. (
    elim slot [ none ↦ none | some page ↦ if same_key k page.0 then some page.1 else none ],
    slot,
  );
  fill = λ k tags tasks slot. some (k, tasks);
  invalidate_tag = λ ctx tag slot. (none, none);
}

one_page-Retires : Retires memory_repository one_page
one_page-Retires ctx tag k c i quiet = refl

-- The page of a user, cached before the write.
abbrev cached_store : Cached (Option (CacheKey × List Task)) Store
cached_store = record {
  cache = some (new_cache_key "ann" (pos 10) 0 [] [], first ∷ []);
  next = store;
  reported = [];
}

updated :
    (perform
      (cached_repository memory_repository one_page)
      none
      (update_write first)
      cached_store).0
    ≡ ok tt
unfolding perform cached_repository write_through memory_repository lookup insert str_eq
updated = refl

find_all_fresh_example :
    ((cached_repository memory_repository one_page).find_all none "ann"
      (pos 10)
      0
      []
      []
      (perform
        (cached_repository memory_repository one_page)
        none
        (update_write first)
        cached_store).1).0
    ≡ (memory_repository.find_all none "ann"
        (pos 10)
        0
        []
        []
        (perform memory_repository none (update_write first) store).1).0
unfolding owner
find_all_fresh_example =
    find_all_fresh memory_repository one_page one_page-Retires none none (update_write first)
      (pos 10) 0 [] [] cached_store refl updated
