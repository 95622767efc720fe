-- ===== src/Task/Cached.antt =====
-- internal/task/cached_repository.go: a cache of the pages of FindAll in front of a repository. The
-- cache library is a parameter; `report` is what `OnInvalidationError` records.
pub mod Freshness
use Prim.Native.String.{◌++◌ as append, [] as empty_text}
use task_api.Common.{ℕ, String, Option, none, some, List, [], ◌∷◌, map}
use task_api.Common.Int.{ℤ}
use task_api.Common.Sort.{sort_by}
use task_api.Common.Text.{str_ltb}
use task_api.Common.Failure.{Context, Foreign, ok, err}
use task_api.Task.Entity.{Status, Priority, status_name, priority_name, Task}
use task_api.Task.Repository.{Repository, RepoAction}

pub record CacheKey : Type 0 where
  pub user_id : String
  pub statuses : String
  pub priorities : String
  pub limit : ℤ
  pub offset : ℕ

-- `strings.Join(strs, ",")`
unfoldable pub join_commas : List String → String
join_commas [] = ""
join_commas (s ∷ []) = s
join_commas (s ∷ t ∷ ts) = append s (append "," (join_commas (t ∷ ts)))

-- `sortedJoin`, on the names of the values.
unfoldable pub sorted_join : List String → String
unfolding join_commas
sorted_join names = join_commas (sort_by str_ltb names)

unfoldable pub new_cache_key : String → ℤ → ℕ → List Status → List Priority → CacheKey
unfolding sorted_join
new_cache_key user_id limit offset statuses priorities = record {
  user_id = user_id;
  statuses = sorted_join (map status_name statuses);
  priorities = sorted_join (map priority_name priorities);
  limit = limit;
  offset = offset;
}

unfoldable pub user_tag : String → String
user_tag user_id = append "user:" (append user_id ":lists")

unfoldable pub cache_key_tag : CacheKey → List String
unfolding user_tag
cache_key_tag k = user_tag k.user_id ∷ []

-- What the decorator calls of `cistern.Cache`, on the cache's state.
pub record Cache (C : Type 0) : Type 0 where
  pub peek : CacheKey → C → Option (List Task) × C
  pub fill : CacheKey → List String → List Task → C → C
  pub invalidate_tag : Context → String → C → Option Foreign × C

-- The decorator's own state: the cache, what it wraps, and the invalidations that failed.
pub record Cached (C St : Type 0) : Type 0 where
  pub cache : C
  pub next : St
  pub reported : List Foreign

module _ {C St : Type 0} (next : Repository St) (cistern : Cache C) where
  -- A call of the wrapped repository.
  unfoldable pub pass : {A : Type 0} → RepoAction St A → RepoAction (Cached C St) A
  pass m s = let (r, t) = m s.next in (r, record s { next = t })

  unfoldable pub invalidate_owner : Context → String → Cached C St → Cached C St
  invalidate_owner ctx user_id s =
      let (failed, c) = cistern.invalidate_tag ctx (user_tag user_id) s.cache in
      record s { cache = c; reported = elim failed [ none ↦ s.reported | some e ↦ e ∷ s.reported ] }

  -- A write, and the invalidation once it has succeeded.
  unfoldable pub write_through :
      Context → String → RepoAction St (Unit {0}) → RepoAction (Cached C St) (Unit {0})
  unfolding pass invalidate_owner
  write_through ctx user_id m s =
      let (r, t) = pass m s in
      elim r [ err e ↦ (err e, t) | ok _ ↦ (ok tt, invalidate_owner ctx user_id t) ]

  -- `GetOrLoad` with the wrapped repository's FindAll as the loader.
  unfoldable pub find_page :
      CacheKey → RepoAction St (List Task) → RepoAction (Cached C St) (List Task)
  unfolding pass cache_key_tag
  find_page k load s =
      let (hit, c) = cistern.peek k s.cache in
      elim hit [
        | some tasks ↦ (ok tasks, record s { cache = c })
        | none ↦
            let (r, t) = pass load (record s { cache = c }) in
            elim r [
              | err e ↦ (err e, t)
              | ok tasks ↦
                  (ok tasks, record t { cache = cistern.fill k (cache_key_tag k) tasks t.cache })
            ]
      ]

  unfoldable pub cached_repository : Repository (Cached C St)
  unfolding write_through find_page new_cache_key pass
  cached_repository = record {
    create = λ ctx task. write_through ctx task.user_id (next.create ctx task);
    find_by_id = λ ctx id user_id. pass (next.find_by_id ctx id user_id);
    find_all = λ ctx user_id limit offset statuses priorities.
        find_page (new_cache_key user_id limit offset statuses priorities)
          (next.find_all ctx user_id limit offset statuses priorities);
    update = λ ctx task. write_through ctx task.user_id (next.update ctx task);
    delete = λ ctx id user_id. write_through ctx user_id (next.delete ctx id user_id);
    count_all =
        λ ctx user_id statuses priorities. pass (next.count_all ctx user_id statuses priorities);
    count_by_status_and_priority = λ ctx user_id statuses priorities.
        pass (next.count_by_status_and_priority ctx user_id statuses priorities);
  }
