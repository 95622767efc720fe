-- ===== src/Task/Cached/Freshness.antt =====
-- internal/task/cached_repository.go: a user who writes reads the write.
use task_api.Common.{ℕ, String, ◌≡◌, refl, ap, sym, ◌∙◌, inl, inr, none, List, arith, In}
use task_api.Common.Int.{ℤ}
use task_api.Common.Failure.{Context, Result-cases, ok}
use task_api.Task.Entity.{Status, Priority, Task}
use task_api.Task.Repository.{Repository, RepoAction}
use task_api.Task.Cached.{
  Cache, Cached, CacheKey, cached_repository, write_through, find_page, pass, invalidate_owner,
  user_tag, new_cache_key, cache_key_tag,
}

-- The calls that write, each with the user whose pages it makes stale.
pub data Write : Type 0 where
  create_write update_write : Task → Write
  delete_write : String → String → Write

unfoldable pub owner : Write → String
owner (create_write task) = task.user_id
owner (update_write task) = task.user_id
owner (delete_write id user_id) = user_id

unfoldable pub perform : {St : Type 0} → Repository St → Context → Write → RepoAction St (Unit {0})
perform repo ctx (create_write task) = repo.create ctx task
perform repo ctx (update_write task) = repo.update ctx task
perform repo ctx (delete_write id user_id) = repo.delete ctx id user_id

module _ {C St : Type 0} (next : Repository St) (cistern : Cache C) where
  -- After the invalidation of a tag that does not fail, no key of that tag is found.
  abbrev pub Retires : Type 0
  Retires =
      (ctx : Context) (tag : String) (k : CacheKey) (c : C)
      → In tag (cache_key_tag k)
      → (cistern.invalidate_tag ctx tag c).0 ≡ none
      → (cistern.peek k (cistern.invalidate_tag ctx tag c).1).0 ≡ none

  -- A write that succeeds.
  wrote :
      (ctx : Context) (u : String) (m : RepoAction St (Unit {0})) (s : Cached C St)
      → (write_through next cistern ctx u m s).0 ≡ ok tt
      → (write_through next cistern ctx u m s).1
        ≡ invalidate_owner next cistern ctx u (record s { next = (m s.next).1 })
  unfolding write_through pass
  wrote ctx u m s h = elim (Result-cases (m s.next).0) [
    | inl (_, e) ↦ ground arith
    | inr (x, e) ↦ ground arith
  ]

  -- A page that is not in the cache is the wrapped repository's.
  missed :
      (k : CacheKey) (load : RepoAction St (List Task)) (s : Cached C St)
      → (cistern.peek k s.cache).0 ≡ none
      → (find_page next cistern k load s).0 ≡ (load s.next).0
  unfolding find_page pass
  missed k load s h = elim (Result-cases (load s.next).0) [
    | inl (tasks, e) ↦ ground arith
    | inr (x, e) ↦ ground arith
  ]

  -- A write of the decorator is the wrapped repository's, and the invalidation of its owner's pages.
  perform-cached :
      (ctx : Context) (w : Write) (s : Cached C St)
      → perform (cached_repository next cistern) ctx w s
        ≡ write_through next cistern ctx (owner w) (perform next ctx w) s
  unfolding perform cached_repository owner
  perform-cached ctx (create_write task) s = refl
  perform-cached ctx (update_write task) s = refl
  perform-cached ctx (delete_write id u) s = refl

  -- If the cache library's invalidation of a tag retires the keys of the tag: once a Create, an
  -- Update or a Delete of the decorator has succeeded, and its invalidation did not fail, the next
  -- listing of the user who wrote, whatever its window and filters, answers what the repository
  -- behind the cache answers after the same write.
  pub find_all_fresh :
      Retires
      → (ctx later : Context) (w : Write) (limit : ℤ) (offset : ℕ) (statuses : List Status)
        (priorities : List Priority) (s : Cached C St)
      → (cistern.invalidate_tag ctx (user_tag (owner w)) s.cache).0 ≡ none
      → (perform (cached_repository next cistern) ctx w s).0 ≡ ok tt
      → ((cached_repository next cistern).find_all later
          (owner w)
          limit
          offset
          statuses
          priorities
          (perform (cached_repository next cistern) ctx w s).1).0
        ≡ (next.find_all later
            (owner w)
            limit
            offset
            statuses
            priorities
            (perform next ctx w s.next).1).0
  unfolding cached_repository invalidate_owner cache_key_tag new_cache_key
  find_all_fresh retires ctx later w limit offset statuses priorities s quiet h =
      let m = perform next ctx w in
      let k = new_cache_key (owner w) limit offset statuses priorities in
      let t = invalidate_owner next cistern ctx (owner w) (record s { next = (m s.next).1 }) in
      let h' : (write_through next cistern ctx (owner w) m s).0 ≡ ok tt =
        ap (λ o. o.0) (sym (perform-cached ctx w s)) ∙ h in
      rw (perform-cached ctx w s, wrote ctx (owner w) m s h')
        (missed k (next.find_all later (owner w) limit offset statuses priorities) t
          (retires ctx (user_tag (owner w)) k s.cache (inl refl) quiet))

  -- Whatever the cache does, and whether or not the invalidation fails, the answer of a write is
  -- the repository's, and what is stored is what the repository stored.
  pub write_through_lem :
      (ctx : Context) (u : String) (m : RepoAction St (Unit {0})) (s : Cached C St)
      → let (r, t) = write_through next cistern ctx u m s in
        (r ≡ (m s.next).0) × (t.next ≡ (m s.next).1)
  unfolding write_through pass invalidate_owner
  write_through_lem ctx u m s = elim (Result-cases (m s.next).0) [
    | inl (tt, e) ↦ ground arith
    | inr (x, e) ↦ ground arith
  ]
