-- ===== src/Task/Memory/Refines.antt =====
-- internal/task/memory_repository.go against the contract of the interface.
use task_api.Common.{
  ℕ, String, ◌≡◌, refl, sym, ap, ◌∙◌, inl, inr, Bool, none, some, List, [], ◌∷◌, arith, str_eq,
  str_eq_iff, length, Option-cases,
}
use task_api.Common.Dict
use task_api.Common.Dict.{lookup, insert, values}
use task_api.Common.Failure.{Context, ok, foreign}
use task_api.Common.Int.{ℤ}
use task_api.Task.Entity.{Status, Priority, Task}
use task_api.Task.Memory.{
  Store, empty_store, memory_repository, next_row, create, find_by_id, update, delete, find_all,
  count_all, count_by_status_and_priority,
}
use task_api.Task.Memory.Windows.{paginate_tasks_lem}
use task_api.Task.Memory.Grouping.{tally_from-listing}
use task_api.Task.Memory.Reliable.{memory-IsReliable}
use task_api.Task.Memory.Listings.{
  IsKeyed, IsGood, view, view_lem, listing, In-listing-to, In-listing-from, listing-IsByAge,
  Distinct-listing, count-listing,
}
use task_api.Task.Contract.{
  put, owned, Meets, Implements, IsReliable, created, updated, deleted, found, window, counts_of,
}
use mathlib.Core.Path.{fun_ext}

insert-IsKeyed : (t : Task) (s : Store) → IsKeyed s → IsKeyed (insert t.id t s)
unfolding insert
insert-IsKeyed t [] h = (refl, tt)
insert-IsKeyed t ((k, w) ∷ s) h = ground (arith, insert-IsKeyed t s h.1)

delete_where-IsKeyed :
    (p : String → Task → Bool) (s : Store) → IsKeyed s → IsKeyed (Dict.delete_where p s)
unfolding Dict.delete_where
delete_where-IsKeyed p [] h = h
delete_where-IsKeyed p ((k, w) ∷ s) h = ground (arith, delete_where-IsKeyed p s h.1)

delete-IsKeyed : (k : String) (s : Store) → IsKeyed s → IsKeyed (Dict.delete k s)
unfolding Dict.delete
delete-IsKeyed k s h = delete_where-IsKeyed (λ j _. str_eq k j) s h

view-insert : (k : String) (t : Task) (s : Store) → view (insert k t s) ≡ put (view s) k (some t)
unfolding view put
view-insert k t s = fun_ext (λ j. Dict.lookup-insert j k t s)

view-delete : (k : String) (s : Store) → view (Dict.delete k s) ≡ put (view s) k none
unfolding view put
view-delete k s =
    fun_ext (λ j. ground (arith, Dict.lookup-delete j k s, str_eq_iff j k, str_eq_iff k j))

id_of_lookup : (k : String) (t : Task) (s : Store) → IsKeyed s → lookup k s ≡ some t → t.id ≡ k
unfolding lookup
id_of_lookup k t [] g h = cc
id_of_lookup k t ((j, w) ∷ s) g h = ground (arith, str_eq_iff k j, id_of_lookup k t s g.1)

module _ (s : Store) (g : IsGood s) where
  create-Meets :
      (c : Context) (t : Task)
      → let (r, s') = create c t s in Meets (view s) (created t (view s)) (r, view s') × IsGood s'
  unfolding create
  create-Meets (some e) t = (inr (foreign e, tt, refl), g)
  create-Meets none t = ground (
    arith,
    view_lem s t.id,
    view-insert t.id (record t { version = 1 }) s,
    Dict.insert-HasUniqueKeys t.id (record t { version = 1 }) s g.0,
    insert-IsKeyed (record t { version = 1 }) s g.1,
  )

  find-Meets :
      (c : Context) (id u : String)
      → let (r, s') = find_by_id c id u s in
        Meets (view s) (found id u (view s)) (r, view s') × IsGood s'
  unfolding find_by_id owned
  find-Meets (some e) id u = (inr (foreign e, tt, refl), g)
  find-Meets none id u = ground (arith, view_lem s id)

  update-Meets :
      (c : Context) (t : Task)
      → let (r, s') = update c t s in Meets (view s) (updated t (view s)) (r, view s') × IsGood s'
  unfolding update owned
  update-Meets (some e) t = (inr (foreign e, tt, refl), g)
  update-Meets none t = elim (Option-cases (lookup t.id s)) [
    | inl e ↦ ground (arith, view_lem s t.id)
    | inr (w, e) ↦ ground (
      arith,
      view_lem s t.id,
      view-insert t.id (next_row w t) s,
      Dict.insert-HasUniqueKeys t.id (next_row w t) s g.0,
      insert-IsKeyed (next_row w t) s g.1,
    )
  ]

  delete-Meets :
      (c : Context) (id u : String)
      → let (r, s') = delete c id u s in
        Meets (view s) (deleted id u (view s)) (r, view s') × IsGood s'
  unfolding delete owned
  delete-Meets (some e) id u = (inr (foreign e, tt, refl), g)
  delete-Meets none id u = ground (
    arith,
    view_lem s id,
    view-delete id s,
    Dict.delete-HasUniqueKeys id s g.0,
    delete-IsKeyed id s g.1,
  )

  find_all-Meets :
      (c : Context) (u : String) (limit : ℤ) (offset : ℕ) (st : List Status) (p : List Priority)
      → let (r, s') = find_all c u limit offset st p s in
        Meets (view s) (ok (window limit offset (listing s u st p)), view s) (r, view s')
        × IsGood s'
        × (listing s' ≡ listing s)
  unfolding find_all
  find_all-Meets (some e) u limit offset st p = (inr (foreign e, tt, refl), g, refl)
  find_all-Meets none u limit offset st p = (
    inl (ap (λ ts. (ok ts, view s)) (paginate_tasks_lem (listing s u st p) limit offset)),
    g,
    refl,
  )

  count_all-Meets :
      (c : Context) (u : String) (st : List Status) (p : List Priority)
      → let (r, s') = count_all c u st p s in
        Meets (view s) (ok (length (listing s u st p)), view s) (r, view s')
        × IsGood s'
        × (listing s' ≡ listing s)
  unfolding count_all
  count_all-Meets (some e) u st p = (inr (foreign e, tt, refl), g, refl)
  count_all-Meets none u st p = rw (count-listing u st p s) (inl refl, g, refl)

  count_by-Meets :
      (c : Context) (u : String) (st : List Status) (p : List Priority)
      → let (r, s') = count_by_status_and_priority c u st p s in
        Meets (view s) (ok (counts_of (listing s u st p)), view s) (r, view s')
        × IsGood s'
        × (listing s' ≡ listing s)
  unfolding count_by_status_and_priority
  count_by-Meets (some e) u st p = (inr (foreign e, tt, refl), g, refl)
  count_by-Meets none u st p =
      (inl (ap (λ n. (ok n, view s)) (tally_from-listing u st p s)), g, refl)

-- The in-memory store, as an implementation of the contract.
pub memory_contract : Implements memory_repository view IsGood listing
unfolding memory_repository
memory_contract = record {
  keyed = λ s k t g h. id_of_lookup k t s g.1 (sym (view_lem s k) ∙ h);
  create-Meets = λ c t s g. create-Meets s g c t;
  find-Meets = λ c id u s g. find-Meets s g c id u;
  update-Meets = λ c t s g. update-Meets s g c t;
  delete-Meets = λ c id u s g. delete-Meets s g c id u;
  find_all-Meets = λ c u limit offset st p s g. find_all-Meets s g c u limit offset st p;
  count_all-Meets = λ c u st p s g. count_all-Meets s g c u st p;
  count_by-Meets = λ c u st p s g. count_by-Meets s g c u st p;
  listing_by_age = λ s u st p g. listing-IsByAge s u st p;
  listing_distinct = λ s u st p g. Distinct-listing s u st p g;
  In-listing =
      λ s u st p t g. (In-listing-to s u st p t g, λ h. In-listing-from s u st p t h.0 h.1);
}

-- The in-memory store keeps the whole contract of the repository, on rows that stand under their
-- own ids in a map without repeated keys, as the empty store has them, and keeps them so: each of
-- the seven operations gives what the interface promises, or reports an outage and changes
-- nothing. With a live context none of them reports an outage.
pub memory-Implements :
    Implements memory_repository view IsGood listing
    × IsReliable memory_repository
    × IsGood empty_store
memory-Implements = (memory_contract, memory-IsReliable, (tt, tt))
