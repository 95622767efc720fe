-- ===== src/Attachment/Memory/Ownership.antt =====
-- internal/attachment/memory_repository.go: a row is found under its storage key, by its owner alone.
use task_api.Common.{
  String, ◌≡◌, true, false, none, some, [], ◌∷◌, arith, inl, inr, any, Option-cases, Bool-cases,
  str_eq_refl,
}
use task_api.Common.Dict.{lookup, insert, values}
use task_api.Common.Failure.{Context, Result-cases, ok, err, sentinel}
use task_api.Attachment.Entity.{Attachment, not_found}
use task_api.Attachment.Repository.{TaskOwnership}
use task_api.Attachment.Memory.{Store, has_key, find_key, create, find_by_storage_key, delete}

pub find_key-insert :
    (a : Attachment) (store : Store)
    → any (has_key a.storage_key) (values store) ≡ false
    → find_key a.storage_key (insert a.id a store) ≡ some (a.id, a)
unfolding find_key insert
find_key-insert a [] h = ground (arith, str_eq_refl a.storage_key)
find_key-insert a ((k, w) ∷ store) h =
    ground (arith, str_eq_refl a.storage_key, find_key-insert a store)

module _ (owns_task : TaskOwnership) where
  -- What a creation that succeeds has checked, and what it stores.
  pub created :
      (c : Context) (a : Attachment) (u : String) (store : Store)
      → (create owns_task c a u store).0 ≡ ok tt
      → (owns_task c a.task_id u ≡ ok true)
        × (any (has_key a.storage_key) (values store) ≡ false)
        × ((create owns_task c a u store).1 ≡ insert a.id a store)
  unfolding create
  created c a u store h = elim (Result-cases (owns_task c a.task_id u)) [
    | inr (x, e) ↦ ground arith
    | inl (owns, e) ↦ elim (Option-cases (lookup a.id store)) [
      | inr (b, f) ↦ elim (Bool-cases owns) [ inl g ↦ ground arith | inr g ↦ ground arith ]
      | inl f ↦ elim (Bool-cases owns) [ inl g ↦ ground arith | inr g ↦ ground arith ]
    ]
  ]

  -- An attachment whose creation has succeeded, on a task that another user does not own: its owner
  -- finds it under its storage key; the other user is told that there is none, and cannot delete it.
  pub find_by_storage_key-create :
      (a : Attachment) (u other : String) (store : Store)
      → (create owns_task none a u store).0 ≡ ok tt
      → owns_task none a.task_id other ≡ ok false
      → let after = (create owns_task none a u store).1 in
        (find_by_storage_key owns_task none a.storage_key u after ≡ (ok a, after))
        × (find_by_storage_key owns_task none a.storage_key other after
            ≡ (err (sentinel not_found), after))
        × (delete owns_task none a.storage_key other after ≡ (err (sentinel not_found), after))
  unfolding find_by_storage_key delete
  find_by_storage_key-create a u other store h foreign =
      let (mine, fresh, e) = created none a u store h in
      let found = find_key-insert a store fresh in
      rw e (ground (arith, found), ground (arith, found), ground (arith, found))
