-- ===== src/Attachment/Memory.antt =====
-- internal/attachment/memory_repository.go. The lock makes each method one step on the store.
pub mod Ownership
use task_api.Common.{
  ℕ, ◌+◌, String, Bool, not, none, some, Option, List, [], ◌∷◌, ltb, ◌==◌, if◌then◌else◌, str_eq,
  length, select, any,
}
use task_api.Common.Dict.{Dict, lookup, insert, values}
use task_api.Common.Dict
use task_api.Common.Sort.{sort_by}
use task_api.Common.Text.{str_ltb}
use task_api.Common.Failure.{Context, ok, err, sentinel, while_live, lift, ◌>>=◌}
use task_api.Attachment.Entity.{
  Attachment, AttachmentResult, not_found, task_not_found, already_exists,
}
use task_api.Attachment.Repository.{Repository, RepoAction, TaskOwnership}

abbrev pub Store : Type 0
Store = Dict Attachment

abbrev pub has_key : String → Attachment → Bool
has_key storage_key a = str_eq a.storage_key storage_key

abbrev pub on_task : String → Attachment → Bool
on_task task_id a = str_eq a.task_id task_id

-- The comparator of `sort.Slice` in `FindByTask`.
unfoldable pub older : Attachment → Attachment → Bool
older a b =
    if not (a.created_at == b.created_at) then ltb a.created_at b.created_at else str_ltb a.id b.id

-- The loop that looks for a storage key: the id that it stands under and the row.
unfoldable pub find_key : String → Store → Option (String × Attachment)
find_key storage_key [] = none
find_key storage_key ((id, a) ∷ store) =
    if has_key storage_key a then some (id, a) else find_key storage_key store

module _ (owns_task : TaskOwnership) where
  unfoldable pub create : Context → Attachment → String → RepoAction Store (Unit {0})
  create ctx a user_id = do
    owns ← lift (owns_task ctx a.task_id user_id)
    λ store. if not owns then (err (sentinel task_not_found), store) else elim (lookup a.id store) [
      | some _ ↦ (err (sentinel already_exists), store)
      | none ↦
          if any (has_key a.storage_key) (values store)
          then (err (sentinel already_exists), store)
          else (ok tt, insert a.id a store)
    ]

  unfoldable pub find_by_storage_key : Context → String → String → RepoAction Store Attachment
  unfolding find_key
  find_by_storage_key ctx storage_key user_id = while_live ctx λ store.
      elim (find_key storage_key store) [
        | none ↦ (err (sentinel not_found), store)
        | some found ↦ (
          elim (owns_task ctx found.1.task_id user_id) [
            | err e ↦ err e
            | ok owns ↦ if not owns then err (sentinel not_found) else ok found.1
          ],
          store,
        )
      ]

  unfoldable pub delete : Context → String → String → RepoAction Store (Unit {0})
  unfolding find_key
  delete ctx storage_key user_id = while_live ctx λ store. elim (find_key storage_key store) [
    | none ↦ (err (sentinel not_found), store)
    | some found ↦ elim (owns_task ctx found.1.task_id user_id) [
      | err e ↦ (err e, store)
      | ok owns ↦
          if not owns then (err (sentinel not_found), store) else (ok tt, Dict.delete found.0 store)
    ]
  ]

  unfoldable pub find_by_task : Context → String → String → RepoAction Store (List Attachment)
  find_by_task ctx task_id user_id store = (
    elim (owns_task ctx task_id user_id) [
      | err e ↦ err e
      | ok owns ↦
          if not owns
          then err (sentinel task_not_found)
          else ok (sort_by older (select (on_task task_id) (values store)))
    ],
    store,
  )

  -- The loop of `TotalBytesForUser`.
  unfoldable pub total_from : Context → String → ℕ → List Attachment → AttachmentResult ℕ
  total_from ctx user_id total [] = ok total
  total_from ctx user_id total (a ∷ candidates) =
      let more = total_from ctx user_id (total + a.size_bytes) candidates in
      let same = total_from ctx user_id total candidates in
      elim (owns_task ctx a.task_id user_id) [
        | err e ↦ err e
        | ok owns ↦ if owns then more else same
      ]

  unfoldable pub total_bytes_for_user : Context → String → RepoAction Store ℕ
  unfolding total_from
  total_bytes_for_user ctx user_id =
      while_live ctx λ store. (total_from ctx user_id 0 (values store), store)

  unfoldable pub count_by_task : Context → String → String → RepoAction Store ℕ
  count_by_task ctx task_id user_id = while_live ctx λ store. (
    elim (owns_task ctx task_id user_id) [
      | err e ↦ err e
      | ok owns ↦ if not owns then ok 0 else ok (length (select (on_task task_id) (values store)))
    ],
    store,
  )

-- The keys that no row of the store has.
unfoldable pub unreferenced_keys : Context → List String → RepoAction Store (List String)
unreferenced_keys ctx keys =
    while_live ctx
      λ store. (ok (select (λ key. not (any (has_key key) (values store))) keys), store)

-- `NewMemoryRepository`
unfoldable pub memory_repository : TaskOwnership → Repository Store
unfolding create find_by_storage_key find_by_task delete total_bytes_for_user count_by_task
    unreferenced_keys
memory_repository owns_task = record {
  create = create owns_task;
  find_by_storage_key = find_by_storage_key owns_task;
  find_by_task = find_by_task owns_task;
  delete = delete owns_task;
  total_bytes_for_user = total_bytes_for_user owns_task;
  count_by_task = count_by_task owns_task;
  unreferenced_keys = unreferenced_keys;
}
