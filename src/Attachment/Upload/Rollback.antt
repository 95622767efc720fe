-- ===== src/Attachment/Upload/Rollback.antt =====
-- internal/attachment/service.go: Upload keeps the rows and the blobs together.
use task_api.Common.{
  ℕ, String, ◌≡◌, refl, ◌⊎◌, inl, inr, Bool, true, false, some, arith, any, Option-cases,
  Bool-cases,
}
use task_api.Common.Dict.{lookup, insert, values, lookup-insert_self}
use task_api.Common.Failure.{Context, Result-cases, ok, err, wrapped, sentinel, is}
use task_api.Attachment.Entity.{
  Attachment, AttachmentError, invalid_input, too_large, attachment_sentinels,
}
use task_api.Attachment.Repository.{BlobStore, TaskOwnership, Stream}
use task_api.Attachment.Memory.{Store, memory_repository, has_key, create}
use task_api.Attachment.Upload.{Settings, store_attachment}

module _ {Bl : Type 0} (blobs : BlobStore Bl) (present : Bl → String → Bool) where
  -- A write that succeeds leaves its blob, and a deletion that succeeds removes it.
  pub record StoresBlobs : Type 0 where
    pub put_ok :
        (c : Context) (k : String) (r : Stream) (n size : ℕ) (b : Bl)
        → (blobs.put c k r n b).0 ≡ ok size
        → present (blobs.put c k r n b).1 k ≡ true
    pub delete_gone :
        (c : Context) (k : String) (b : Bl)
        → (blobs.delete c k b).0 ≡ ok tt
        → present (blobs.delete c k b).1 k ≡ false

  module _ (settings : Settings) (owns_task : TaskOwnership) (law : StoresBlobs) where
    create_outcome :
        (c : Context) (u : String) (a : Attachment) (s : Store)
        → (((create owns_task c a u s).0 ≡ ok tt)
            × (owns_task c a.task_id u ≡ ok true)
            × (any (has_key a.storage_key) (values s) ≡ false)
            × ((create owns_task c a u s).1 ≡ insert a.id a s))
          ⊎ ((e : AttachmentError) × ((create owns_task c a u s).0 ≡ err e)
              × ((create owns_task c a u s).1 ≡ s))
    unfolding create
    create_outcome c u a s = elim (Result-cases (owns_task c a.task_id u)) [
      | inr (x, e) ↦ ground arith
      | inl (owns, e) ↦ elim (Bool-cases owns) [
        | inr g ↦ ground arith
        | inl g ↦ elim (Option-cases (lookup a.id s)) [
          | inr (b, f) ↦ ground arith
          | inl f ↦ elim (Bool-cases (any (has_key a.storage_key) (values s))) [
            | inl h ↦ ground arith
            | inr h ↦ inl (ground arith, ground arith, h, ground arith)
          ]
        ]
      ]
    ]

    -- Over the in-memory repository, and a store of blobs where a write that succeeds leaves its
    -- blob and a deletion that succeeds removes it: from the write of the bytes on, an upload that
    -- succeeds is of a task that the user owns, its row is stored and so are its bytes, and no other
    -- row had their name. One that fails changes no row. Either the bytes could not be written, and
    -- the blobs are as that write left them; or the row was refused, and the blobs are as the
    -- deletion of the bytes after that write left them: they are gone, or that deletion has failed.
    pub store_attachment_lem :
        (c : Context) (u : String) (stream : Stream) (a : Attachment) (s : Store) (b : Bl)
        → let (r, (s', b')) =
            store_attachment settings (memory_repository owns_task) blobs c u stream a (s, b) in
          let (written, after) = blobs.put c a.storage_key stream settings.max_bytes b in
          let (undone, restored) = blobs.delete c a.storage_key after in
          ((stored : Attachment) × (r ≡ ok stored)
            × (stored.storage_key ≡ a.storage_key)
            × (owns_task c a.task_id u ≡ ok true)
            × (any (has_key a.storage_key) (values s) ≡ false)
            × (lookup a.id s' ≡ some stored)
            × (present b' a.storage_key ≡ true))
          ⊎ ((e : AttachmentError) × (r ≡ err e)
              × (s' ≡ s)
              × (((x : AttachmentError) × (written ≡ err x) × (b' ≡ after))
                  ⊎ ((x : AttachmentError) × (size : ℕ) × (written ≡ ok size)
                      × ((create owns_task c (record a { size_bytes = size }) u s).0 ≡ err x)
                      × (b' ≡ restored)
                      × ((present b' a.storage_key ≡ false)
                          ⊎ ((y : AttachmentError) × (undone ≡ err y))))))
    unfolding store_attachment memory_repository
    store_attachment_lem c u stream a s b =
        let k = a.storage_key in
        let c' = (blobs.put c k stream settings.max_bytes b).1 in
        elim (Result-cases (blobs.put c k stream settings.max_bytes b).0) [
          | inr (x, e) ↦ elim (Bool-cases (is x too_large)) [
            | inl t ↦ inr (
              wrapped (sentinel invalid_input),
              ground arith,
              ground arith,
              inl (x, e, ground arith),
            )
            | inr t ↦ inr (wrapped x, ground arith, ground arith, inl (x, e, ground arith))
          ]
          | inl (size, e) ↦
              let there = law.put_ok c k stream settings.max_bytes size b e in
              let stored : Attachment = record a { size_bytes = size } in
              elim (create_outcome c u stored s) [
                | inl (done, mine, fresh, rows) ↦ inl (
                  stored,
                  ground arith,
                  refl,
                  mine,
                  fresh,
                  ground (arith, lookup-insert_self a.id stored s),
                  ground (arith, there),
                )
                | inr (x, failed, rows) ↦
                    let last : (present (blobs.delete c k c').1 k ≡ false)
                        ⊎ ((y : AttachmentError) × ((blobs.delete c k c').0 ≡ err y)) =
                      elim (Result-cases (blobs.delete c k c').0) [
                        | inl (done, d) ↦ inl (law.delete_gone c k c' d)
                        | inr (y, d) ↦ inr (y, d)
                      ] in
                    inr (
                      wrapped x,
                      ground arith,
                      ground arith,
                      inr (x, size, e, failed, ground arith, ground arith),
                    )
              ]
        ]
