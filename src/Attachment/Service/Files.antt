-- ===== src/Attachment/Service/Files.antt =====
-- internal/attachment/service.go: what was uploaded can be downloaded, by the owner of its task.
use task_api.Common.{ℕ, String, ◌≡◌, inl, inr, true, none, List, arith, Bool-cases}
use task_api.Common.Failure.{Context, Result-cases, ok, is}
use task_api.Common.Uuid.{is_valid_id}
use task_api.Attachment.Entity.{Attachment, too_large, attachment_sentinels}
use task_api.Attachment.Repository.{BlobStore, TaskOwnership, Stream}
use task_api.Attachment.Memory.{Store, memory_repository, create, find_by_storage_key}
use task_api.Attachment.Memory.Ownership.{created, find_key-insert}
use task_api.Attachment.Upload.{Settings, store_attachment}
use task_api.Attachment.Service.{download}

module _ {Bl : Type 0} (blobs : BlobStore Bl) where
  -- A write that succeeds can be read back.
  abbrev pub ReadsBack : Type 0
  ReadsBack =
      (c : Context) (k : String) (r : Stream) (n size : ℕ) (b : Bl)
      → (blobs.put c k r n b).0 ≡ ok size
      → blobs.open_blob c k (blobs.put c k r n b).1 ≡ (ok r.bytes, (blobs.put c k r n b).1)

  module _ (settings : Settings) (owns_task : TaskOwnership) where
    stored_ok :
        (u : String) (stream : Stream) (a stored : Attachment) (s : Store) (b : Bl)
        → (store_attachment settings (memory_repository owns_task) blobs none u stream a (s, b)).0
          ≡ ok stored
        → (size : ℕ) × ((blobs.put none a.storage_key stream settings.max_bytes b).0 ≡ ok size)
          × (stored ≡ record a { size_bytes = size })
          × ((create owns_task none (record a { size_bytes = size }) u s).0 ≡ ok tt)
          × ((store_attachment settings
                (memory_repository owns_task)
                blobs
                none
                u
                stream
                a
                (s, b)).1
              ≡ (
                (create owns_task none (record a { size_bytes = size }) u s).1,
                (blobs.put none a.storage_key stream settings.max_bytes b).1,
              ))
    unfolding store_attachment memory_repository
    stored_ok u stream a stored s b h =
        elim (Result-cases (blobs.put none a.storage_key stream settings.max_bytes b).0) [
          | inr (x, e) ↦ elim (Bool-cases (is x too_large)) [
            | inl t ↦ absurd (ground arith)
            | inr t ↦ absurd (ground arith)
          ]
          | inl (size, e) ↦
              let with_size : Attachment = record a { size_bytes = size } in
              elim (Result-cases (create owns_task none with_size u s).0) [
                | inr (x, f) ↦ absurd (ground arith)
                | inl (_, f) ↦ (size, e, ground arith, f, ground arith)
              ]
        ]

    download_found :
        (u : String) (a : Attachment) (content : List ℕ) (s : Store) (c : Bl)
        → is_valid_id a.storage_key ≡ true
        → find_by_storage_key owns_task none a.storage_key u s ≡ (ok a, s)
        → blobs.open_blob none a.storage_key c ≡ (ok content, c)
        → download (memory_repository owns_task) blobs none u a.storage_key (s, c)
          ≡ (ok (a, content), (s, c))
    unfolding download memory_repository
    download_found u a content s c valid found opened = ground arith

    -- Over the in-memory repository, and a store of blobs where a write that succeeds can be read
    -- back: an upload that succeeded from the write of the bytes on, under a well-formed name, can be
    -- downloaded by the same user, which gives its row, with the size that was written, and the bytes
    -- of the upload. The contexts are live.
    pub download-store_attachment :
        ReadsBack
        → (u : String) (stream : Stream) (a stored : Attachment) (s : Store) (b : Bl)
        → is_valid_id a.storage_key ≡ true
        → (store_attachment settings (memory_repository owns_task) blobs none u stream a (s, b)).0
          ≡ ok stored
        → let after =
            (store_attachment settings
              (memory_repository owns_task)
              blobs
              none
              u
              stream
              a
              (s, b)).1 in
          download (memory_repository owns_task) blobs none u a.storage_key after
          ≡ (ok (stored, stream.bytes), after)
    unfolding find_by_storage_key
    download-store_attachment law u stream a stored s b valid h =
        let (size, put, same, done, after) = stored_ok u stream a stored s b h in
        let with_size : Attachment = record a { size_bytes = size } in
        let (mine, fresh, e) = created owns_task none with_size u s done in
        let found : find_by_storage_key owns_task none a.storage_key u
              (create owns_task none with_size u s).1
            ≡ (ok with_size, (create owns_task none with_size u s).1) =
          rw e (ground (arith, find_key-insert with_size s fresh)) in
        rw (after, same)
          (download_found u with_size stream.bytes (create owns_task none with_size u s).1
            (blobs.put none a.storage_key stream settings.max_bytes b).1 valid found
            (law none a.storage_key stream settings.max_bytes size b put))
