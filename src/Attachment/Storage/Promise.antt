-- ===== src/Attachment/Storage/Promise.antt =====
-- internal/attachment/storage.go: the store of blobs keeps what Upload and Download rely on.
use task_api.Common.{
  ℕ, ◌+◌, ◌≤◌, String, ◌≡◌, ◌≢◌, ◌⊎◌, refl, inl, inr, Bool, true, false, Option, none, some, List,
  [], length, take, length-take, take_all, ltb, arith, Bool-cases, ap, ◌∙◌,
}
use task_api.Common.Failure.{Context, Foreign, ok, err, foreign}
use task_api.Attachment.Entity.{AttachmentResult}
use task_api.Attachment.Repository.{Stream}
use task_api.Attachment.Service.Files.{ReadsBack}
use task_api.Attachment.Upload.Rollback.{StoresBlobs}
use task_api.Attachment.Storage.{
  Disk, limit_reader, remove, after_close, after_copy, after_create, put, open_blob, delete,
  deleted, fs_blob_store,
}
use task_api.Attachment.Storage.Leftovers.{
  IsDisk, IsRefused, IsKept, remove_outcome, remove_gone, cleanup_gone,
}

take_more : (n : ℕ) (xs : List ℕ) → length (take (n + 1) xs) ≤ n → take (n + 1) xs ≡ xs
take_more n xs h = take_all (n + 1) xs (omega (arith, h, length-take (n + 1) xs))

abbrev pub is_there : Option (List ℕ) → Bool
is_there none = false
is_there (some bytes) = true

module _ {D : Type 0} {disk : Disk D} {content : D → String → Option (List ℕ)}
    (law : IsDisk disk content) where
  -- What `Put` leaves under its key once the file was opened.
  abbrev Settled : String → Stream → AttachmentResult ℕ × D → Type 0
  Settled k r (ok n, d) = content d k ≡ some r.bytes
  Settled k r (err e, d) = (content d k ≡ none) ⊎ IsRefused disk content k d

  Kept-Settled :
      (k : String) (r : Stream) (before : Option (List ℕ)) (x : AttachmentResult ℕ × D)
      → Settled k r x
      → IsKept disk content k r before x
  Kept-Settled k r before (ok n, d) h = h
  Kept-Settled k r before (err e, d) (inl gone) = inl gone
  Kept-Settled k r before (err e, d) (inr bad) = inr (inr bad)

  after_close-Settled :
      (k : String) (r : Stream) (n : ℕ) (x : Option Foreign × D)
      → content x.1 k ≡ some r.bytes
      → Settled k r (after_close disk k n x)
  unfolding after_close
  after_close-Settled k r n (some e, d) h = remove_gone law k d
  after_close-Settled k r n (none, d) h = h

  after_copy-Settled :
      (k : String) (r : Stream) (max_bytes : ℕ) (x : (ℕ × Option Foreign) × D)
      → (x.0.1 ≡ none
          → (content x.1 k ≡ some (take (max_bytes + 1) r.bytes))
            × (x.0.0 ≡ length (take (max_bytes + 1) r.bytes)))
      → Settled k r (after_copy disk k max_bytes x)
  unfolding after_copy
  after_copy-Settled k r max_bytes ((n, some e), d) h = cleanup_gone law k d
  after_copy-Settled k r max_bytes ((n, none), d) h =
      let (there, size) = h refl in
      elim (Bool-cases (ltb max_bytes n)) [
        | inl over ↦ rw over (cleanup_gone law k d)
        | inr fits ↦
            let whole = take_more max_bytes r.bytes (ground (arith, size)) in
            rw fits (
              after_close-Settled k r n (disk.close k d)
                (law.close_keeps k d ∙ there ∙ ap some whole))
      ]

  after_create-Settled :
      (k : String) (r : Stream) (max_bytes : ℕ) (before : Option (List ℕ)) (x : Option Foreign × D)
      → (x.0 ≡ none → content x.1 k ≡ some [])
      → ((e : Foreign) → x.0 ≡ some e → content x.1 k ≡ before)
      → IsKept disk content k r before (after_create disk k r max_bytes x)
  unfolding after_create limit_reader
  after_create-Settled k r max_bytes before (some e, d) opened failed = inr (inl (failed e refl))
  after_create-Settled k r max_bytes before (none, d) opened failed =
      let reader = limit_reader (max_bytes + 1) r in
      Kept-Settled k r before (after_copy disk k max_bytes (disk.copy k reader d)) (
        after_copy-Settled k r max_bytes (disk.copy k reader d)
          (law.copy_ok k reader d (opened refl)))

  put-Kept :
      (k : String) (r : Stream) (max_bytes : ℕ) (d : D)
      → IsKept disk content k r (content d k) (put disk none k r max_bytes d)
  unfolding put
  put-Kept k r max_bytes d =
      after_create-Settled k r max_bytes (content d k) (disk.create k d) (law.create_ok k d)
        (law.create_err k d)

  put_outcome :
      (c : Context) (k : String) (r : Stream) (max_bytes : ℕ) (d : D)
      → IsKept disk content k r (content d k) (put disk c k r max_bytes d)
  unfolding put
  put_outcome none k r max_bytes d = put-Kept k r max_bytes d
  put_outcome (some e) k r max_bytes d = inr (inl refl)

  deleted_state : (x : AttachmentResult (Unit {0}) × D) → (deleted disk x).1 ≡ x.1
  deleted_state (ok _, d) = refl
  deleted_state (err e, d) = refl

  Kept-ok :
      (k : String) (r : Stream) (before : Option (List ℕ)) (n : ℕ) (x : AttachmentResult ℕ × D)
      → IsKept disk content k r before x
      → x.0 ≡ ok n
      → content x.1 k ≡ some r.bytes
  Kept-ok k r before n (ok m, d) h e = h
  Kept-ok k r before n (err x, d) h e = absurd (cc e)

  refused_put :
      (e : Foreign) (k : String) (r : Stream) (n size : ℕ) (d : D)
      → (put disk (some e) k r n d).0 ≢ ok size
  unfolding put
  refused_put e k r n size d h = cc

  put-open_blob :
      (c : Context) (k : String) (r : Stream) (n size : ℕ) (d : D)
      → (put disk c k r n d).0 ≡ ok size
      → open_blob disk c k (put disk c k r n d).1 ≡ (ok r.bytes, (put disk c k r n d).1)
  unfolding open_blob
  put-open_blob (some e) k r n size d h = absurd (refused_put e k r n size d h)
  put-open_blob none k r n size d h =
      let after = (put disk none k r n d).1 in
      let there =
        law.read_is k after
        ∙ Kept-ok k r (content d k) size (put disk none k r n d) (put_outcome none k r n d) h in
      rw there refl

  deleted_result :
      (x : AttachmentResult (Unit {0}) × D) (e : Foreign)
      → x.0 ≡ err (foreign e)
      → (deleted disk x).0 ≢ ok tt
  deleted_result (ok _, d) e h = cc
  deleted_result (err f, d) e h = λ g. cc

  delete_outcome :
      (c : Context) (k : String) (d : D)
      → (delete disk c k d).0 ≡ ok tt
      → content (delete disk c k d).1 k ≡ none
  unfolding delete
  delete_outcome none k d h = elim (remove_outcome law k d) [
    | inl gone ↦ rw (deleted_state (remove disk k d)) gone
    | inr (bad, (e, f)) ↦ absurd (deleted_result (remove disk k d) e f h)
  ]
  delete_outcome (some e) k d h = cc

  -- Suppose that of the directory: a file that was opened is empty, a copy that succeeds writes all
  -- that its reader gives, closing changes no content, reading gives it, a name that does not resolve
  -- has no file, and a removal that is not refused leaves none. Then a write of the store of blobs
  -- that succeeds leaves its blob, a deletion that succeeds removes it, and what was written can be
  -- read back: what the theorems on Upload and Download suppose. A write that fails leaves nothing
  -- under its name, or what was there before, or what os.Remove has just refused to remove.
  pub fs_blob_store-StoresBlobs :
      StoresBlobs (fs_blob_store disk) (λ d k. is_there (content d k))
      × ReadsBack (fs_blob_store disk)
      × ((c : Context) (k : String) (r : Stream) (n : ℕ) (d : D)
          → IsKept disk content k r (content d k) ((fs_blob_store disk).put c k r n d))
  unfolding fs_blob_store
  fs_blob_store-StoresBlobs = (
    record {
      put_ok = λ c k r n size d h.
          ap is_there
            (Kept-ok k r (content d k) size (put disk c k r n d) (put_outcome c k r n d) h);
      delete_gone = λ c k d h. ap is_there (delete_outcome c k d h);
    },
    put-open_blob,
    put_outcome,
  )
