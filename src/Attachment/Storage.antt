-- ===== src/Attachment/Storage.antt =====
-- internal/attachment/storage.go: the store of blobs in a directory. pathguard's Guard and the os
-- package are parameters on the state `D` of the directory.
pub mod Leftovers
pub mod Promise
use task_api.Common.{
  ℕ, ◌+◌, String, Bool, Option, none, some, List, [], ◌∷◌, length, take, ltb, leb, if◌then◌else◌,
}
use task_api.Common.Failure.{
  Context, Foreign, Result, ok, err, sentinel, wrapped, foreign, while_live,
}
use task_api.Attachment.Entity.{AttachmentResult, BlobRef, not_found, too_large}
use task_api.Attachment.Repository.{BlobStore, RepoAction, Stream}

-- How os.Remove ends: done, `os.ErrNotExist`, or another error.
pub data Removal : Type 0 where
  removed not_there : Removal
  refused : Foreign → Removal

-- What `entry.Info()` gives: the time of the last change, `os.ErrNotExist`, or another error.
pub data Info : Type 0 where
  changed_at : ℕ → Info
  vanished : Info
  unreadable : Foreign → Info

pub record Entry : Type 0 where
  pub name : String
  pub is_dir : Bool
  pub info : Info

-- `create` is Guard.Create, and `copy` is io.Copy from a reader into the file that it opened, with
-- the number of bytes written; `close` is its Close. `read` is what Guard.Open and then reading give,
-- `resolve` is Guard.Resolve, `remove` os.Remove, `read_dir` os.ReadDir.
pub record Disk (D : Type 0) : Type 0 where
  pub create : String → D → Option Foreign × D
  pub copy : String → Stream → D → (ℕ × Option Foreign) × D
  pub close : String → D → Option Foreign × D
  pub read : String → D → Option (List ℕ)
  pub resolve : String → D → Option String
  pub remove : String → D → Removal × D
  pub read_dir : D → Option Foreign × List Entry

-- `io.LimitReader`
unfoldable pub limit_reader : ℕ → Stream → Stream
limit_reader n r = record {
  bytes = take n r.bytes;
  broken = if leb n (length r.bytes) then none else r.broken;
}

-- The loop over the entries of the directory.
unfoldable pub blob_refs : List Entry → AttachmentResult (List BlobRef)
blob_refs [] = ok []
blob_refs (entry ∷ entries) =
    let rest = blob_refs entries in
    if entry.is_dir then rest else elim entry.info [
      | vanished ↦ rest
      | unreadable e ↦ err (wrapped (foreign e))
      | changed_at t ↦ elim rest [
        | err e ↦ err e
        | ok refs ↦ ok (record { key = entry.name; mod_time = t } ∷ refs)
      ]
    ]

module _ {D : Type 0} (disk : Disk D) where
  abbrev pub removal : Removal × D → AttachmentResult (Unit {0}) × D
  removal (removed, d) = (ok tt, d)
  removal (not_there, d) = (ok tt, d)
  removal (refused e, d) = (err (foreign e), d)

  abbrev pub remove_at : Option String → D → AttachmentResult (Unit {0}) × D
  remove_at none d = (ok tt, d)
  remove_at (some path) d = removal (disk.remove path d)

  -- `remove`
  unfoldable pub remove : String → D → AttachmentResult (Unit {0}) × D
  remove key d = remove_at (disk.resolve key d) d

  -- `cleanup`
  unfoldable pub cleanup : String → D → D
  unfolding remove
  cleanup key d = (remove key (disk.close key d).1).1

  -- `Put` from what Close gave, and from what io.Copy gave.
  unfoldable pub after_close : String → ℕ → Option Foreign × D → AttachmentResult ℕ × D
  unfolding remove
  after_close key n (some e, d) = (err (wrapped (foreign e)), (remove key d).1)
  after_close key n (none, d) = (ok n, d)

  unfoldable pub after_copy : String → ℕ → (ℕ × Option Foreign) × D → AttachmentResult ℕ × D
  unfolding cleanup after_close
  after_copy key max_bytes ((n, some e), d) = (err (wrapped (foreign e)), cleanup key d)
  after_copy key max_bytes ((n, none), d) =
      if ltb max_bytes n
      then (err (sentinel too_large), cleanup key d)
      else after_close key n (disk.close key d)

  -- `Put` from what Create gave.
  unfoldable pub after_create : String → Stream → ℕ → Option Foreign × D → AttachmentResult ℕ × D
  unfolding after_copy limit_reader
  after_create key r max_bytes (some e, d) = (err (wrapped (foreign e)), d)
  after_create key r max_bytes (none, d) =
      after_copy key max_bytes (disk.copy key (limit_reader (max_bytes + 1) r) d)

  unfoldable pub put : Context → String → Stream → ℕ → RepoAction D ℕ
  unfolding after_create
  put ctx key r max_bytes = while_live ctx λ d. after_create key r max_bytes (disk.create key d)

  unfoldable pub open_blob : Context → String → RepoAction D (List ℕ)
  open_blob ctx key = while_live ctx λ d.
      (elim (disk.read key d) [ none ↦ err (sentinel not_found) | some content ↦ ok content ], d)

  abbrev pub deleted : AttachmentResult (Unit {0}) × D → AttachmentResult (Unit {0}) × D
  deleted (ok _, d) = (ok tt, d)
  deleted (err e, d) = (err (wrapped e), d)

  unfoldable pub delete : Context → String → RepoAction D (Unit {0})
  unfolding remove
  delete ctx key = while_live ctx λ d. deleted (remove key d)

  unfoldable pub list : Context → RepoAction D (List BlobRef)
  unfolding blob_refs
  list ctx = while_live ctx λ d. (
    elim (disk.read_dir d).0 [
      | some e ↦ err (wrapped (foreign e))
      | none ↦ blob_refs (disk.read_dir d).1
    ],
    d,
  )

  -- `NewFSBlobStore`
  unfoldable pub fs_blob_store : BlobStore D
  unfolding put open_blob delete list
  fs_blob_store = record { put = put; open_blob = open_blob; list = list; delete = delete }
