-- ===== src/Attachment/Repository.antt =====
-- internal/attachment/repository.go: the interface as a record of operations on a state `St`, and the
-- BlobStore of storage.go, on a state `Bl`.
use task_api.Common.{ℕ, String, Bool, Option, List}
use task_api.Common.Failure.{Action, Context, Foreign, ok}
use task_api.Attachment.Entity.{Attachment, AttachmentResult, BlobRef, Sentinel}

abbrev pub RepoAction : Type 0 → Type 0 → Type 0
RepoAction = Action Sentinel

-- `TaskOwnershipFunc`
abbrev pub TaskOwnership : Type 0
TaskOwnership = Context → String → String → AttachmentResult Bool

pub record Repository (St : Type 0) : Type 0 where
  pub create : Context → Attachment → String → RepoAction St (Unit {0})
  pub find_by_storage_key : Context → String → String → RepoAction St Attachment
  pub find_by_task : Context → String → String → RepoAction St (List Attachment)
  pub delete : Context → String → String → RepoAction St (Unit {0})
  pub total_bytes_for_user : Context → String → RepoAction St ℕ
  pub count_by_task : Context → String → String → RepoAction St ℕ
  pub unreferenced_keys : Context → List String → RepoAction St (List String)

-- What an `io.Reader` gives: bytes, then its end or an error.
pub record Stream : Type 0 where
  pub bytes : List ℕ
  pub broken : Option Foreign

-- `Open` gives the bytes that can be read.
pub record BlobStore (Bl : Type 0) : Type 0 where
  pub put : Context → String → Stream → ℕ → RepoAction Bl ℕ
  pub open_blob : Context → String → RepoAction Bl (List ℕ)
  pub list : Context → RepoAction Bl (List BlobRef)
  pub delete : Context → String → RepoAction Bl (Unit {0})

module _ {St Bl A : Type 0} where
  -- A call of the repository, and one of the store of blobs, on the state of both.
  abbrev pub rows : RepoAction St A → RepoAction (St × Bl) A
  rows m (s, b) = let (r, t) = m s in (r, (t, b))

  abbrev pub bytes : RepoAction Bl A → RepoAction (St × Bl) A
  bytes m (s, b) = let (r, c) = m b in (r, (s, c))

-- A call whose error is dropped.
abbrev pub ignore : {St A : Type 0} → RepoAction St A → RepoAction St (Unit {0})
ignore m s = (ok tt, (m s).1)
