-- ===== src/Attachment/Collector.antt =====
-- internal/attachment/service.go: CollectOrphans, over any repository and any store of blobs.
pub mod Safety
use task_api.Common.{ℕ, ◌+◌, ◌-◌, String, List, [], ◌∷◌, ltb, ◌==◌, if◌then◌else◌, length}
use task_api.Common.Failure.{Context, ok, err, sentinel, wrapped}
use task_api.Attachment.Entity.{AttachmentResult, BlobRef, invalid_input}
use task_api.Attachment.Repository.{Repository, BlobStore}

-- The loop over the listing: the keys of the blobs that are older than the cutoff.
unfoldable pub candidates : ℕ → List BlobRef → List String
candidates cutoff [] = []
candidates cutoff (ref ∷ refs) =
    if ltb ref.mod_time cutoff then ref.key ∷ candidates cutoff refs else candidates cutoff refs

module _ {Bl : Type 0} (blobs : BlobStore Bl) where
  -- The loop over the orphans. Beside the error, the count of what was deleted is returned.
  unfoldable pub delete_orphans :
      Context → ℕ → List String → Bl → (ℕ × AttachmentResult (Unit {0})) × Bl
  delete_orphans ctx deleted [] b = ((deleted, ok tt), b)
  delete_orphans ctx deleted (key ∷ keys) b =
      let (r, c) = blobs.delete ctx key b in
      let rest = delete_orphans ctx (deleted + 1) keys c in
      elim r [ err e ↦ ((deleted, err (wrapped e)), c) | ok _ ↦ rest ]

module _ {St Bl : Type 0} (repo : Repository St) (blobs : BlobStore Bl) where
  unfoldable pub collect_orphans :
      Context → ℕ → ℕ → St × Bl → (ℕ × AttachmentResult (Unit {0})) × (St × Bl)
  unfolding candidates delete_orphans
  collect_orphans ctx now min_age (s, b) =
      let (listed, c) = blobs.list ctx b in
      if min_age == 0 then ((0, err (wrapped (sentinel invalid_input))), (s, b)) else elim listed [
        | err e ↦ ((0, err (wrapped e)), (s, c))
        | ok refs ↦
            let old = candidates (now - min_age) refs in
            let (found, t) = repo.unreferenced_keys ctx old s in
            if length old == 0 then ((0, ok tt), (s, c)) else elim found [
              | err e ↦ ((0, err (wrapped e)), (t, c))
              | ok orphans ↦
                  let (outcome, d) = delete_orphans blobs ctx 0 orphans c in (outcome, (t, d))
            ]
      ]
