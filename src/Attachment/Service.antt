-- ===== src/Attachment/Service.antt =====
-- internal/attachment/service.go: Download, Delete and ListByTask, over any repository and any store
-- of blobs.
pub mod Files
use task_api.Common.{ℕ, String, not, List, if◌then◌else◌}
use task_api.Common.Failure.{
  Context, Result, ok, err, sentinel, wrapped, pure, wrap, fail_if, ◌>>=◌, ◌>>◌,
}
use task_api.Common.Uuid.{is_valid_id}
use task_api.Attachment.Entity.{Attachment, Sentinel, not_found, task_not_found}
use task_api.Attachment.Repository.{Repository, BlobStore, RepoAction, rows, bytes, ignore}

module _ {St Bl : Type 0} (repo : Repository St) (blobs : BlobStore Bl) where
  unfoldable pub download : Context → String → String → RepoAction (St × Bl) (Attachment × List ℕ)
  download ctx user_id storage_key = do
    fail_if (not (is_valid_id storage_key)) (sentinel not_found)
    att ← wrap (rows (repo.find_by_storage_key ctx storage_key user_id))
    blob ← wrap (bytes (blobs.open_blob ctx att.storage_key))
    pure (att, blob)

  -- The row goes first; a blob that cannot be deleted is left to the collector of orphans.
  unfoldable pub delete_attachment : Context → String → String → RepoAction (St × Bl) (Unit {0})
  delete_attachment ctx user_id storage_key = do
    fail_if (not (is_valid_id storage_key)) (sentinel not_found)
    wrap (rows (repo.delete ctx storage_key user_id))
    ignore (bytes (blobs.delete ctx storage_key))

  unfoldable pub list_by_task : Context → String → String → RepoAction (St × Bl) (List Attachment)
  list_by_task ctx user_id task_id = do
    fail_if (not (is_valid_id task_id)) (sentinel task_not_found)
    wrap (rows (repo.find_by_task ctx task_id user_id))
