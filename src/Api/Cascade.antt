-- ===== src/Api/Cascade.antt =====
-- cmd/api/main.go: deleteAccountCascade, over any repositories. Its error is only logged, so that it
-- is left out here but for its being there. Without attachments there is no store of them.
pub mod Tasks
pub mod Empties
use task_api.Common.{
  String, Bool, true, false, not, Option, none, some, List, [], ◌∷◌, if◌then◌else◌,
}
use task_api.Common.Failure.{Context, Result, ok, err}
use task_api.Common.Int.{negsuc}
use task_api.Task.Entity.{Task, TaskResult}
use task_api.Task.Repository.{Repository as TaskRepository}
use task_api.Task.Service.{list_tasks, delete_task}
use task_api.Attachment.Entity.{Attachment, AttachmentResult}
use task_api.Attachment.Repository.{Repository as AttachmentRepository, BlobStore}
use task_api.Attachment.Service.{list_by_task, delete_attachment}
use task_api.Common.{ℕ}

-- The service of the attachments, where they are enabled.
pub record Files (Sa Bl : Type 0) : Type 0 where
  pub rows : AttachmentRepository Sa
  pub blobs : BlobStore Bl

module _ {Sa Bl : Type 0} (files : Option (Files Sa Bl)) (ctx : Context) (user_id : String) where
  -- The loop over the attachments of a task.
  unfoldable pub delete_files : Files Sa Bl → List Attachment → Sa × Bl → Bool × (Sa × Bl)
  delete_files svc [] f = (true, f)
  delete_files svc (a ∷ atts) f =
      let (r, g) = delete_attachment svc.rows svc.blobs ctx user_id a.storage_key f in
      let rest = delete_files svc atts g in elim r [ err e ↦ (false, g) | ok _ ↦ rest ]

  abbrev pub after_list :
      Files Sa Bl → AttachmentResult (List Attachment) × (Sa × Bl) → Bool × (Sa × Bl)
  after_list svc (err e, f) = (false, f)
  after_list svc (ok atts, f) = delete_files svc atts f

  -- What is done for a task before it is deleted.
  unfoldable pub delete_files_of : String → Sa × Bl → Bool × (Sa × Bl)
  unfolding delete_files
  delete_files_of task_id f = elim files [
    | none ↦ (true, f)
    | some svc ↦ after_list svc (list_by_task svc.rows svc.blobs ctx user_id task_id f)
  ]

  module _ {St : Type 0} (tasks : TaskRepository St) where
    -- The loop over the tasks.
    unfoldable pub delete_tasks : List Task → St × (Sa × Bl) → Bool × (St × (Sa × Bl))
    unfolding delete_files_of
    delete_tasks [] w = (true, w)
    delete_tasks (t ∷ ts) (s, f) =
        let (emptied, g) = delete_files_of t.id f in
        let (r, s') = delete_task tasks ctx user_id t.id s in
        let rest = delete_tasks ts (s', g) in
        if not emptied then (false, (s, g)) else elim r [ err e ↦ (false, (s', g)) | ok _ ↦ rest ]

    abbrev pub after_tasks : Sa × Bl → TaskResult (List Task × ℕ) × St → Bool × (St × (Sa × Bl))
    after_tasks f (err e, s) = (false, (s, f))
    after_tasks f (ok (ts, total), s) = delete_tasks ts (s, f)

    unfoldable pub delete_account_cascade : St × (Sa × Bl) → Bool × (St × (Sa × Bl))
    unfolding delete_tasks
    delete_account_cascade (s, f) =
        after_tasks f (list_tasks tasks ctx user_id (negsuc 0) 0 [] [] s)
