-- ===== src/Attachment/Handler/Hidden.antt =====
-- internal/attachment/handler.go: a client cannot tell the attachment of another user from none.
use task_api.Common.{
  String, ◌≡◌, refl, inl, inr, ◌⊎◌, true, false, none, some, arith, Bool-cases, ap,
}
use task_api.Common.Failure.{ok, err, sentinel, wrapped, is}
use task_api.Common.Uuid.{is_valid_id}
use task_api.Attachment.Entity.{Attachment, AttachmentError, not_found, attachment_sentinels}
use task_api.Attachment.Repository.{BlobStore, TaskOwnership}
use task_api.Attachment.Memory.{Store, memory_repository, find_key, find_by_storage_key, delete}
use task_api.Attachment.Service.{download, delete_attachment}
use task_api.Attachment.Handler.{
  Body, text, write_error, handle_service_error, handle_delete, handle_download,
}
use task_api.Web.{Reply, Request}
use task_api.Web.Json.{reply}

-- The answer to a key that is nobody's.
abbrev pub no_attachment : Reply Body
no_attachment = reply (write_error 404 (text "attachment not found"))

module _ {Bl : Type 0} (blobs : BlobStore Bl) (owns_task : TaskOwnership) where
  -- The key is nobody's, or that of an attachment on a task that the user does not own.
  abbrev pub IsHidden : String → String → Store → Type 0
  IsHidden key u s =
      (find_key key s ≡ none)
      ⊎ ((found : String × Attachment) × (find_key key s ≡ some found)
          × (owns_task none found.1.task_id u ≡ ok false))

  download_hidden :
      (key u : String) (s : Store) (b : Bl)
      → IsHidden key u s
      → (e : AttachmentError) × (is e not_found ≡ true)
        × (download (memory_repository owns_task) blobs none u key (s, b) ≡ (err e, (s, b)))
  unfolding download memory_repository find_by_storage_key is
  download_hidden key u s b (inl absent) = elim (Bool-cases (is_valid_id key)) [
    | inl v ↦ (wrapped (sentinel not_found), refl, ground arith)
    | inr v ↦ (sentinel not_found, refl, ground arith)
  ]
  download_hidden key u s b (inr (found, there, foreign)) = elim (Bool-cases (is_valid_id key)) [
    | inl v ↦ (wrapped (sentinel not_found), refl, ground arith)
    | inr v ↦ (sentinel not_found, refl, ground arith)
  ]

  delete_hidden :
      (key u : String) (s : Store) (b : Bl)
      → IsHidden key u s
      → (e : AttachmentError) × (is e not_found ≡ true)
        × (delete_attachment (memory_repository owns_task) blobs none u key (s, b)
            ≡ (err e, (s, b)))
  unfolding delete_attachment memory_repository delete is
  delete_hidden key u s b (inl absent) = elim (Bool-cases (is_valid_id key)) [
    | inl v ↦ (wrapped (sentinel not_found), refl, ground arith)
    | inr v ↦ (sentinel not_found, refl, ground arith)
  ]
  delete_hidden key u s b (inr (found, there, foreign)) = elim (Bool-cases (is_valid_id key)) [
    | inl v ↦ (wrapped (sentinel not_found), refl, ground arith)
    | inr v ↦ (sentinel not_found, refl, ground arith)
  ]

  not_found_answer :
      (e : AttachmentError) → is e not_found ≡ true → reply (handle_service_error e) ≡ no_attachment
  unfolding handle_service_error
  not_found_answer e h = rw h refl

  -- Over the in-memory repository and with a live context, GET and DELETE of a key answer one and the
  -- same 404 whether no attachment has the key or its attachment is on a task that the user does not
  -- own, and neither a row nor a blob is touched.
  pub handle_download_hidden :
      (format : String → String) (key u : String) (r : Request) (s : Store) (b : Bl)
      → r.user_id ≡ some u
      → IsHidden key u s
      → (handle_download (memory_repository owns_task) blobs none format key r (s, b)
          ≡ (no_attachment, (s, b)))
        × (handle_delete (memory_repository owns_task) blobs none key r (s, b)
            ≡ (no_attachment, (s, b)))
  unfolding handle_download handle_delete
  handle_download_hidden format key u r s b user hidden =
      let (e, is_e, got) = download_hidden key u s b hidden in
      let (f, is_f, gone) = delete_hidden key u s b hidden in
      rw user (
        rw got (ap (λ x. (x, (s, b))) (not_found_answer e is_e)),
        rw gone (ap (λ x. (x, (s, b))) (not_found_answer f is_f)),
      )
