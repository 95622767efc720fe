-- ===== src/Attachment/Entity.antt =====
-- internal/attachment/attachment.go, errors.go, and the error and the BlobRef of storage.go.
use task_api.Common.{ℕ, String, Bool, true, false}
use task_api.Common.Failure.{Sentinels, Error, Result}

-- Times are nanoseconds.
pub record Attachment : Type 0 where
  pub id : String
  pub task_id : String
  pub original_filename : String
  pub storage_key : String
  pub content_type : String
  pub size_bytes : ℕ
  pub created_at : ℕ

-- The sentinels of errors.go in their order, and `ErrTooLarge`.
pub data Sentinel : Type 0 where
  not_found task_not_found already_exists invalid_input : Sentinel
  dependency_unavailable unavailable too_large : Sentinel

abbrev pub sentinel_eq : Sentinel → Sentinel → Bool
sentinel_eq not_found not_found = true
sentinel_eq task_not_found task_not_found = true
sentinel_eq already_exists already_exists = true
sentinel_eq invalid_input invalid_input = true
sentinel_eq dependency_unavailable dependency_unavailable = true
sentinel_eq unavailable unavailable = true
sentinel_eq too_large too_large = true
sentinel_eq _ _ = false

instance abbrev pub attachment_sentinels : Sentinels Sentinel
attachment_sentinels = record { same = sentinel_eq; unavailable = unavailable }

abbrev pub AttachmentError : Type 0
AttachmentError = Error Sentinel

abbrev pub AttachmentResult : Type 0 → Type 0
AttachmentResult = Result Sentinel

pub record BlobRef : Type 0 where
  pub key : String
  pub mod_time : ℕ
