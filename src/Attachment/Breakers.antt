-- ===== src/Attachment/Breakers.antt =====
-- internal/attachment/postgres_breaker.go and s3_breaker.go: the repository and the store of blobs
-- behind circuit breakers.
use task_api.Common.{
  ℕ, ◌*◌, Bool, true, false, ◌||◌, leb, str_eq, String, Option, none, some, if◌then◌else◌,
}
use task_api.Common.Breaker.{Breaker, guarded}
use task_api.Common.Failure.{is}
use task_api.Attachment.Entity.{
  AttachmentError, Sentinel, not_found, too_large, attachment_sentinels,
}
use task_api.Attachment.Repository.{Repository, BlobStore, RepoAction}

module _ {B St : Type 0} (next : Repository St) (b : Breaker Sentinel B) (retry_after : ℕ) where
  -- `NewBreakerRepository`: each method whole, behind one call of the breaker.
  unfoldable pub breaker_repository : Repository (B × St)
  unfolding guarded
  breaker_repository = record {
    create = λ c a u. guarded b retry_after (next.create c a u);
    find_by_storage_key = λ c key u. guarded b retry_after (next.find_by_storage_key c key u);
    find_by_task = λ c task u. guarded b retry_after (next.find_by_task c task u);
    delete = λ c key u. guarded b retry_after (next.delete c key u);
    total_bytes_for_user = λ c u. guarded b retry_after (next.total_bytes_for_user c u);
    count_by_task = λ c task u. guarded b retry_after (next.count_by_task c task u);
    unreferenced_keys = λ c keys. guarded b retry_after (next.unreferenced_keys c keys);
  }

-- `s3BreakerOpenTimeout`
abbrev pub s3_breaker_open_timeout : ℕ
s3_breaker_open_timeout = 30 * 1_000_000_000

module _ {R L Bl : Type 0} where
  -- A call behind the breaker of the requests, and one behind the breaker of the sweep.
  abbrev pub behind_rw : {A : Type 0} → RepoAction (R × Bl) A → RepoAction ((R × L) × Bl) A
  behind_rw m ((rw_state, list_state), b) =
      let (r, (rw_state', c)) = m (rw_state, b) in (r, ((rw_state', list_state), c))

  abbrev pub behind_list : {A : Type 0} → RepoAction (L × Bl) A → RepoAction ((R × L) × Bl) A
  behind_list m ((rw_state, list_state), b) =
      let (r, (list_state', c)) = m (list_state, b) in (r, ((rw_state, list_state'), c))

-- `NewBreakerBlobStore`: `request` is the breaker of Put, Delete and Open, `sweep` that of List.
module _ {R L Bl : Type 0} (next : BlobStore Bl) (request : Breaker Sentinel R)
    (sweep : Breaker Sentinel L) where
  unfoldable pub breaker_blob_store : BlobStore ((R × L) × Bl)
  unfolding guarded
  breaker_blob_store = record {
    put = λ c key r n. behind_rw (guarded request s3_breaker_open_timeout (next.put c key r n));
    open_blob = λ c key. behind_rw (guarded request s3_breaker_open_timeout (next.open_blob c key));
    list = λ c. behind_list (guarded sweep s3_breaker_open_timeout (next.list c));
    delete = λ c key. behind_rw (guarded request s3_breaker_open_timeout (next.delete c key));
  }

-- What minio.ToErrorResponse gives for an error.
pub record S3Response : Type 0 where
  pub status_code : ℕ
  pub code : String

-- `isS3BreakerFailure`. Whether an error is the deadline of a context or one of the network, and what
-- it is as an answer of S3, are up to the libraries.
unfoldable pub is_s3_breaker_failure :
    (AttachmentError → Bool)
    → (AttachmentError → Bool)
    → (AttachmentError → S3Response)
    → Option AttachmentError
    → Bool
unfolding is
is_s3_breaker_failure deadline network response none = false
is_s3_breaker_failure deadline network response (some e) =
    let resp = response e in
    if is e not_found || is e too_large
    then false
    else if deadline e
    then true
    else if network e
    then true
    else if leb 500 resp.status_code
    then true
    else str_eq resp.code "SlowDown"
      || str_eq resp.code "ServiceUnavailable"
      || str_eq resp.code "InternalError"
