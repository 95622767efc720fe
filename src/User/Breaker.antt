-- ===== src/User/Breaker.antt =====
-- internal/user/postgres_breaker.go: a repository behind a circuit breaker.
use task_api.Common.{ℕ}
use task_api.Common.Breaker.{Breaker, guarded}
use task_api.User.Entity.{Sentinel}
use task_api.User.Repository.{Repository}

module _ {B St : Type 0} (next : Repository St) (b : Breaker Sentinel B) (retry_after : ℕ) where
  -- `NewBreakerRepository`: each method whole, behind one call of the breaker.
  unfoldable pub breaker_repository : Repository (B × St)
  unfolding guarded
  breaker_repository = record {
    create_user = λ c u. guarded b retry_after (next.create_user c u);
    find_user_by_email = λ c email. guarded b retry_after (next.find_user_by_email c email);
    find_user_by_id = λ c id. guarded b retry_after (next.find_user_by_id c id);
    update_user_password =
        λ now c id hash. guarded b retry_after (next.update_user_password now c id hash);
    delete_user = λ c id. guarded b retry_after (next.delete_user c id);
    create_session = λ c s n. guarded b retry_after (next.create_session c s n);
    find_session_by_token_hash =
        λ c hash. guarded b retry_after (next.find_session_by_token_hash c hash);
    delete_session = λ c hash. guarded b retry_after (next.delete_session c hash);
    find_sessions_for_user = λ c u. guarded b retry_after (next.find_sessions_for_user c u);
    delete_sessions_for_user = λ c u. guarded b retry_after (next.delete_sessions_for_user c u);
    delete_sessions_for_user_except =
        λ c u keep. guarded b retry_after (next.delete_sessions_for_user_except c u keep);
    delete_expired_sessions = λ c now. guarded b retry_after (next.delete_expired_sessions c now);
  }
