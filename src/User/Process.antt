-- ===== src/User/Process.antt =====
-- internal/user/service.go: the service with its state, its libraries and its pure helpers.
use Prim.Native.Char.{Char}
use Prim.Native.String.{◌++◌}
use task_api.Common.{ℕ, String, Bool, not, Option, List, [], if◌then◌else◌}
use task_api.Common.Text.{trim_space, to_lower}
use task_api.Common.Uuid.{hex_encode}
use task_api.Common.Failure.{Action, ok, err, sentinel, wrapped}
use task_api.User.Entity.{Sentinel, invalid_input, UserResult, user_sentinels}
use task_api.User.Repository.{RepoAction}
use task_api.User.TokenCache.{
  TokenCache, get, set, forget, delete_all_for_user, delete_all_for_user_except,
}
use task_api.User.TokenCache
use task_api.User.Backoff.{Backoff, delay, record_failure, record_success}
use task_api.User.Backoff

abbrev pub max_email_len : ℕ
max_email_len = 320

abbrev pub session_id_prefix : String
session_id_prefix = "session-id-v1:"

abbrev pub session_token_bytes : ℕ
session_token_bytes = 32

-- `generate` is bcrypt.GenerateFromPassword with the salt that it drew, `matches` says that
-- bcrypt.CompareHashAndPassword gives no error, and `accepts_email n` that the rules Required, Email
-- and MaxLen(n) pass.
pub record Libraries : Type 0 where
  pub generate : ℕ → String → Option String
  pub matches : String → String → Bool
  pub sha256 : String → ℕ → ℕ
  pub lower : Char → Char
  pub accepts_email : ℕ → String → Bool

pub record Config : Type 0 where
  pub session_ttl : ℕ
  pub max_sessions_per_user : ℕ

-- `Service` with what its repository holds. `slept` lists the delays handed to `s.sleep`, the latest
-- first.
pub record Process (St : Type 0) : Type 0 where
  pub stored : St
  pub tokens : TokenCache
  pub backoff : Backoff
  pub slept : List ℕ

abbrev pub ServiceAction : Type 0 → Type 0 → Type 0
ServiceAction St = Action Sentinel (Process St)

module _ {St : Type 0} where
  -- A call of the repository.
  abbrev pub ask : {A : Type 0} → RepoAction St A → ServiceAction St A
  ask m p = let (r, t) = m p.stored in (r, record p { stored = t })

  -- A change of the token cache.
  abbrev pub on_tokens : (TokenCache → TokenCache) → ServiceAction St (Unit {0})
  on_tokens f p = (ok tt, record p { tokens = f p.tokens })

module _ (libs : Libraries) where
  unfoldable pub hash_token : String → String
  hash_token token = hex_encode 32 (libs.sha256 token) 0

  unfoldable pub normalize_email : String → String
  normalize_email email = to_lower libs.lower (trim_space email)

  unfoldable pub validate_email : String → UserResult String
  unfolding normalize_email
  validate_email raw =
      let email = normalize_email raw in
      if not (libs.accepts_email max_email_len email)
      then err (wrapped (sentinel invalid_input))
      else ok email

  unfoldable pub derive_session_id : String → String
  derive_session_id token_hash = hex_encode 32 (libs.sha256 (session_id_prefix ++ token_hash)) 0

-- `SessionInfo`
pub record SessionInfo : Type 0 where
  pub id : String
  pub created_at : ℕ
  pub expires_at : ℕ
  pub is_current : Bool

-- `NewService`: nothing cached, no failures on record.
abbrev pub new_process : {St : Type 0} → St → Process St
new_process s = record {
  stored = s;
  tokens = TokenCache.new_token_cache TokenCache.token_cache_ttl;
  backoff = Backoff.new_login_backoff;
  slept = [];
}
