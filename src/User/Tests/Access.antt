-- ===== src/User/Tests/Access.antt =====
-- The theorems on internal/user/middleware.go at inputs that meet their hypotheses.
use task_api.Common.{ℕ, String, ◌≡◌, refl, ◌≢◌, none, some, [], str_eq, str_eq_iff}
use task_api.Common.Dict.{lookup}
use task_api.Common.Uuid.{hex_encode}
use task_api.Common.Breaker.{Breaker, opened}
use task_api.User.Entity.{Sentinel}
use task_api.User.Memory.{Store, memory_repository, find_session_by_token_hash}
use task_api.User.TokenCache.{get}
use task_api.User.Breaker.{breaker_repository}
use task_api.User.Service.{Process, hash_token, validate_token}
use task_api.User.Service.Revocation.{Gone}
use task_api.User.Auth.{Credentials, credential_source, answered, passed, require_auth}
use task_api.User.Auth.Outage.{Vouched, require_auth_passed, require_auth_outage}
use task_api.User.Tests.{libs, process}

abbrev bearer_request : Credentials
bearer_request = record { authorization = "Bearer a"; cookie = some "bb" }

abbrev cookie_request : Credentials
cookie_request = record { authorization = "Basic a"; cookie = some "ccc" }

passes :
    (require_auth libs memory_repository none (λ _. 7) bearer_request process).0 ≡ passed "ann" "a"
unfolding require_auth validate_token memory_repository find_session_by_token_hash get lookup
    hash_token hex_encode str_eq
passes = refl

abbrev first_token : String
first_token = "a"

require_auth_passed_example :
    (first_token ≡ (credential_source bearer_request).1)
    × (first_token ≢ "")
    × Vouched libs (λ _. 7) (hash_token libs "a") "ann" process
require_auth_passed_example =
    require_auth_passed libs (λ _. 7) bearer_request process "ann" "a" passes

never_stored : Gone (hash_token libs (credential_source cookie_request).1) process
unfolding lookup str_eq hash_token hex_encode credential_source
never_stored = (refl, refl)

-- A breaker that stays open.
abbrev open_breaker : Breaker Sentinel ℕ
open_breaker = record { enter = λ n. (some opened, n); leave = λ e n. n }

abbrev behind_breaker : Process (ℕ × Store)
behind_breaker = record {
  stored = (0, process.stored);
  tokens = process.tokens;
  backoff = [];
  slept = [];
}

has_token : (credential_source bearer_request).1 ≢ ""
unfolding credential_source str_eq
has_token e = cc ((str_eq_iff (credential_source bearer_request).1 "").1 e)

not_cached :
    get 7 (hash_token libs (credential_source bearer_request).1) behind_breaker.tokens ≡ none
unfolding credential_source get lookup hash_token hex_encode str_eq
not_cached = refl

require_auth_outage_example :
    let (v, q) =
      require_auth libs
        (breaker_repository memory_repository open_breaker 30)
        none
        (λ _. 7)
        bearer_request
        behind_breaker in
    (v ≡ answered 503) × (q.stored.1 ≡ behind_breaker.stored.1) × (q.tokens ≡ behind_breaker.tokens)
require_auth_outage_example =
    require_auth_outage libs memory_repository open_breaker 30 none (λ _. 7) bearer_request
      behind_breaker opened has_token not_cached refl
