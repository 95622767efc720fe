-- ===== src/User/Auth/Outage.antt =====
-- internal/user/middleware.go: who passes, who does not, and what an outage answers.
use Prim.Native.String.{String}
use task_api.Common.{
  ℕ, ◌≤◌, ◌≡◌, refl, ◌≢◌, ◌⊎◌, inl, inr, none, some, arith, Option-cases, List, str_eq_iff,
  str_eq-cases,
}
use task_api.Common.Dict.{lookup}
use task_api.Common.Breaker.{
  Breaker, Rejection, opened, crowded, guarded, execute, translate_result, translate_breaker_error,
  is_rejection,
}
use task_api.Common.Failure.{Context, Result-cases, ok, is}
use task_api.User.Entity.{Session, Sentinel, user_sentinels}
use task_api.User.Repository.{Repository}
use task_api.User.Memory.{Store, memory_repository, find_session_by_token_hash}
use task_api.User.TokenCache.{Entry, get}
use task_api.User.Breaker.{breaker_repository}
use task_api.User.Service.{Libraries, Process, hash_token, validate_token}
use task_api.User.Service.Revocation.{IsUnique, Gone, serve_all, IssuesNone, validate_token-Gone}
use task_api.User.Service.Changes.{Request}
use task_api.User.Auth.{Credentials, credential_source, answered, passed, require_auth}

module _ (libs : Libraries) where
  -- The user has a stored session under the hash that has not expired, or a cached entry.
  abbrev pub Vouched : (ℕ → ℕ) → String → String → Process Store → Type 0
  Vouched clock k u p =
      ((s : Session) × (lookup k p.stored.sessions ≡ some s)
        × (s.user_id ≡ u)
        × (clock 1 ≤ s.expires_at))
      ⊎ ((e : Entry) × (lookup k p.tokens.entries ≡ some e)
          × (e.user_id ≡ u)
          × (clock 0 ≤ e.expires_at))

  validate_token_ok :
      (clock : ℕ → ℕ) (token u : String) (p : Process Store)
      → (validate_token libs memory_repository none clock token p).0 ≡ ok u
      → Vouched clock (hash_token libs token) u p
  unfolding validate_token memory_repository find_session_by_token_hash get
  validate_token_ok clock token u p h =
      let k = hash_token libs token in
      elim (Option-cases (get (clock 0) k p.tokens)) [
        | inr (v, g) ↦ elim (Option-cases (lookup k p.tokens.entries)) [
          | inl e ↦ ground arith
          | inr (x, e) ↦ inr (x, e, ground arith, ground arith)
        ]
        | inl g ↦ elim (Option-cases (lookup k p.stored.sessions)) [
          | inl e ↦ ground arith
          | inr (s, e) ↦ inl (s, e, ground arith, ground arith)
        ]
      ]

  -- Over the in-memory repository, a request with a live context passes only as the user of a
  -- stored session that has not expired, or of an entry of the token cache that has not, under the
  -- hash of the token that it carries; and that token is not empty.
  pub require_auth_passed :
      (clock : ℕ → ℕ) (request : Credentials) (p : Process Store) (u t : String)
      → (require_auth libs memory_repository none clock request p).0 ≡ passed u t
      → (t ≡ (credential_source request).1) × (t ≢ "") × Vouched clock (hash_token libs t) u p
  unfolding require_auth
  require_auth_passed clock request p u t h =
      let token = (credential_source request).1 in
      elim (Result-cases (validate_token libs memory_repository none clock token p).0) [
        | inr (x, e) ↦ ground arith
        | inl (v, e) ↦ elim (str_eq-cases token "") [
          | inl empty ↦ ground (arith, str_eq_iff token "")
          | inr full ↦
              let same : t ≡ token = ground arith in
              let user : v ≡ u = ground arith in
              rw same (
                refl,
                λ empty. ground (arith, str_eq_iff token ""),
                validate_token_ok clock token u p (rw (← user) e),
              )
        ]
      ]

  -- Over the in-memory repository, in a process whose two tables list no hash twice: a token that
  -- is neither stored nor cached is answered 401, after whatever calls, as long as none was a
  -- login that drew a token of the same hash. The context of the request is live.
  pub require_auth-Gone :
      (rs : List (Context × Request)) (clock : ℕ → ℕ) (request : Credentials) (p : Process Store)
      → IsUnique p
      → Gone (hash_token libs (credential_source request).1) p
      → IssuesNone libs (hash_token libs (credential_source request).1) rs
      → (require_auth libs memory_repository none clock request (serve_all libs rs p)).0
        ≡ answered 401
  unfolding require_auth is
  require_auth-Gone rs clock request p unique gone quiet =
      ground
        (arith, validate_token-Gone libs rs (credential_source request).1 clock p unique gone quiet)

  -- Over any repository behind a breaker, and while the breaker rejects calls: a request with a
  -- token that is not empty and not cached is answered 503 and never 401, and what is stored and
  -- cached stays as it is.
  pub require_auth_outage :
      {B St : Type 0} (next : Repository St) (b : Breaker Sentinel B) (d : ℕ) (c : Context)
      (clock : ℕ → ℕ) (request : Credentials) (p : Process (B × St)) (r : Rejection)
      → (credential_source request).1 ≢ ""
      → get (clock 0) (hash_token libs (credential_source request).1) p.tokens ≡ none
      → (b.enter p.stored.0).0 ≡ some r
      → let (v, q) = require_auth libs (breaker_repository next b d) c clock request p in
        (v ≡ answered 503) × (q.stored.1 ≡ p.stored.1) × (q.tokens ≡ p.tokens)
  unfolding require_auth validate_token breaker_repository guarded execute translate_result
      translate_breaker_error is_rejection is
  require_auth_outage next b d c clock request p opened present uncached down =
      ground (arith, str_eq_iff (credential_source request).1 "")
  require_auth_outage next b d c clock request p crowded present uncached down =
      ground (arith, str_eq_iff (credential_source request).1 "")
