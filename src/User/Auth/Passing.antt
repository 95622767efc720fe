-- ===== src/User/Auth/Passing.antt =====
-- internal/user/middleware.go: who has a session passes.
use task_api.Common.{ℕ, ◌≤◌, String, ◌≡◌, ◌≢◌, none, some, [], ◌∷◌, arith, Option, str_eq_iff, ap}
use task_api.Common.Dict.{lookup}
use task_api.Common.Failure.{Context, ok}
use task_api.User.Entity.{Session, user_sentinels}
use task_api.User.Repository.{Repository}
use task_api.User.Memory.{Store, memory_repository, find_session_by_token_hash}
use task_api.User.TokenCache.{get}
use task_api.User.Service.{Libraries, Process, hash_token, validate_token}
use task_api.User.Auth.{credential_source, passed, require_auth}
use task_api.User.Auth.Protect.{credentials, enforce, protect}
use task_api.Web.{Request, Handler, note_user}
use task_api.Web.Middleware.{before}

module _ (libs : Libraries) where
  validate_token_found :
      (clock : ℕ → ℕ) (token : String) (s : Session) (p : Process Store)
      → lookup (hash_token libs token) p.stored.sessions ≡ some s
      → lookup (hash_token libs token) p.tokens.entries ≡ none
      → clock 1 ≤ s.expires_at
      → (validate_token libs memory_repository none clock token p).0 ≡ ok s.user_id
  unfolding validate_token memory_repository find_session_by_token_hash get
  validate_token_found clock token s p h k live = ground arith

  pub require_auth_found :
      (clock : ℕ → ℕ) (cookie : Request → Option String) (r : Request) (token : String)
      (s : Session) (p : Process Store)
      → (credential_source (credentials cookie r)).1 ≡ token
      → token ≢ ""
      → lookup (hash_token libs token) p.stored.sessions ≡ some s
      → lookup (hash_token libs token) p.tokens.entries ≡ none
      → clock 1 ≤ s.expires_at
      → (require_auth libs memory_repository none clock (credentials cookie r) p).0
        ≡ passed s.user_id token
  unfolding require_auth
  require_auth_found clock cookie r token s p same full h k live =
      ground (arith, validate_token_found clock token s p h k live, str_eq_iff token "")

module _ {P St W : Type 0} (error_body : String → P) (libs : Libraries) (repo : Repository St) where
  -- A request that passes is handed on.
  pub protect_passed :
      (ctx : Context) (clock : ℕ → ℕ) (cookie : Request → Option String)
      (next : Handler P (Process St × W)) (r : Request) (u t : String) (p : Process St) (w : W)
      → (require_auth libs repo ctx clock (credentials cookie r) p).0 ≡ passed u t
      → protect error_body libs repo ctx clock cookie next r (p, w)
        ≡ before (note_user u ∷ []) (
            next
              (record r { user_id = some u; session_token = some t })
              ((require_auth libs repo ctx clock (credentials cookie r) p).1, w))
  unfolding protect enforce
  protect_passed ctx clock cookie next r u t p w e =
      let c = credentials cookie r in
      ap
        (λ v.
          enforce error_body next r (credential_source c).1 w
            (v, (require_auth libs repo ctx clock c p).1))
        e
