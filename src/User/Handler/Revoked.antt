-- ===== src/User/Handler/Revoked.antt =====
-- internal/user/handler.go behind internal/user/middleware.go: what a revoked token still reaches.
use task_api.Common.{
  ℕ, String, ◌≡◌, refl, Option, none, some, List, arith, Bool-cases, inl, inr, str_eq, ap,
}
use task_api.Common.Dict.{insert}
use task_api.Common.Failure.{Context, err, sentinel, wrapped, is}
use task_api.User.Entity.{not_found, user_sentinels}
use task_api.User.Memory.{Store, memory_repository, find_session_by_token_hash}
use task_api.User.TokenCache.{get}
use task_api.User.Service.{Libraries, Process, hash_token, validate_token}
use task_api.User.Service.Changes.{Request as Call}
use task_api.User.Service.Revocation.{IsUnique, Gone, serve_all, serve_all-Gone, IssuesNone}
use task_api.User.Auth.{Credentials, credential_source, answered, require_auth}
use task_api.User.Auth.Protect.{credentials, write_auth_error, enforce, protect}
use task_api.User.Answers.{Body, text, error_body}
use task_api.User.Handler.{Settings}
use task_api.User.Handler.Routes.{
  Route, post_register, post_login, get_csrf_token, post_password, post_logout, post_logout_all,
  get_me, delete_me, get_sessions, delete_session, route,
}
use task_api.Web.{Request, Handler, answer, status_of}
use task_api.Web.Json.{reply}
use task_api.Web.Middleware.{Middleware}

module _ (libs : Libraries) where
  validate_token_unknown :
      (clock : ℕ → ℕ) (token : String) (p : Process Store)
      → Gone (hash_token libs token) p
      → validate_token libs memory_repository none clock token p
        ≡ (err (wrapped (sentinel not_found)), p)
  unfolding validate_token memory_repository find_session_by_token_hash get
  validate_token_unknown clock token p (stored, cached) = ground arith

  require_auth_unknown :
      (clock : ℕ → ℕ) (c : Credentials) (p : Process Store)
      → Gone (hash_token libs (credential_source c).1) p
      → require_auth libs memory_repository none clock c p ≡ (answered 401, p)
  unfolding require_auth is
  require_auth_unknown clock c p gone =
      let refused = validate_token_unknown clock (credential_source c).1 p gone in
      elim (Bool-cases (str_eq (credential_source c).1 "")) [
        | inl empty ↦ rw empty refl
        | inr full ↦ rw (full, refused) refl
      ]

-- The message of the JSON envelope, as a body of the handler's.
abbrev pub envelope : String → Body
envelope message = error_body (text message)

-- The routes that `RegisterRoutes` wraps in requireAuth.
abbrev pub IsProtected : Route → Type 0
IsProtected (post_register now salt random body) = ⊥
IsProtected (post_login clock random body) = ⊥
IsProtected get_csrf_token = ⊥
IsProtected _ = Unit

refused_status :
    (token : String) → status_of (reply (write_auth_error envelope 401 token)) ≡ some 401
unfolding write_auth_error answer insert str_eq
refused_status token = refl

module _ {W : Type 0} (h : Settings W) (clock : ℕ → ℕ) (cookie : Request → Option String) where
  abbrev pub guard : Middleware Body (Process Store × W)
  guard = protect envelope h.libs memory_repository none clock cookie

  protect_unknown :
      (next : Handler Body (Process Store × W)) (r : Request) (p : Process Store) (w : W)
      → Gone (hash_token h.libs (credential_source (credentials cookie r)).1) p
      → guard next r (p, w) ≡ (
        reply (write_auth_error envelope 401 (credential_source (credentials cookie r)).1),
        (p, w),
      )
  unfolding protect enforce
  protect_unknown next r p w gone =
      let token = (credential_source (credentials cookie r)).1 in
      ap (enforce envelope next r token w)
        (require_auth_unknown h.libs clock (credentials cookie r) p gone)

  protected_unknown :
      (limit : Middleware Body (Process Store × W)) (q : Route) (r : Request) (p : Process Store)
      (w : W)
      → IsProtected q
      → Gone (hash_token h.libs (credential_source (credentials cookie r)).1) p
      → route h memory_repository none guard limit q r (p, w) ≡ (
        reply (write_auth_error envelope 401 (credential_source (credentials cookie r)).1),
        (p, w),
      )
  unfolding route
  protected_unknown limit (post_register now salt random body) r p w shut gone = absurd shut
  protected_unknown limit (post_login clock' random body) r p w shut gone = absurd shut
  protected_unknown limit get_csrf_token r p w shut gone = absurd shut
  protected_unknown limit (post_password now salt body) r p w shut gone =
      protect_unknown _ r p w gone
  protected_unknown limit post_logout r p w shut gone = protect_unknown _ r p w gone
  protected_unknown limit post_logout_all r p w shut gone = protect_unknown _ r p w gone
  protected_unknown limit get_me r p w shut gone = protect_unknown _ r p w gone
  protected_unknown limit (delete_me body) r p w shut gone = protect_unknown _ r p w gone
  protected_unknown limit get_sessions r p w shut gone = protect_unknown _ r p w gone
  protected_unknown limit (delete_session id) r p w shut gone = protect_unknown _ r p w gone

  -- Over the in-memory repository, in a process whose two tables list no hash twice: once nothing is
  -- stored or cached under the hash of a token, every route that RegisterRoutes protects answers a
  -- request that carries it 401 and changes nothing, whatever calls the process has answered in
  -- between, as long as none was a login that drew a token of the same hash. The context is live.
  pub route-Gone :
      (limit : Middleware Body (Process Store × W)) (q : Route) (calls : List (Context × Call))
      (r : Request) (p : Process Store) (w : W)
      → IsProtected q
      → IsUnique p
      → Gone (hash_token h.libs (credential_source (credentials cookie r)).1) p
      → IssuesNone h.libs (hash_token h.libs (credential_source (credentials cookie r)).1) calls
      → let q' = serve_all h.libs calls p in
        let (answer, after) = route h memory_repository none guard limit q r (q', w) in
        (status_of answer ≡ some 401) × (after ≡ (q', w))
  route-Gone limit q calls r p w shut unique gone quiet =
      let k = hash_token h.libs (credential_source (credentials cookie r)).1 in
      let p' = serve_all h.libs calls p in
      let gone' = serve_all-Gone h.libs calls k p unique gone quiet in
      rw (protected_unknown limit q r p' w shut gone')
        (refused_status (credential_source (credentials cookie r)).1, refl)
