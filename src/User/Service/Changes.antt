-- ===== src/User/Service/Changes.antt =====
-- internal/user/service.go over the in-memory repository: how a call may change the sessions and the
-- cached tokens.
use task_api.User.Service.Calm.{
  Smaller, Smaller-refl, Smaller-trans, IsCalm, find_user_by_email-IsCalm, find_user_by_id-IsCalm,
  delete_session-IsCalm, delete_expired-IsCalm,
}
use task_api.Common.{
  subst, sym, ℕ, ◌+◌, ◌≤◌, String, ◌≡◌, refl, Option, none, some, List, [], ◌∷◌, arith, inl, inr,
  Option-cases, Bool-cases, ltb, leb, take, length, select, ◌-◌,
}
use task_api.Common.Dict.{
  Dict, lookup, insert, delete, values, Shrinks, Shrinks-refl, Shrinks-trans, delete-Shrinks,
  delete_where-Shrinks,
}
use task_api.Common.Sort.{sort_by}
use task_api.Common.Uuid.{hex_encode}
use task_api.Common.Failure.{Context, Result-cases}
use task_api.User.Entity.{Session}
use task_api.User.Memory
use task_api.User.Memory.{
  Store, memory_repository, evict, delete_session, delete_sessions_for_user,
  delete_sessions_for_user_except, find_sessions_for_user, belongs_to, later, earlier,
  find_session_by_token_hash,
}
use task_api.User.Backoff.{delay}
use task_api.User.Backoff
use task_api.User.TokenCache
use task_api.User.TokenCache.{
  TokenCache, Entry, get, set, forget, delete_all_for_user, delete_all_for_user_except,
}
use task_api.User.Service.{
  refuse, admit, normalize_email, Libraries, Config, Process, register, authenticate,
  verify_password, change_password, delete_account, create_session, logout_all, list_sessions,
  revoke_session, validate_token, logout, prune_expired_sessions, get_user, hash_token,
  session_token_bytes, ask,
}
use task_api.User.Service.Steps.{
  register-IsCalm, verify_password-IsCalm, logout-IsCalm, logout_all-IsCalm, delete_account-IsCalm,
  change_password-IsCalm, list_sessions-IsCalm, revoke_session-IsCalm,
}

-- Sessions and cached tokens only go; or a stored session is cached for the time of the cache; or a
-- session is issued under the hash `token`, and others may go.
pub data Change (token : Option String) (p p' : Process Store) : Type 0 where
  smaller : Smaller p p' → Change token p p'
  cached :
      (k : String) (s : Session) (checked now : ℕ)
      → lookup k p.stored.sessions ≡ some s
      → checked ≤ s.expires_at
      → p'.stored ≡ p.stored
      → p'.tokens ≡ set now k s.user_id p.tokens
      → Change token p p'
  issued :
      (s : Session)
      → token ≡ some s.token_hash
      → Shrinks (insert s.token_hash s p.stored.sessions) p'.stored.sessions
      → p'.tokens ≡ p.tokens
      → Change token p p'

-- A session that is issued, with the evictions that it causes.
evict-Shrinks : (victims : List Session) (d : Dict Session) → Shrinks d (evict victims d)
unfolding evict
evict-Shrinks [] d = Shrinks-refl d
evict-Shrinks (v ∷ vs) d =
    Shrinks-trans (delete-Shrinks v.token_hash d) (evict-Shrinks vs (delete v.token_hash d))

create_session-Shrinks :
    (s : Session) (max_sessions : ℕ) (store : Store)
    → Shrinks
        (insert s.token_hash s store.sessions)
        (Memory.create_session none s max_sessions store).1.sessions
unfolding Memory.create_session
create_session-Shrinks s max_sessions store =
    let sessions = insert s.token_hash s store.sessions in
    let mine = select (belongs_to s.user_id) (values sessions) in
    elim (Bool-cases (leb (length mine) max_sessions)) [
      | inl few ↦ ground (arith, Shrinks-refl sessions)
      | inr many ↦
          ground (
            arith,
            evict-Shrinks (take (length mine - max_sessions) (sort_by earlier mine)) sessions,
          )
    ]

-- A call of the service, with what it takes from outside.
pub data Request : Type 0 where
  register_request : ℕ → ℕ → Option (ℕ → ℕ) → String → String → Request
  authenticate_request : (ℕ → ℕ) → String → String → Request
  verify_request : String → String → Request
  change_request : ℕ → ℕ → String → String → String → String → Request
  delete_request : String → Request
  session_request : Config → ℕ → Option (ℕ → ℕ) → String → Request
  logout_all_request : String → Request
  list_request : String → String → Request
  revoke_request : String → String → Request
  validate_request : (ℕ → ℕ) → String → Request
  logout_request : String → Request
  prune_request : (ℕ → ℕ) → Request
  get_request : String → Request

module _ (libs : Libraries) where
  unfoldable pub serve : Context → Request → Process Store → Process Store
  serve c (register_request now salt random email pw) p =
      (register libs memory_repository c now salt random email pw p).1
  serve c (authenticate_request clock email pw) p =
      (authenticate libs memory_repository c clock email pw p).1
  serve c (verify_request u pw) p = (verify_password libs memory_repository c u pw p).1
  serve c (change_request now salt u old new token) p =
      (change_password libs memory_repository c now salt u old new token p).1
  serve c (delete_request u) p = (delete_account libs memory_repository c u p).1
  serve c (session_request config now random u) p =
      (create_session libs memory_repository config c now random u p).1
  serve c (logout_all_request u) p = (logout_all libs memory_repository c u p).1
  serve c (list_request u token) p = (list_sessions libs memory_repository c u token p).1
  serve c (revoke_request u id) p = (revoke_session libs memory_repository c u id p).1
  serve c (validate_request clock token) p =
      (validate_token libs memory_repository c clock token p).1
  serve c (logout_request token) p = (logout libs memory_repository c token p).1
  serve c (prune_request clock) p = (prune_expired_sessions libs memory_repository c clock p).1
  serve c (get_request id) p = (get_user libs memory_repository c id p).1

  -- The hash of the token that a request issues, if it is a login's.
  abbrev pub issues : Request → Option String
  issues (session_request config now (some bytes) u) =
      some (hash_token libs (hex_encode session_token_bytes bytes 0))
  issues _ = none

  authenticate-IsCalm :
      (c : Context) (clock : ℕ → ℕ) (email pw : String)
      → IsCalm (authenticate libs memory_repository c clock email pw)
  unfolding authenticate refuse admit
  authenticate-IsCalm c clock email pw p =
      let k = normalize_email libs email in
      let q : Process Store = record p { backoff = (delay (clock 0) k p.backoff).1 } in
      elim (Result-cases (memory_repository.find_user_by_email c k p.stored).0) [
        | inl (a, e) ↦ ground (arith, find_user_by_email-IsCalm c k q)
        | inr (x, e) ↦ ground (arith, find_user_by_email-IsCalm c k q)
      ]

  prune-IsCalm :
      (c : Context) (clock : ℕ → ℕ) → IsCalm (prune_expired_sessions libs memory_repository c clock)
  unfolding prune_expired_sessions TokenCache.sweep
  prune-IsCalm c clock p =
      let q : Process Store = record p {
        tokens = TokenCache.sweep (clock 0) p.tokens;
        backoff = Backoff.sweep (clock 1) p.backoff;
      } in
      let swept : Smaller p q = record {
        sessions = Shrinks-refl p.stored.sessions;
        entries =
            delete_where-Shrinks (λ hash entry. ltb entry.expires_at (clock 0)) p.tokens.entries;
        same_ttl = refl;
      } in
      Smaller-trans swept (delete_expired-IsCalm c (clock 2) q)

  validate_token-Change :
      (c : Context) (clock : ℕ → ℕ) (token : String) (p : Process Store)
      → Change none p (validate_token libs memory_repository c clock token p).1
  unfolding validate_token memory_repository find_session_by_token_hash delete_session
  validate_token-Change (some e) clock token p =
      let change : Change none p p = smaller (Smaller-refl p) in
      elim (Option-cases (get (clock 0) (hash_token libs token) p.tokens)) [
        | inr (u, e) ↦ ground (arith, change)
        | inl e ↦ ground (arith, change)
      ]
  validate_token-Change none clock token p =
      let k = hash_token libs token in
      let same : Change none p p = smaller (Smaller-refl p) in
      elim (Option-cases (get (clock 0) k p.tokens)) [
        | inr (u, e) ↦ ground (arith, same)
        | inl e ↦ elim (Option-cases (lookup k p.stored.sessions)) [
          | inl h ↦ ground (arith, same)
          | inr (s, h) ↦ elim (Bool-cases (ltb s.expires_at (clock 1))) [
            | inl x ↦
                let change : Change none p
                    (ask (memory_repository.delete_session none s.token_hash) p).1 =
                  smaller (delete_session-IsCalm none s.token_hash p) in
                ground (arith, change)
            | inr x ↦
                let q : Process Store = record p { tokens = set (clock 2) k s.user_id p.tokens } in
                let is_q : (validate_token libs memory_repository none clock token p).1 ≡ q =
                  ground arith in
                let change : Change none p q =
                  cached k s (clock 1) (clock 2) h (ground arith) refl refl in
                subst (λ r. Change none p r) (sym is_q) change
          ]
        ]
      ]

  create_session-Change :
      (c : Context) (config : Config) (now : ℕ) (bytes : ℕ → ℕ) (u : String) (p : Process Store)
      → Change
          (some (hash_token libs (hex_encode session_token_bytes bytes 0)))
          p
          (create_session libs memory_repository config c now (some bytes) u p).1
  unfolding create_session memory_repository Memory.create_session
  create_session-Change none config now bytes u p =
      let s : Session = record {
        token_hash = hash_token libs (hex_encode session_token_bytes bytes 0);
        user_id = u;
        expires_at = now + config.session_ttl;
        created_at = now;
      } in
      issued s refl (create_session-Shrinks s config.max_sessions_per_user p.stored) refl
  create_session-Change (some e) config now bytes u p = smaller (Smaller-refl p)

  no_session-IsCalm :
      (c : Context) (config : Config) (now : ℕ) (u : String)
      → IsCalm (create_session libs memory_repository config c now none u)
  unfolding create_session
  no_session-IsCalm c config now u p = Smaller-refl p

  pub serve-Change :
      (c : Context) (r : Request) (p : Process Store) → Change (issues r) p (serve c r p)
  unfolding serve get_user
  serve-Change c (register_request now salt random email pw) p =
      smaller (register-IsCalm libs c now salt random email pw p)
  serve-Change c (authenticate_request clock email pw) p =
      smaller (authenticate-IsCalm c clock email pw p)
  serve-Change c (verify_request u pw) p = smaller (verify_password-IsCalm libs c u pw p)
  serve-Change c (change_request now salt u old new token) p =
      smaller (change_password-IsCalm libs c now salt u old new token p)
  serve-Change c (delete_request u) p = smaller (delete_account-IsCalm libs c u p)
  serve-Change c (session_request config now none u) p =
      smaller (no_session-IsCalm c config now u p)
  serve-Change c (session_request config now (some bytes) u) p =
      create_session-Change c config now bytes u p
  serve-Change c (logout_all_request u) p = smaller (logout_all-IsCalm libs c u p)
  serve-Change c (list_request u token) p = smaller (list_sessions-IsCalm libs c u token p)
  serve-Change c (revoke_request u id) p = smaller (revoke_session-IsCalm libs c u id p)
  serve-Change c (validate_request clock token) p = validate_token-Change c clock token p
  serve-Change c (logout_request token) p = smaller (logout-IsCalm libs c token p)
  serve-Change c (prune_request clock) p = smaller (prune-IsCalm c clock p)
  serve-Change c (get_request id) p = smaller (find_user_by_id-IsCalm c id p)
