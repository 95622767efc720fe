-- ===== src/User/Service.antt =====
-- internal/user/service.go over any repository. What a call takes from outside is an argument: the
-- readings of the clock in their order (`clock 0`, `clock 1`, …), the bytes of the random source, and
-- the libraries: bcrypt, SHA-256, Unicode's lower case, and the rules of the validate library.
pub mod Calm
pub mod Steps
pub mod Changes
pub mod Revocation
pub mod Credentials
pub mod Login
use Prim.Native.Char.{Char}
use Prim.Native.String.{◌++◌}
use task_api.Common.{
  ℕ, ◌+◌, String, Bool, true, false, not, Option, none, some, List, [], ◌∷◌, map, ltb,
  if◌then◌else◌, str_eq,
}
use task_api.Common.Text.{trim_space, to_lower}
use task_api.Common.Uuid.{new_id, hex_encode}
use task_api.Common.Failure.{
  Action, Context, Result, ok, err, sentinel, wrapped, foreign, entropy, hashing, is, pure, fail,
  wrap, lift, fail_if, ◌>>=◌, ◌>>◌,
}
use task_api.User.Entity.{
  User, Session, Sentinel, not_found, invalid_input, invalid_credentials, UserResult,
  user_sentinels,
}
use task_api.User.Repository.{Repository, RepoAction}
use task_api.User.TokenCache.{
  TokenCache, get, set, forget, delete_all_for_user, delete_all_for_user_except,
}
use task_api.User.TokenCache
use task_api.User.Backoff.{Backoff, delay, record_failure, record_success}
use task_api.User.Backoff
use task_api.User.Password.{validate_password}
pub use task_api.User.Process.{
  Libraries, Config, Process, SessionInfo, max_email_len, session_token_bytes, session_id_prefix,
  ServiceAction, ask, on_tokens, new_process,
}
unfoldable pub use task_api.User.Process.{
  hash_token, normalize_email, validate_email, derive_session_id,
}

module _ (libs : Libraries) {St : Type 0} (repo : Repository St) where
  unfoldable pub register :
      Context → ℕ → ℕ → Option (ℕ → ℕ) → String → String → ServiceAction St User
  register ctx now salt random raw_email password = do
    email ← lift (validate_email libs raw_email)
    lift (validate_password libs.lower password)
    hash ← elim (libs.generate salt password) [
      | none ↦ fail (wrapped (foreign hashing))
      | some hash ↦ pure hash
    ]
    id ← elim (new_id random) [
      | none ↦ fail (wrapped (wrapped (foreign entropy)))
      | some id ↦ pure id
    ]
    let u : User = record {
      id = id;
      email = email;
      created_at = now;
      updated_at = now;
      password_hash = hash;
    }
    wrap (ask (repo.create_user ctx u))
    pure u

  -- `recordFailure` and the delay, before `ErrInvalidCredentials`.
  unfoldable pub refuse : ℕ → String → ℕ → ServiceAction St User
  refuse now email wait p = (
    err (sentinel invalid_credentials),
    record p { backoff = record_failure now email p.backoff; slept = wait ∷ p.slept },
  )

  -- `recordSuccess` and the delay.
  unfoldable pub admit : String → ℕ → User → ServiceAction St User
  admit email wait u p =
      (ok u, record p { backoff = record_success email p.backoff; slept = wait ∷ p.slept })

  -- The comparison with the dummy hash for an unknown email takes time and nothing else.
  unfoldable pub authenticate : Context → (ℕ → ℕ) → String → String → ServiceAction St User
  unfolding refuse admit
  authenticate ctx clock raw_email password p =
      let email = normalize_email libs raw_email in
      let (wait, b) = delay (clock 0) email p.backoff in
      let (r, q) = ask (repo.find_user_by_email ctx email) (record p { backoff = b }) in
      elim r [
        | err e ↦ if is e not_found then refuse (clock 1) email wait q else (err (wrapped e), q)
        | ok u ↦
            if not (libs.matches u.password_hash password)
            then refuse (clock 1) email wait q
            else admit email wait u q
      ]

  unfoldable pub verify_password : Context → String → String → ServiceAction St (Unit {0})
  verify_password ctx user_id password p =
      let (r, q) = ask (repo.find_user_by_id ctx user_id) p in
      elim r [
        | err e ↦
            (if is e not_found then err (sentinel invalid_credentials) else err (wrapped e), q)
        | ok u ↦ (
          if not (libs.matches u.password_hash password)
              then err (sentinel invalid_credentials)
              else ok tt,
          q,
        )
      ]

  unfoldable pub change_password :
      Context → ℕ → ℕ → String → String → String → String → ServiceAction St (Unit {0})
  unfolding verify_password
  change_password ctx now salt user_id current_password new_password current_session_token = do
    lift (validate_password libs.lower new_password)
    verify_password ctx user_id current_password
    hash ← elim (libs.generate salt new_password) [
      | none ↦ fail (wrapped (foreign hashing))
      | some hash ↦ pure hash
    ]
    wrap (ask (repo.update_user_password now ctx user_id hash))
    let keep = hash_token libs current_session_token
    wrap (ask (repo.delete_sessions_for_user_except ctx user_id keep))
    on_tokens (delete_all_for_user_except user_id keep)

  unfoldable pub delete_account : Context → String → ServiceAction St (Unit {0})
  delete_account ctx user_id = do
    wrap (ask (repo.delete_sessions_for_user ctx user_id))
    on_tokens (delete_all_for_user user_id)
    wrap (ask (repo.delete_user ctx user_id))

  unfoldable pub create_session :
      Config → Context → ℕ → Option (ℕ → ℕ) → String → ServiceAction St (String × ℕ)
  create_session config ctx now random user_id = do
    token ← elim random [
      | none ↦ fail (wrapped (foreign entropy))
      | some bytes ↦ pure (hex_encode session_token_bytes bytes 0)
    ]
    let expires_at = now + config.session_ttl
    let session : Session = record {
      token_hash = hash_token libs token;
      user_id = user_id;
      expires_at = expires_at;
      created_at = now;
    }
    wrap (ask (repo.create_session ctx session config.max_sessions_per_user))
    pure (token, expires_at)

  unfoldable pub logout_all : Context → String → ServiceAction St (Unit {0})
  logout_all ctx user_id = do
    wrap (ask (repo.delete_sessions_for_user ctx user_id))
    on_tokens (delete_all_for_user user_id)

  abbrev pub session_info : String → Session → SessionInfo
  session_info current_hash sess = record {
    id = derive_session_id libs sess.token_hash;
    created_at = sess.created_at;
    expires_at = sess.expires_at;
    is_current = str_eq sess.token_hash current_hash;
  }

  unfoldable pub list_sessions : Context → String → String → ServiceAction St (List SessionInfo)
  list_sessions ctx user_id current_token = do
    sessions ← wrap (ask (repo.find_sessions_for_user ctx user_id))
    pure (map (session_info (hash_token libs current_token)) sessions)

  -- The loop of `RevokeSession`.
  unfoldable pub revoke_first : Context → String → List Session → ServiceAction St (Unit {0})
  revoke_first ctx session_id [] = fail (sentinel not_found)
  revoke_first ctx session_id (sess ∷ sessions) =
      let rest = revoke_first ctx session_id sessions in
      if not (str_eq (derive_session_id libs sess.token_hash) session_id) then rest else do
        wrap (ask (repo.delete_session ctx sess.token_hash))
        on_tokens (forget sess.token_hash)

  unfoldable pub revoke_session : Context → String → String → ServiceAction St (Unit {0})
  unfolding revoke_first
  revoke_session ctx user_id session_id = do
    sessions ← wrap (ask (repo.find_sessions_for_user ctx user_id))
    revoke_first ctx session_id sessions

  unfoldable pub validate_token : Context → (ℕ → ℕ) → String → ServiceAction St String
  validate_token ctx clock token p =
      let hash = hash_token libs token in
      elim (get (clock 0) hash p.tokens) [
        | some cached_user_id ↦ (ok cached_user_id, p)
        | none ↦
            let (r, q) = ask (repo.find_session_by_token_hash ctx hash) p in
            elim r [
              | err e ↦ (err (wrapped e), q)
              | ok session ↦
                  if ltb session.expires_at (clock 1)
                  then (
                    err (sentinel not_found),
                    (ask (repo.delete_session ctx session.token_hash) q).1,
                  )
                  else (
                    ok session.user_id,
                    record q { tokens = set (clock 2) hash session.user_id q.tokens },
                  )
            ]
      ]

  unfoldable pub logout : Context → String → ServiceAction St (Unit {0})
  logout ctx token = do
    let hash = hash_token libs token
    wrap (ask (repo.delete_session ctx hash))
    on_tokens (forget hash)

  unfoldable pub prune_expired_sessions : Context → (ℕ → ℕ) → ServiceAction St (Unit {0})
  prune_expired_sessions ctx clock p =
      wrap (ask (repo.delete_expired_sessions ctx (clock 2))) (record p {
        tokens = TokenCache.sweep (clock 0) p.tokens;
        backoff = Backoff.sweep (clock 1) p.backoff;
      })

  unfoldable pub get_user : Context → String → ServiceAction St User
  get_user ctx id = wrap (ask (repo.find_user_by_id ctx id))
