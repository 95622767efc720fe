-- ===== src/User/Memory.antt =====
-- internal/user/memory_repository.go. The lock makes each method one step on the store.
pub mod Sessions
pub mod Eviction
pub mod Capacity
use task_api.Common.{
  ℕ, ◌-◌, String, Bool, not, ◌&&◌, none, some, List, [], ◌∷◌, ltb, leb, if◌then◌else◌, str_eq,
  length, take, select,
}
use task_api.Common.Dict.{Dict, lookup, insert, delete, delete_where, values}
use task_api.Common.Sort.{sort_by}
use task_api.Common.Failure.{Context, ok, err, sentinel, while_live}
use task_api.User.Entity.{User, Session, not_found, already_exists}
use task_api.User.Repository.{Repository, RepoAction}

-- The three maps: the users by id, the ids by email, the sessions by the hash of their token.
pub record Store : Type 0 where
  pub users_by_id : Dict User
  pub users_by_email : Dict String
  pub sessions : Dict Session

abbrev pub empty_store : Store
empty_store = record { users_by_id = []; users_by_email = []; sessions = [] }

unfoldable pub create_user : Context → User → RepoAction Store (Unit {0})
create_user ctx u = while_live ctx λ store. elim (lookup u.email store.users_by_email) [
  | some _ ↦ (err (sentinel already_exists), store)
  | none ↦ (
    ok tt,
    record store {
      users_by_id = insert u.id u store.users_by_id;
      users_by_email = insert u.email u.id store.users_by_email;
    },
  )
]

-- The zero value of a struct, which Go's map gives for a missing key.
abbrev pub no_user : User
no_user = record { id = ""; email = ""; created_at = 0; updated_at = 0; password_hash = "" }

unfoldable pub find_user_by_email : Context → String → RepoAction Store User
find_user_by_email ctx email = while_live ctx λ store. (
  elim (lookup email store.users_by_email) [
    | none ↦ err (sentinel not_found)
    | some id ↦ elim (lookup id store.users_by_id) [ none ↦ ok no_user | some u ↦ ok u ]
  ],
  store,
)

unfoldable pub find_user_by_id : Context → String → RepoAction Store User
find_user_by_id ctx id = while_live ctx λ store.
    (elim (lookup id store.users_by_id) [ none ↦ err (sentinel not_found) | some u ↦ ok u ], store)

unfoldable pub update_user_password : ℕ → Context → String → String → RepoAction Store (Unit {0})
update_user_password now ctx id password_hash = while_live ctx λ store.
    elim (lookup id store.users_by_id) [
      | none ↦ (err (sentinel not_found), store)
      | some u ↦
          let u' : User = record u { password_hash = password_hash; updated_at = now } in
          (ok tt, record store { users_by_id = insert id u' store.users_by_id })
    ]

unfoldable pub delete_user : Context → String → RepoAction Store (Unit {0})
delete_user ctx id = while_live ctx λ store. elim (lookup id store.users_by_id) [
  | none ↦ (err (sentinel not_found), store)
  | some u ↦ (
    ok tt,
    record store {
      users_by_id = delete id store.users_by_id;
      users_by_email = delete u.email store.users_by_email;
    },
  )
]

-- The tests and comparators of the loops over the sessions.
abbrev pub belongs_to : String → Session → Bool
belongs_to user_id s = str_eq s.user_id user_id

abbrev pub earlier : Session → Session → Bool
earlier a b = ltb a.created_at b.created_at

abbrev pub later : Session → Session → Bool
later a b = ltb b.created_at a.created_at

-- `for _, victim := range victims { delete(r.sessions, victim.TokenHash) }`
unfoldable pub evict : List Session → Dict Session → Dict Session
evict [] sessions = sessions
evict (victim ∷ victims) sessions = evict victims (delete victim.token_hash sessions)

unfoldable pub create_session : Context → Session → ℕ → RepoAction Store (Unit {0})
unfolding evict
create_session ctx s max_sessions = while_live ctx λ store.
    let sessions = insert s.token_hash s store.sessions in
    let mine = select (belongs_to s.user_id) (values sessions) in
    let evicted = evict (take (length mine - max_sessions) (sort_by earlier mine)) sessions in
    (
      ok tt,
      record store { sessions = if leb (length mine) max_sessions then sessions else evicted },
    )

unfoldable pub delete_sessions_for_user : Context → String → RepoAction Store (Unit {0})
delete_sessions_for_user ctx user_id = while_live ctx λ store. (
  ok tt,
  record store { sessions = delete_where (λ hash s. belongs_to user_id s) store.sessions },
)

unfoldable pub delete_sessions_for_user_except :
    Context → String → String → RepoAction Store (Unit {0})
delete_sessions_for_user_except ctx user_id keep_token_hash = while_live ctx λ store. (
  ok tt,
  record store {
    sessions =
        delete_where (λ hash s. belongs_to user_id s && not (str_eq hash keep_token_hash))
          store.sessions;
  },
)

unfoldable pub find_session_by_token_hash : Context → String → RepoAction Store Session
find_session_by_token_hash ctx token_hash = while_live ctx λ store. (
  elim (lookup token_hash store.sessions) [ none ↦ err (sentinel not_found) | some s ↦ ok s ],
  store,
)

unfoldable pub find_sessions_for_user : Context → String → RepoAction Store (List Session)
find_sessions_for_user ctx user_id =
    while_live ctx
      λ store. (ok (sort_by later (select (belongs_to user_id) (values store.sessions))), store)

unfoldable pub delete_session : Context → String → RepoAction Store (Unit {0})
delete_session ctx token_hash =
    while_live ctx λ store. (ok tt, record store { sessions = delete token_hash store.sessions })

unfoldable pub delete_expired_sessions : Context → ℕ → RepoAction Store (Unit {0})
delete_expired_sessions ctx now = while_live ctx λ store. (
  ok tt,
  record store { sessions = delete_where (λ hash s. ltb s.expires_at now) store.sessions },
)

-- `NewMemoryRepository`: the methods, as the interface.
unfoldable pub memory_repository : Repository Store
unfolding create_user find_user_by_email find_user_by_id update_user_password delete_user
    create_session find_session_by_token_hash delete_session find_sessions_for_user
    delete_sessions_for_user delete_sessions_for_user_except delete_expired_sessions
memory_repository = record {
  create_user = create_user;
  find_user_by_email = find_user_by_email;
  find_user_by_id = find_user_by_id;
  update_user_password = update_user_password;
  delete_user = delete_user;
  create_session = create_session;
  find_session_by_token_hash = find_session_by_token_hash;
  delete_session = delete_session;
  find_sessions_for_user = find_sessions_for_user;
  delete_sessions_for_user = delete_sessions_for_user;
  delete_sessions_for_user_except = delete_sessions_for_user_except;
  delete_expired_sessions = delete_expired_sessions;
}
