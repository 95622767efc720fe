-- ===== src/User/Service/Revocation.antt =====
-- internal/user/service.go: a session that was revoked is not accepted again by this process.
use task_api.Common.{
  ℕ, ◌+◌, String, ◌≡◌, ◌≢◌, Option, none, some, List, [], ◌∷◌, arith, inl, inr, Option-cases, All,
  str_eq, str_eq_iff, ◌⊎◌,
}
use task_api.Common.Dict.{
  lookup, insert, HasUniqueKeys, absent-of-Shrinks, insert-HasUniqueKeys, lookup-insert,
  lookup-delete_self, absent-delete_where,
}
use task_api.Common.Failure.{Context, ok, err, sentinel, wrapped}
use task_api.User.Entity.{Session, not_found}
use task_api.User.Memory.{
  Store, memory_repository, belongs_to, find_session_by_token_hash, delete_session,
  delete_sessions_for_user, delete_user,
}
use task_api.User.TokenCache.{Entry, get, set, forget, delete_all_for_user}
use task_api.User.Service.{
  Libraries, Process, hash_token, validate_token, logout, logout_all, delete_account,
}
use task_api.User.Service.Changes.{
  Change, smaller, cached, issued, Request, serve, issues, serve-Change,
}

-- No hash is listed twice among the sessions or among the cached tokens.
abbrev pub IsUnique : Process Store → Type 0
IsUnique p = HasUniqueKeys p.stored.sessions × HasUniqueKeys p.tokens.entries

-- Nothing is stored or cached under the hash.
abbrev pub Gone : String → Process Store → Type 0
Gone k p = (lookup k p.stored.sessions ≡ none) × (lookup k p.tokens.entries ≡ none)

-- A cached token names the user of its session, where that is stored.
abbrev pub Agree : Process Store → Type 0
Agree p =
    (k : String) (e : Entry) (s : Session)
    → lookup k p.tokens.entries ≡ some e
    → lookup k p.stored.sessions ≡ some s
    → e.user_id ≡ s.user_id

Change-IsUnique :
    {token : Option String} {p p' : Process Store} → Change token p p' → IsUnique p → IsUnique p'
unfolding set
Change-IsUnique (smaller s) (a, b) = (s.sessions.keys a, s.entries.keys b)
Change-IsUnique {p} (cached k s checked now h live same e) (a, b) = (
  rw same a,
  rw e (
      insert-HasUniqueKeys k (record { user_id = s.user_id; expires_at = now + p.tokens.ttl })
        p.tokens.entries b),
)
Change-IsUnique {p} (issued s t h e) (a, b) =
    (h.keys (insert-HasUniqueKeys s.token_hash s p.stored.sessions a), rw e b)

Change-Gone :
    {token : Option String} {p p' : Process Store} (k : String)
    → Change token p p'
    → IsUnique p
    → token ≢ some k
    → Gone k p
    → Gone k p'
unfolding set
Change-Gone k (smaller s) (a, b) other (x, y) =
    (absent-of-Shrinks k s.sessions a x, absent-of-Shrinks k s.entries b y)
Change-Gone {p} k (cached j s checked now h live same e) (a, b) other (x, y) = (
  rw same x,
  rw e (
      ground (
        arith,
        lookup-insert k j (record { user_id = s.user_id; expires_at = now + p.tokens.ttl })
            p.tokens.entries,
        str_eq_iff k j,
      )),
)
Change-Gone {p} k (issued s t h e) (a, b) other (x, y) = (
  absent-of-Shrinks k h (insert-HasUniqueKeys s.token_hash s p.stored.sessions a)
      (ground (arith, lookup-insert k s.token_hash s p.stored.sessions, str_eq_iff k s.token_hash)),
  rw e y,
)

Change-Agree :
    {token : Option String} {p p' : Process Store}
    → Change token p p'
    → IsUnique p
    → ((k : String) → token ≡ some k → lookup k p.tokens.entries ≡ none)
    → Agree p
    → Agree p'
unfolding set
Change-Agree (smaller s) (a, b) fresh agree k e x h g =
    agree k e x (s.entries.entry k e b h) (s.sessions.entry k x a g)
Change-Agree {p} (cached j s checked now there live same d) (a, b) fresh agree k e x h g =
    let entry : Entry = record { user_id = s.user_id; expires_at = now + p.tokens.ttl } in
    let g' : lookup k p.stored.sessions ≡ some x = rw (← same) g in
    let h' : lookup k (insert j entry p.tokens.entries) ≡ some e = rw d at h in
    ground (arith, lookup-insert k j entry p.tokens.entries, str_eq_iff k j, agree k e x)
Change-Agree {p} (issued s t sh d) (a, b) fresh agree k e x h g =
    let h' : lookup k p.tokens.entries ≡ some e = rw (← d) h in
    let g' = sh.entry k x (insert-HasUniqueKeys s.token_hash s p.stored.sessions a) g in
    ground (
      arith,
      lookup-insert k s.token_hash s p.stored.sessions,
      str_eq_iff k s.token_hash,
      agree k e x,
      fresh s.token_hash t,
    )

-- The session or the cached token under the hash is the user's.
abbrev pub BelongsTo : String → String → Process Store → Type 0
BelongsTo k u p =
    ((s : Session) × (lookup k p.stored.sessions ≡ some s) × (s.user_id ≡ u))
    ⊎ ((e : Entry) × (lookup k p.tokens.entries ≡ some e) × (e.user_id ≡ u))

pub belongs_everywhere :
    (k u : String) (p : Process Store)
    → Agree p
    → BelongsTo k u p
    → ((s : Session) → lookup k p.stored.sessions ≡ some s → s.user_id ≡ u)
      × ((e : Entry) → lookup k p.tokens.entries ≡ some e → e.user_id ≡ u)
belongs_everywhere k u p agree (inl (s, h, m)) =
    (λ x g. ground (arith, h), λ e g. ground (arith, agree k e s g h))
belongs_everywhere k u p agree (inr (e, h, m)) =
    (λ x g. ground (arith, agree k e x h g), λ d g. ground (arith, h))

module _ (libs : Libraries) where
  -- The calls of a process one after the other.
  unfoldable pub serve_all : List (Context × Request) → Process Store → Process Store
  serve_all [] p = p
  serve_all ((c, r) ∷ rs) p = serve_all rs (serve libs c r p)

  -- No call of the list issues a session under the hash.
  abbrev pub IssuesNone : String → List (Context × Request) → Type 0
  IssuesNone k rs = All (λ q. issues libs q.1 ≢ some k) rs

  pub serve_all-Gone :
      (rs : List (Context × Request)) (k : String) (p : Process Store)
      → IsUnique p
      → Gone k p
      → IssuesNone k rs
      → Gone k (serve_all rs p)
  unfolding serve_all
  serve_all-Gone [] k p u g h = g
  serve_all-Gone ((c, r) ∷ rs) k p u g (h, hs) =
      let change = serve-Change libs c r p in
      serve_all-Gone rs k (serve libs c r p) (Change-IsUnique change u) (Change-Gone k change u h g)
        hs

  -- In a process whose two tables list no hash twice: once nothing is stored or cached under the
  -- hash of a token, the token is refused as unknown, whatever calls the process has answered in
  -- between, as long as none was a login that drew a token of the same hash. The context of the
  -- refused call is live.
  pub validate_token-Gone :
      (rs : List (Context × Request)) (token : String) (clock : ℕ → ℕ) (p : Process Store)
      → IsUnique p
      → Gone (hash_token libs token) p
      → IssuesNone (hash_token libs token) rs
      → (validate_token libs memory_repository none clock token (serve_all rs p)).0
        ≡ err (wrapped (sentinel not_found))
  unfolding validate_token memory_repository find_session_by_token_hash get
  validate_token-Gone rs token clock p u g h =
      let (a, b) = serve_all-Gone rs (hash_token libs token) p u g h in ground arith

  -- A logout that succeeds leaves nothing stored or cached under the hash of the token.
  pub logout-Gone :
      (c : Context) (token : String) (p : Process Store)
      → (logout libs memory_repository c token p).0 ≡ ok tt
      → Gone (hash_token libs token) (logout libs memory_repository c token p).1
  unfolding logout memory_repository delete_session forget
  logout-Gone none token p h = (
    lookup-delete_self (hash_token libs token) p.stored.sessions,
    lookup-delete_self (hash_token libs token) p.tokens.entries,
  )
  logout-Gone (some e) token p h = cc

  -- In a process whose two tables list no hash twice, and whose cached tokens name the users of
  -- their sessions: where signing out everywhere succeeds, it leaves nothing stored or cached
  -- under the hash of any token of the user. In the same process, deleting the account leaves
  -- nothing there either, even if the user cannot be deleted.
  pub logout_all-Gone :
      (c : Context) (k u : String) (p : Process Store)
      → IsUnique p
      → Agree p
      → BelongsTo k u p
      → (logout_all libs memory_repository c u p).0 ≡ ok tt
      → Gone k (logout_all libs memory_repository c u p).1
        × Gone k (delete_account libs memory_repository c u p).1
  unfolding logout_all delete_account memory_repository delete_sessions_for_user delete_all_for_user
      delete_user
  logout_all-Gone none k u p (a, b) agree mine h =
      let (in_store, in_cache) = belongs_everywhere k u p agree mine in
      let uncached =
        absent-delete_where k (λ hash e. str_eq e.user_id u) p.tokens.entries b
          (λ e g. (str_eq_iff e.user_id u).1 (in_cache e g)) in
      let gone =
        absent-delete_where k (λ hash s. belongs_to u s) p.stored.sessions a
          (λ s g. (str_eq_iff s.user_id u).1 (in_store s g)) in
      elim (Option-cases (lookup u p.stored.users_by_id)) [
        | inl e ↦ ground (arith, uncached, gone)
        | inr (x, e) ↦ ground (arith, uncached, gone)
      ]
  logout_all-Gone (some e) k u p unique agree mine h = cc

  -- No call breaks the tables: hashes stay listed once, and a cached token names the user of its
  -- session. For a login this supposes that the token it draws is not one that is cached.
  pub serve-Agree :
      (c : Context) (r : Request) (p : Process Store)
      → ((k : String) → issues libs r ≡ some k → lookup k p.tokens.entries ≡ none)
      → IsUnique p
      → Agree p
      → IsUnique (serve libs c r p) × Agree (serve libs c r p)
  serve-Agree c r p fresh u agree =
      let change = serve-Change libs c r p in
      (Change-IsUnique change u, Change-Agree change u fresh agree)
