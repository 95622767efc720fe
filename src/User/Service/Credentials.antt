-- ===== src/User/Service/Credentials.antt =====
-- internal/user/service.go: what a change of password does.
use task_api.Common.{
  ℕ, String, ◌≡◌, ◌≢◌, true, none, some, arith, inl, inr, Option-cases, Bool-cases, str_eq,
  str_eq_iff, str_eq_refl, ◌&&◌, not,
}
use task_api.Common.Dict.{
  Dict, lookup, insert, delete_where, HasUniqueKeys, absent-delete_where, lookup-delete_where,
  lookup-insert_self,
}
use task_api.Common.Failure.{Context, Result-cases, ok}
use task_api.User.Entity.{User, Session}
use task_api.User.Memory.{
  Store, memory_repository, belongs_to, delete_sessions_for_user_except, find_user_by_id,
  update_user_password,
}
use task_api.User.Password.{validate_password}
use task_api.User.TokenCache.{delete_all_for_user_except}
use task_api.User.Service.{Libraries, Process, hash_token, change_password, verify_password}
use task_api.User.Service.Revocation.{IsUnique, Gone, Agree, BelongsTo, belongs_everywhere}

module _ (libs : Libraries) where
  -- The process after the change, from the stored user and the new hash.
  abbrev changed : ℕ → String → String → User → String → Process Store → Process Store
  changed now u keep x hash p = record p {
    stored = record p.stored {
      users_by_id =
          insert u (record x { password_hash = hash; updated_at = now }) p.stored.users_by_id;
      sessions = delete_where (λ k s. belongs_to u s && not (str_eq k keep)) p.stored.sessions;
    };
    tokens = delete_all_for_user_except u keep p.tokens;
  }

  change_password_ok :
      (c : Context) (now salt : ℕ) (u old new token : String) (p : Process Store)
      → (change_password libs memory_repository c now salt u old new token p).0 ≡ ok tt
      → (x : User) × (hash : String) × (lookup u p.stored.users_by_id ≡ some x)
        × (libs.matches x.password_hash old ≡ true)
        × (libs.generate salt new ≡ some hash)
        × (validate_password libs.lower new ≡ ok tt)
        × ((change_password libs memory_repository c now salt u old new token p).1
            ≡ changed now u (hash_token libs token) x hash p)
  unfolding change_password verify_password memory_repository delete_sessions_for_user_except
      find_user_by_id update_user_password
  change_password_ok (some e) now salt u old new token p h =
      elim (Result-cases (validate_password libs.lower new)) [
        | inl (_, v) ↦ ground arith
        | inr (x, v) ↦ ground arith
      ]
  change_password_ok none now salt u old new token p h =
      elim (Result-cases (validate_password libs.lower new)) [
        | inr (x, v) ↦ ground arith
        | inl (_, v) ↦ elim (Option-cases (lookup u p.stored.users_by_id)) [
          | inl e ↦ ground arith
          | inr (x, e) ↦ elim (Bool-cases (libs.matches x.password_hash old)) [
            | inr m ↦ ground arith
            | inl m ↦ elim (Option-cases (libs.generate salt new)) [
              | inl g ↦ ground arith
              | inr (hash, g) ↦ (x, hash, e, m, g, v, ground arith)
            ]
          ]
        ]
      ]

  kept_session :
      (u keep : String) (d : Dict Session)
      → HasUniqueKeys d
      → lookup keep (delete_where (λ k s. belongs_to u s && not (str_eq k keep)) d) ≡ lookup keep d
  kept_session u keep d a = elim (Option-cases (lookup keep d)) [
    | inl e ↦
        ground (arith, lookup-delete_where keep (λ k s. belongs_to u s && not (str_eq k keep)) d a)
    | inr (s, e) ↦ ground (
      arith,
      lookup-delete_where keep (λ k s. belongs_to u s && not (str_eq k keep)) d a,
      str_eq_refl keep,
    )
  ]

  verify_new :
      (now : ℕ) (u keep new hash : String) (x : User) (p : Process Store)
      → libs.matches hash new ≡ true
      → (verify_password libs memory_repository none u new (changed now u keep x hash p)).0 ≡ ok tt
  unfolding verify_password memory_repository find_user_by_id
  verify_new now u keep new hash x p m =
      let y : User = record x { password_hash = hash; updated_at = now } in
      ground (arith, lookup-insert_self u y p.stored.users_by_id)

  old_right :
      (u old : String) (x : User) (p : Process Store)
      → lookup u p.stored.users_by_id ≡ some x
      → libs.matches x.password_hash old ≡ true
      → (verify_password libs memory_repository none u old p).0 ≡ ok tt
  unfolding verify_password memory_repository find_user_by_id
  old_right u old x p h m = ground arith

  -- In a process whose two tables list no hash twice, and whose cached tokens name the users of
  -- their sessions, and if bcrypt's hashes match the passwords that they are of: a change of
  -- password that succeeds had the current password right and the new one accepted, and afterwards
  -- the new password is verified. Nothing is stored or cached any more under the hash of any other
  -- token of the user, and the session of the token that made the call is as it was.
  pub change_password_revokes :
      ((salt : ℕ) (pw hash : String)
        → libs.generate salt pw ≡ some hash
        → libs.matches hash pw ≡ true)
      → (c : Context) (now salt : ℕ) (k u old new token : String) (p : Process Store) → IsUnique p
      → Agree p
      → BelongsTo k u p
      → k ≢ hash_token libs token
      → (change_password libs memory_repository c now salt u old new token p).0 ≡ ok tt
      → let q = (change_password libs memory_repository c now salt u old new token p).1 in
        Gone k q
        × (lookup (hash_token libs token) q.stored.sessions
            ≡ lookup (hash_token libs token) p.stored.sessions)
        × (validate_password libs.lower new ≡ ok tt)
        × ((verify_password libs memory_repository none u old p).0 ≡ ok tt)
        × ((verify_password libs memory_repository none u new q).0 ≡ ok tt)
  unfolding delete_all_for_user_except
  change_password_revokes bcrypt c now salt k u old new token p (a, b) agree mine other h =
      let keep = hash_token libs token in
      let (x, hash, there, right, made, strong, e) =
        change_password_ok c now salt u old new token p h in
      let (in_store, in_cache) = belongs_everywhere k u p agree mine in
      let gone =
        absent-delete_where k (λ k s. belongs_to u s && not (str_eq k keep)) p.stored.sessions a
          (λ s g. ground (arith, str_eq_iff s.user_id u, str_eq_iff k keep, in_store s g)) in
      let uncached =
        absent-delete_where k (λ k e. str_eq e.user_id u && not (str_eq k keep)) p.tokens.entries b
          (λ d g. ground (arith, str_eq_iff d.user_id u, str_eq_iff k keep, in_cache d g)) in
      rw e (
        (gone, uncached),
        kept_session u keep p.stored.sessions a,
        strong,
        old_right u old x p there right,
        verify_new now u keep new hash x p (bcrypt salt new hash made),
      )
