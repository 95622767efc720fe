-- ===== src/User/Service/Login.antt =====
-- internal/user/service.go: registering and logging in.
use task_api.Common.{
  ℕ, ◌≤◌, ◌⊎◌, String, ◌≡◌, true, false, Option, none, some, ◌∷◌, arith, inl, inr, Option-cases,
  Bool-cases, ap,
}
use task_api.Common.Dict.{lookup, lookup-insert_self, lookup-delete_self}
use task_api.Common.Uuid.{new_id}
use task_api.Common.Failure.{Context, Result-cases, ok, err, sentinel, is}
use task_api.User.Entity.{User, UserError, not_found, invalid_credentials, user_sentinels}
use task_api.User.Repository.{Repository}
use task_api.User.Memory.{Store, memory_repository, create_user, find_user_by_email}
use task_api.User.Password.{validate_password}
use task_api.User.Backoff.Curve.{curve_lem}
use task_api.User.Backoff.{Backoff, delay, curve, record_failure, record_success}
use task_api.User.Service.{
  Libraries, Process, authenticate, register, refuse, admit, normalize_email, validate_email,
}

module _ (libs : Libraries) {St : Type 0} (repo : Repository St) where
  refused_login :
      (c : Context) (clock : ℕ → ℕ) (email pw : String) (p : Process St)
      → ((x : UserError) × ((repo.find_user_by_email c (normalize_email libs email) p.stored).0
            ≡ err x)
          × (is x not_found ≡ true))
        ⊎ ((u : User) × ((repo.find_user_by_email c (normalize_email libs email) p.stored).0 ≡ ok u)
            × (libs.matches u.password_hash pw ≡ false))
      → let k = normalize_email libs email in
        let (wait, b) = delay (clock 0) k p.backoff in
        let (r, q) = authenticate libs repo c clock email pw p in
        (r ≡ err (sentinel invalid_credentials))
        × (q.backoff ≡ record_failure (clock 1) k b)
        × (q.slept ≡ wait ∷ p.slept)
  unfolding authenticate refuse
  refused_login c clock email pw p (inl (x, e, m)) = ground arith
  refused_login c clock email pw p (inr (u, e, m)) = ground arith

  -- Over any repository, logins at one address in two processes that have the same record of
  -- failures and have waited alike: in one the address is unknown, in the other its user has
  -- another password. The answers are the same, the delays too, and so are the records of failures
  -- afterwards.
  pub authenticate_indistinguishable :
      (c : Context) (clock : ℕ → ℕ) (email pw : String) (p q : Process St) (x : UserError)
      (u : User)
      → (repo.find_user_by_email c (normalize_email libs email) p.stored).0 ≡ err x
      → is x not_found ≡ true
      → (repo.find_user_by_email c (normalize_email libs email) q.stored).0 ≡ ok u
      → libs.matches u.password_hash pw ≡ false
      → p.backoff ≡ q.backoff
      → p.slept ≡ q.slept
      → let (r, p') = authenticate libs repo c clock email pw p in
        let (s, q') = authenticate libs repo c clock email pw q in
        (r ≡ err (sentinel invalid_credentials))
        × (r ≡ s)
        × (p'.slept ≡ q'.slept)
        × (p'.backoff ≡ q'.backoff)
  authenticate_indistinguishable c clock email pw p q x u e m f n b s =
      let (r1, b1, s1) = refused_login c clock email pw p (inl (x, e, m)) in
      let (r2, b2, s2) = refused_login c clock email pw q (inr (u, f, n)) in
      let same_waits : delay (clock 0) (normalize_email libs email) p.backoff
          ≡ delay (clock 0) (normalize_email libs email) q.backoff =
        ap (delay (clock 0) (normalize_email libs email)) b in
      (r1, ground arith, ground arith, ground arith)

curve_capped : (n : ℕ) → curve n ≤ 4_000_000_000
curve_capped n = ground (arith, curve_lem n)

delay_capped : (now : ℕ) (k : String) (b : Backoff) → (delay now k b).0 ≤ 4_000_000_000
unfolding delay
delay_capped now k b = elim (Option-cases (lookup k b)) [
  | inl e ↦ ground arith
  | inr (f, e) ↦ ground (arith, curve_capped f.failures)
]

module _ (libs : Libraries) where
  admitted_login :
      (c : Context) (clock : ℕ → ℕ) (email pw : String) (u : User) (p : Process Store)
      → (memory_repository.find_user_by_email c (normalize_email libs email) p.stored).0 ≡ ok u
      → libs.matches u.password_hash pw ≡ true
      → let k = normalize_email libs email in
        let (wait, b) = delay (clock 0) k p.backoff in
        let (r, q) = authenticate libs memory_repository c clock email pw p in
        (r ≡ ok u) × (q.backoff ≡ record_success k b) × (q.slept ≡ wait ∷ p.slept)
  unfolding authenticate admit
  admitted_login c clock email pw u p e m = ground arith

  -- The user that a registration gives can be found under the normalized address, and the hash is
  -- bcrypt's.
  registered :
      (now salt : ℕ) (random : Option (ℕ → ℕ)) (email pw : String) (p : Process Store) (u : User)
      → (register libs memory_repository none now salt random email pw p).0 ≡ ok u
      → (libs.generate salt pw ≡ some u.password_hash)
        × ((memory_repository.find_user_by_email none
              (normalize_email libs email)
              (register libs memory_repository none now salt random email pw p).1.stored).0
            ≡ ok u)
  unfolding register validate_email memory_repository create_user find_user_by_email
  registered now salt random email pw p u h =
      elim (Bool-cases (libs.accepts_email 320 (normalize_email libs email))) [
        | inr v ↦ ground arith
        | inl v ↦ elim (Result-cases (validate_password libs.lower pw)) [
          | inr (x, d) ↦ ground arith
          | inl (_, d) ↦ elim (Option-cases (libs.generate salt pw)) [
            | inl g ↦ ground arith
            | inr (hash, g) ↦ elim (Option-cases (new_id random)) [
              | inl n ↦ ground arith
              | inr (id, n) ↦
                  elim (Option-cases
                    (lookup (normalize_email libs email) p.stored.users_by_email)) [
                      | inr (old, f) ↦ ground arith
                      | inl f ↦
                          let v : User = record {
                            id = id;
                            email = normalize_email libs email;
                            created_at = now;
                            updated_at = now;
                            password_hash = hash;
                          } in
                          ground (
                            arith,
                            lookup-insert_self (normalize_email libs email) id
                                p.stored.users_by_email,
                            lookup-insert_self id v p.stored.users_by_id,
                          )
                    ]
            ]
          ]
        ]
      ]

  -- If bcrypt's hashes match the passwords that they are of, whoever registered gets in, as long
  -- as the store is as the registration left it, with the same password and any spelling of the
  -- address that normalizes alike, however many failures are on record: the wait is at most four
  -- seconds, and afterwards the address has no wait. The contexts of both calls are live.
  pub authenticate-register :
      ((salt : ℕ) (pw hash : String)
        → libs.generate salt pw ≡ some hash
        → libs.matches hash pw ≡ true)
      → (now salt : ℕ) (random : Option (ℕ → ℕ)) (email email' pw : String) (clock : ℕ → ℕ)
        (later : ℕ) (p q : Process Store) (u : User)
      → (register libs memory_repository none now salt random email pw p).0 ≡ ok u
      → normalize_email libs email' ≡ normalize_email libs email
      → q.stored ≡ (register libs memory_repository none now salt random email pw p).1.stored
      → let (r, q') = authenticate libs memory_repository none clock email' pw q in
        (r ≡ ok u)
        × ((wait : ℕ) × (wait ≤ 4_000_000_000) × (q'.slept ≡ wait ∷ q.slept))
        × ((delay later (normalize_email libs email) q'.backoff).0 ≡ 0)
  unfolding record_success delay
  authenticate-register bcrypt now salt random email email' pw clock later p q u h same stored =
      let (made, there) = registered now salt random email pw p u h in
      let found : (memory_repository.find_user_by_email none (normalize_email libs email')
            q.stored).0
          ≡ ok u =
        rw (same, stored) there in
      let (r, b, s) =
        admitted_login none clock email' pw u q found (bcrypt salt pw u.password_hash made) in
      let (wait, before) = delay (clock 0) (normalize_email libs email') q.backoff in
      (
        r,
        (wait, delay_capped (clock 0) (normalize_email libs email') q.backoff, s),
        ground (arith, b, same, lookup-delete_self (normalize_email libs email) before),
      )
