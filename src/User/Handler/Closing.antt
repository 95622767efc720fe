-- ===== src/User/Handler/Closing.antt =====
-- internal/user/handler.go: deleteAccount, over the in-memory repository.
use task_api.Common.{
  String, ◌≡◌, refl, ◌⊎◌, inl, inr, Bool, true, false, none, some, [], ◌∷◌, ◌++◌, arith,
  Option-cases, Bool-cases, str_eq,
}
use task_api.Common.Dict.{lookup, insert, lookup-delete_self}
use task_api.Common.Failure.{ok, err, sentinel, is}
use task_api.User.Entity.{User, invalid_credentials}
use task_api.User.Memory.{
  Store, memory_repository, find_user_by_id, delete_user, delete_sessions_for_user,
}
use task_api.User.Service.{Libraries, Process, verify_password, delete_account, logout_all}
use task_api.User.Service.Revocation.{IsUnique, Gone, Agree, BelongsTo, logout_all-Gone}
use task_api.User.Handler.{
  Body, Settings, write_error, handle_service_error, set_cookie, clear_session_cookie, text,
  handle_delete_account,
}
use task_api.Common.Log.{error}
use task_api.Web.{Request, log, audit, from_context, write_header, answer, status_of}
use task_api.Web.Json.{reply}

module _ (libs : Libraries) where
  -- Checking a password writes nothing, and says no more than whether it is the user's.
  verify_password_cases :
      (u password : String) (p : Process Store)
      → ((verify_password libs memory_repository none u password p ≡ (ok tt, p))
          × (x : User) × (lookup u p.stored.users_by_id ≡ some x))
        ⊎ (verify_password libs memory_repository none u password p
            ≡ (err (sentinel invalid_credentials), p))
  unfolding verify_password memory_repository find_user_by_id is
  verify_password_cases u password p = elim (Option-cases (lookup u p.stored.users_by_id)) [
    | inl e ↦ inr (ground arith)
    | inr (x, e) ↦ elim (Bool-cases (libs.matches x.password_hash password)) [
      | inl m ↦ inl (ground arith, x, e)
      | inr m ↦ inr (ground arith)
    ]
  ]

  delete_account_done :
      (u : String) (x : User) (p : Process Store)
      → lookup u p.stored.users_by_id ≡ some x
      → let (r, q) = delete_account libs memory_repository none u p in
        (r ≡ ok tt) × (lookup u q.stored.users_by_id ≡ none)
  unfolding delete_account memory_repository delete_sessions_for_user delete_user
  delete_account_done u x p e =
      (ground arith, ground (arith, lookup-delete_self u p.stored.users_by_id))

  logout_all_done :
      (u : String) (p : Process Store) → (logout_all libs memory_repository none u p).0 ≡ ok tt
  unfolding logout_all memory_repository delete_sessions_for_user
  logout_all_done u p = refl

refused_status : status_of (reply (handle_service_error (sentinel invalid_credentials))) ≡ some 401
unfolding handle_service_error write_error is answer insert str_eq
refused_status = refl

failed_status :
    status_of (
      reply {P = Body} (
        log error "account deletion cascade failed"
        ∷ write_error 500 (text "internal server error")))
    ≡ some 500
unfolding write_error answer insert str_eq
failed_status = refl

closed_status :
    (u : String) (insecure : Bool)
    → status_of (
        reply
          (audit "account_deleted" u ∷ (clear_session_cookie insecure ++ write_header 204 ∷ [])))
      ≡ some 204
unfolding clear_session_cookie set_cookie answer insert str_eq
closed_status u insecure = refl

Bool-pair-cases :
    {W : Type 0} (c : Bool × W) → ((w : W) × (c ≡ (true, w))) ⊎ ((w : W) × (c ≡ (false, w)))
Bool-pair-cases (true, w) = inl (w, refl)
Bool-pair-cases (false, w) = inr (w, refl)

module _ {W : Type 0} (h : Settings W) where
  -- What a request to delete the account does, and what it leaves under the hash `k`: the account
  -- is gone, or the users, sessions and tokens are as they were.
  abbrev pub ClosesOrKeeps : String → String → Request → Process Store → W → Type 0
  ClosesOrKeeps k password r p w =
      let u = from_context r.user_id in
      let (answer, (q, v)) =
        handle_delete_account h memory_repository none (some password) r (p, w) in
      let (verified, _) = verify_password h.libs memory_repository none u password p in
      ((verified ≡ ok tt)
        × (h.cascade none u w ≡ (true, v))
        × (status_of answer ≡ some 204)
        × (lookup u q.stored.users_by_id ≡ none)
        × Gone k q)
      ⊎ ((q ≡ p)
          × (((verified ≡ err (sentinel invalid_credentials))
                × (v ≡ w)
                × (status_of answer ≡ some 401))
              ⊎ ((verified ≡ ok tt)
                  × (h.cascade none u w ≡ (false, v))
                  × (status_of answer ≡ some 500))))

  -- In a process whose two tables list no hash twice, and whose cached tokens name the users of
  -- their sessions, with a live context and a body that was understood: either the password is the
  -- user's and the cascade succeeded, and then the answer is 204, the user is gone, and nothing is
  -- stored or cached under the hash of any token of the user; or the users, sessions and cached
  -- tokens are as they were, and either the password is wrong, nothing else was touched, and the
  -- answer is 401, or the cascade ran and failed, and the answer is 500.
  pub handle_delete_account_guarded :
      (k password : String) (r : Request) (p : Process Store) (w : W)
      → IsUnique p
      → Agree p
      → BelongsTo k (from_context r.user_id) p
      → ClosesOrKeeps k password r p w
  unfolding handle_delete_account
  handle_delete_account_guarded k password r p w unique agree mine =
      let u = from_context r.user_id in
      elim (verify_password_cases h.libs u password p) [
        | inr wrong ↦ rw wrong (inr (refl, inl (refl, refl, refused_status)))
        | inl (right, x, there) ↦ elim (Bool-pair-cases (h.cascade none u w)) [
          | inr (v, failed) ↦ rw (right, failed) (inr (refl, inr (refl, refl, failed_status)))
          | inl (v, emptied) ↦
              let (done, gone) = delete_account_done h.libs u x p there in
              rw (right, emptied, done)
                (inl (
                  refl,
                  refl,
                  closed_status u h.cookie_insecure,
                  gone,
                  (logout_all-Gone h.libs none k u p unique agree mine
                      (logout_all_done h.libs u p)).1,
                ))
        ]
      ]
