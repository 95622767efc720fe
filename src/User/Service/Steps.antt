-- ===== src/User/Service/Steps.antt =====
-- internal/user/service.go over the in-memory repository: how a call may change the sessions and the
-- cached tokens.
use task_api.User.Service.Calm.{
  Smaller-refl, Smaller-trans, IsCalm, forget-IsCalm, delete_all_for_user-IsCalm,
  delete_all_for_user_except-IsCalm, create_user-IsCalm, find_user_by_id-IsCalm,
  update_user_password-IsCalm, delete_user-IsCalm, find_sessions-IsCalm, delete_session-IsCalm,
  delete_sessions-IsCalm, delete_other_sessions-IsCalm,
}
use task_api.Common.{
  ℕ, String, Option, none, some, List, [], ◌∷◌, arith, inl, inr, Option-cases, select,
}
use task_api.Common.Dict.{values}
use task_api.Common.Sort.{sort_by}
use task_api.Common.Uuid.{new_id}
use task_api.Common.Failure.{Context, Result-cases, wrap, ◌>>◌}
use task_api.User.Entity.{User, Session}
use task_api.User.Memory.{
  Store, memory_repository, delete_session, delete_sessions_for_user,
  delete_sessions_for_user_except, find_sessions_for_user, belongs_to, later,
}
use task_api.User.Password.{validate_password}
use task_api.User.TokenCache.{delete_all_for_user_except}
use task_api.User.Service.{
  Libraries, ServiceAction, register, verify_password, change_password, delete_account, logout_all,
  list_sessions, revoke_session, revoke_first, logout, hash_token, ask, validate_email, on_tokens,
}

module _ (libs : Libraries) where
  pub register-IsCalm :
      (c : Context) (now salt : ℕ) (random : Option (ℕ → ℕ)) (email pw : String)
      → IsCalm (register libs memory_repository c now salt random email pw)
  unfolding register
  register-IsCalm c now salt random email pw p = elim (Result-cases (validate_email libs email)) [
    | inr (x, e) ↦ ground (arith, Smaller-refl p)
    | inl (address, e) ↦ elim (Result-cases (validate_password libs.lower pw)) [
      | inr (x, d) ↦ ground (arith, Smaller-refl p)
      | inl (_, d) ↦ elim (Option-cases (libs.generate salt pw)) [
        | inl h ↦ ground (arith, Smaller-refl p)
        | inr (hash, h) ↦ elim (Option-cases (new_id random)) [
          | inl n ↦ ground (arith, Smaller-refl p)
          | inr (id, n) ↦
              let u : User = record {
                id = id;
                email = address;
                created_at = now;
                updated_at = now;
                password_hash = hash;
              } in
              elim (Result-cases (memory_repository.create_user c u p.stored).0) [
                | inl (_, m) ↦ ground (arith, create_user-IsCalm c u p)
                | inr (x, m) ↦ ground (arith, create_user-IsCalm c u p)
              ]
        ]
      ]
    ]
  ]

  pub verify_password-IsCalm :
      (c : Context) (u pw : String) → IsCalm (verify_password libs memory_repository c u pw)
  unfolding verify_password
  verify_password-IsCalm c u pw p =
      elim (Result-cases (memory_repository.find_user_by_id c u p.stored).0) [
        | inl (a, e) ↦ ground (arith, find_user_by_id-IsCalm c u p)
        | inr (x, e) ↦ ground (arith, find_user_by_id-IsCalm c u p)
      ]

  pub logout-IsCalm :
      (c : Context) (token : String) → IsCalm (logout libs memory_repository c token)
  unfolding logout memory_repository delete_session
  logout-IsCalm none token p =
      let k = hash_token libs token in
      Smaller-trans (delete_session-IsCalm none k p)
        (forget-IsCalm k (ask (memory_repository.delete_session none k) p).1)
  logout-IsCalm (some e) token p = delete_session-IsCalm (some e) (hash_token libs token) p

  pub logout_all-IsCalm :
      (c : Context) (u : String) → IsCalm (logout_all libs memory_repository c u)
  unfolding logout_all memory_repository delete_sessions_for_user
  logout_all-IsCalm none u p =
      Smaller-trans (delete_sessions-IsCalm none u p)
        (delete_all_for_user-IsCalm u (ask (memory_repository.delete_sessions_for_user none u) p).1)
  logout_all-IsCalm (some e) u p = delete_sessions-IsCalm (some e) u p

  pub delete_account-IsCalm :
      (c : Context) (u : String) → IsCalm (delete_account libs memory_repository c u)
  unfolding delete_account logout_all memory_repository delete_sessions_for_user
  delete_account-IsCalm none u p =
      Smaller-trans (logout_all-IsCalm none u p)
        (delete_user-IsCalm none u (logout_all libs memory_repository none u p).1)
  delete_account-IsCalm (some e) u p = delete_sessions-IsCalm (some e) u p

  revoke_others : Context → String → String → ServiceAction Store (Unit {0})
  revoke_others c u k =
      wrap (ask (memory_repository.delete_sessions_for_user_except c u k))
      >> on_tokens (delete_all_for_user_except u k)

  revoke_others-IsCalm : (c : Context) (u k : String) → IsCalm (revoke_others c u k)
  unfolding revoke_others memory_repository delete_sessions_for_user_except
  revoke_others-IsCalm none u k p = Smaller-trans (delete_other_sessions-IsCalm none u k p) (
      delete_all_for_user_except-IsCalm u k
        (ask (memory_repository.delete_sessions_for_user_except none u k) p).1)
  revoke_others-IsCalm (some e) u k p = delete_other_sessions-IsCalm (some e) u k p

  pub change_password-IsCalm :
      (c : Context) (now salt : ℕ) (u old new token : String)
      → IsCalm (change_password libs memory_repository c now salt u old new token)
  unfolding change_password revoke_others
  change_password-IsCalm c now salt u old new token p =
      elim (Result-cases (validate_password libs.lower new)) [
        | inr (x, d) ↦ ground (arith, Smaller-refl p)
        | inl (_, d) ↦
            let q = (verify_password libs memory_repository c u old p).1 in
            let calm = verify_password-IsCalm c u old p in
            elim (Result-cases (verify_password libs memory_repository c u old p).0) [
              | inr (x, v) ↦ ground (arith, calm)
              | inl (_, v) ↦ elim (Option-cases (libs.generate salt new)) [
                | inl h ↦ ground (arith, calm)
                | inr (hash, h) ↦
                    let k = hash_token libs token in
                    let r = (memory_repository.update_user_password now c u hash q.stored).1 in
                    let set_calm =
                      Smaller-trans calm (update_user_password-IsCalm now c u hash q) in
                    elim (Result-cases
                      (memory_repository.update_user_password now c u hash q.stored).0) [
                        | inr (x, s) ↦ ground (arith, set_calm)
                        | inl (_, s) ↦ ground (
                          arith,
                          Smaller-trans set_calm
                              (revoke_others-IsCalm c u k (record q { stored = r })),
                        )
                      ]
              ]
            ]
      ]

  pub list_sessions-IsCalm :
      (c : Context) (u token : String) → IsCalm (list_sessions libs memory_repository c u token)
  unfolding list_sessions memory_repository find_sessions_for_user
  list_sessions-IsCalm none u token p = find_sessions-IsCalm none u p
  list_sessions-IsCalm (some e) u token p = find_sessions-IsCalm (some e) u p

  revoke_first-IsCalm :
      (c : Context) (id : String) (ss : List Session)
      → IsCalm (revoke_first libs memory_repository c id ss)
  unfolding revoke_first logout memory_repository delete_session
  revoke_first-IsCalm c id [] p = Smaller-refl p
  revoke_first-IsCalm none id (s ∷ ss) p = ground (
    arith,
    revoke_first-IsCalm none id ss p,
    Smaller-trans (delete_session-IsCalm none s.token_hash p)
        (forget-IsCalm s.token_hash (ask (memory_repository.delete_session none s.token_hash) p).1),
  )
  revoke_first-IsCalm (some e) id (s ∷ ss) p =
      ground
        (arith, revoke_first-IsCalm (some e) id ss p, delete_session-IsCalm (some e) s.token_hash p)

  pub revoke_session-IsCalm :
      (c : Context) (u id : String) → IsCalm (revoke_session libs memory_repository c u id)
  unfolding revoke_session memory_repository find_sessions_for_user
  revoke_session-IsCalm none u id p =
      revoke_first-IsCalm none id (sort_by later (select (belongs_to u) (values p.stored.sessions)))
        p
  revoke_session-IsCalm (some e) u id p = Smaller-refl p
