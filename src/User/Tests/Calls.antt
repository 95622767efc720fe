-- ===== src/User/Tests/Calls.antt =====
-- Runs of internal/user/service.go, and its theorems at inputs that meet their hypotheses.
use task_api.Common.{
  ℕ, ◌≤◌, String, ◌≡◌, refl, ◌≢◌, true, false, none, some, arith, [], ◌∷◌, str_eq, str_eq_iff,
}
use task_api.Common.Dict.{lookup}
use task_api.Common.Text.{to_lower, trim_space}
use task_api.Common.Failure.{ok, err, sentinel, wrapped, is}
use task_api.User.Entity.{User, not_found, invalid_credentials, user_sentinels}
use task_api.User.Memory.{
  memory_repository, create_user, find_user_by_email, delete_session, delete_sessions_for_user,
  delete_sessions_for_user_except, find_user_by_id, update_user_password, empty_store,
}
use task_api.User.Backoff.{delay}
use task_api.User.Password.{validate_password}
use task_api.User.WeakPasswords.{common_weak_passwords}
use task_api.User.Service.{
  hash_token, logout, logout_all, delete_account, validate_token, change_password, verify_password,
  authenticate, register, normalize_email, validate_email, new_process,
}
use task_api.User.Service.Changes.{logout_request, validate_request, serve}
use task_api.User.Service.Revocation.{
  IsUnique, Gone, Agree, serve_all, validate_token-Gone, logout_all-Gone, serve-Agree,
}
use task_api.User.Service.Credentials.{change_password_revokes}
use task_api.User.Service.Login.{authenticate_indistinguishable, authenticate-register}
use task_api.Common.Uuid.{hex_encode, new_id}
use task_api.User.Tests.{
  ann, store, libs, process, process-IsUnique, process-Agree, stolen-BelongsTo,
}

logged_out : (logout libs memory_repository none "bb" process).0 ≡ ok tt
unfolding logout memory_repository delete_session
logged_out = refl

logged_out_all : (logout_all libs memory_repository none "ann" process).0 ≡ ok tt
unfolding logout_all memory_repository delete_sessions_for_user
logged_out_all = refl

logout_all-Gone_example :
    Gone (hash_token libs "bb") (logout_all libs memory_repository none "ann" process).1
    × Gone (hash_token libs "bb") (delete_account libs memory_repository none "ann" process).1
logout_all-Gone_example =
    logout_all-Gone libs none (hash_token libs "bb") "ann" process process-IsUnique process-Agree
      stolen-BelongsTo logged_out_all

never_stored : Gone (hash_token libs "ccc") process
unfolding lookup str_eq hash_token hex_encode
never_stored = (refl, refl)

validate_token-Gone_example :
    (validate_token libs memory_repository none
      (λ _. 7)
      "ccc"
      (serve_all libs ((none, logout_request "a") ∷ []) process)).0
    ≡ err (wrapped (sentinel not_found))
validate_token-Gone_example =
    validate_token-Gone libs ((none, logout_request "a") ∷ []) "ccc" (λ _. 7) process
      process-IsUnique never_stored (λ e. cc, tt)

bcrypt :
    (salt : ℕ) (pw hash : String) → libs.generate salt pw ≡ some hash → libs.matches hash pw ≡ true
bcrypt salt pw hash h = ground (arith, str_eq_iff hash pw)

password_changed :
    (change_password libs memory_repository none 9 0 "ann" "correct horse" "battery staple" "a"
      process).0
    ≡ ok tt
unfolding change_password verify_password memory_repository delete_sessions_for_user_except
    find_user_by_id update_user_password validate_password lookup str_eq common_weak_passwords
    to_lower
password_changed = refl

other_token : hash_token libs "bb" ≢ hash_token libs "a"
unfolding hash_token hex_encode str_eq
other_token e = cc ((str_eq_iff (hash_token libs "bb") (hash_token libs "a")).1 e)

change_password_revokes_example :
    let q =
      (change_password libs memory_repository none 9 0 "ann" "correct horse" "battery staple" "a"
        process).1 in
    Gone (hash_token libs "bb") q
    × (lookup (hash_token libs "a") q.stored.sessions
        ≡ lookup (hash_token libs "a") process.stored.sessions)
    × (validate_password libs.lower "battery staple" ≡ ok tt)
    × ((verify_password libs memory_repository none "ann" "correct horse" process).0 ≡ ok tt)
    × ((verify_password libs memory_repository none "ann" "battery staple" q).0 ≡ ok tt)
change_password_revokes_example =
    change_password_revokes libs bcrypt none 9 0 (hash_token libs "bb") "ann" "correct horse"
      "battery staple" "a" process process-IsUnique process-Agree stolen-BelongsTo other_token
      password_changed

serve-Agree_example :
    IsUnique (serve libs none (validate_request (λ _. 7) "a") process)
    × Agree (serve libs none (validate_request (λ _. 7) "a") process)
serve-Agree_example =
    serve-Agree libs none (validate_request (λ _. 7) "a") process (λ k e. cc) process-IsUnique
      process-Agree

unknown_address :
    (memory_repository.find_user_by_email none
      (normalize_email libs "ann@example.org")
      empty_store).0
    ≡ err (sentinel not_found)
unfolding memory_repository find_user_by_email lookup
unknown_address = refl

known_address :
    (memory_repository.find_user_by_email none (normalize_email libs "ann@example.org") store).0
    ≡ ok ann
unfolding memory_repository find_user_by_email lookup str_eq normalize_email trim_space to_lower
known_address = refl

wrong_password : libs.matches ann.password_hash "guess" ≡ false
unfolding str_eq
wrong_password = refl

is_missing : is (sentinel not_found) not_found ≡ true
unfolding is
is_missing = refl

authenticate_indistinguishable_example :
    let (r, p) =
      authenticate libs memory_repository none
        (λ _. 7)
        "ann@example.org"
        "guess"
        (new_process empty_store) in
    let (s, q) =
      authenticate libs memory_repository none
        (λ _. 7)
        "ann@example.org"
        "guess"
        (new_process store) in
    (r ≡ err (sentinel invalid_credentials))
    × (r ≡ s)
    × (p.slept ≡ q.slept)
    × (p.backoff ≡ q.backoff)
authenticate_indistinguishable_example =
    authenticate_indistinguishable libs memory_repository none (λ _. 7) "ann@example.org" "guess"
      (new_process empty_store) (new_process store) (sentinel not_found) ann unknown_address
      is_missing known_address wrong_password refl refl

abbrev bob : User
bob = record {
  id = "abababab-abab-4bab-abab-abababababab";
  email = "bob@example.org";
  created_at = 5;
  updated_at = 5;
  password_hash = "battery staple";
}

bob_registers :
    (register libs memory_repository none 5 0
      (some (λ _. 171))
      " bob@example.org"
      "battery staple"
      process).0
    ≡ ok bob
unfolding register validate_email validate_password memory_repository create_user lookup str_eq
    new_id normalize_email trim_space to_lower common_weak_passwords
bob_registers = refl

same_address : normalize_email libs "bob@example.org " ≡ normalize_email libs " bob@example.org"
unfolding normalize_email trim_space to_lower
same_address = refl

authenticate-register_example :
    let q =
      (register libs memory_repository none 5 0
        (some (λ _. 171))
        " bob@example.org"
        "battery staple"
        process).1 in
    let (r, q') =
      authenticate libs memory_repository none (λ _. 7) "bob@example.org " "battery staple" q in
    (r ≡ ok bob)
    × ((wait : ℕ) × (wait ≤ 4_000_000_000) × (q'.slept ≡ wait ∷ q.slept))
    × ((delay 8 (normalize_email libs " bob@example.org") q'.backoff).0 ≡ 0)
authenticate-register_example =
    let q =
      (register libs memory_repository none 5 0 (some (λ _. 171)) " bob@example.org"
        "battery staple" process).1 in
    authenticate-register libs bcrypt 5 0 (some (λ _. 171)) " bob@example.org" "bob@example.org "
      "battery staple" (λ _. 7) 8 process q bob bob_registers same_address refl
