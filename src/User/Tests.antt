-- ===== src/User/Tests.antt =====
-- Runs of internal/user on concrete data, and the theorems at inputs that meet their hypotheses.
mod Calls
mod Http
mod Access
use Prim.Native.Char.{Char}
use Prim.Native.String.{count}
use task_api.Common.{
  ℕ, ◌+◌, ◌-◌, ◌*◌, ◌^◌, ◌≤◌, ◌<◌, min, String, ◌≡◌, refl, ◌≢◌, ◌↔◌, ◌⊎◌, inl, inr, Bool, true,
  false, none, some, arith, List, [], ◌∷◌, length, In, select, str_eq, str_eq_iff, ltb, leb,
  if◌then◌else◌, ap,
}
use task_api.Common.Dict.{lookup, insert, delete, delete_where, values}
use task_api.Common.Sort.{sort_by}
use task_api.Common.Text.{byte_length, to_lower, trim_space}
use task_api.Common.Failure.{Context, ok, err, sentinel, wrapped, is}
use task_api.User.Entity.{User, Session, not_found, invalid_credentials, user_sentinels, UserError}
use task_api.User.Memory.{
  Store, memory_repository, belongs_to, create_session, create_user, find_user_by_email,
  delete_session, delete_sessions_for_user, delete_sessions_for_user_except, find_user_by_id,
  update_user_password, empty_store,
}
use task_api.User.Memory.Sessions.{IsKeyed}
use task_api.User.Memory.Capacity.{create_session_bounded, create_session_evicts_oldest}
use task_api.User.Backoff.{curve, delay, record_success, login_backoff_idle_reset}
use task_api.User.Backoff.Curve.{curve_lem}
use task_api.User.Backoff.History.{delay_history, fail_at}
use task_api.User.Password.{validate_password}
use task_api.User.Password.Strength.{validate_password_iff, IsPredictable}
use task_api.User.WeakPasswords.{common_weak_passwords}
use task_api.User.Service.{
  Libraries, Process, hash_token, logout, logout_all, delete_account, validate_token,
  change_password, verify_password, authenticate, register, normalize_email, validate_email,
  new_process,
}
use task_api.User.Service.Changes.{Request, logout_request, validate_request, serve}
use task_api.User.Service.Revocation.{
  IsUnique, Gone, Agree, BelongsTo, serve_all, validate_token-Gone, logout-Gone, logout_all-Gone,
  serve-Agree,
}
use task_api.User.Service.Credentials.{change_password_revokes}
use task_api.User.Service.Login.{authenticate_indistinguishable, authenticate-register}
use task_api.Common.Uuid.{hex_encode, new_id}

abbrev pub old_session : Session
old_session = record { token_hash = "h1"; user_id = "ann"; expires_at = 100; created_at = 1 }

abbrev pub middle_session : Session
middle_session = record { token_hash = "h2"; user_id = "ann"; expires_at = 110; created_at = 2 }

abbrev pub bob_session : Session
bob_session = record { token_hash = "h3"; user_id = "bob"; expires_at = 100; created_at = 1 }

abbrev pub new_session : Session
new_session = record { token_hash = "h4"; user_id = "ann"; expires_at = 120; created_at = 3 }

abbrev pub ann : User
ann = record {
  id = "ann";
  email = "ann@example.org";
  created_at = 0;
  updated_at = 0;
  password_hash = "correct horse";
}

abbrev pub store : Store
store = record {
  users_by_id = ("ann", ann) ∷ [];
  users_by_email = ("ann@example.org", "ann") ∷ [];
  sessions = ("h1", old_session) ∷ ("h2", middle_session) ∷ ("h3", bob_session) ∷ [];
}

abbrev pub bob_address : String
bob_address = "bob@example.org"

abbrev pub ann_address : String
ann_address = "ann@example.org"

other_addresses : bob_address ≢ ann_address
unfolding str_eq
other_addresses = λ e. cc ((str_eq_iff "bob@example.org" "ann@example.org").1 e)

create_session_bounded_example :
    let after = (create_session none new_session 2 store).1.sessions in
    (length (select (belongs_to "ann") (values after)) ≤ 2)
    × ((k : String)
        → (lookup k after ≡ lookup k store.sessions)
          ⊎ (k ≡ "h4")
          ⊎ ((a : Session) × (lookup k store.sessions ≡ some a)
              × (a.user_id ≡ "ann")
              × (lookup k after ≡ none)))
    × ((after ≡ insert "h4" new_session store.sessions)
        ⊎ (2
            < length (select (belongs_to "ann") (values (insert "h4" new_session store.sessions)))))
unfolding lookup str_eq
create_session_bounded_example =
    create_session_bounded new_session 2 store (refl, (refl, (refl, tt))) (refl, (refl, (refl, tt)))

evicted : lookup "h1" (create_session none new_session 2 store).1.sessions ≡ none
unfolding lookup str_eq create_session insert sort_by delete delete_where
evicted = refl

left : lookup "h2" (create_session none new_session 2 store).1.sessions ≡ some middle_session
unfolding lookup str_eq create_session insert sort_by delete delete_where
left = refl

create_session_evicts_oldest_example : (old_session.user_id ≡ new_session.user_id) × (1 ≤ 2)
unfolding lookup str_eq insert
create_session_evicts_oldest_example =
    create_session_evicts_oldest new_session 2 store "h1" "h2" old_session middle_session
      (refl, (refl, (refl, tt))) (refl, (refl, (refl, tt))) refl evicted left refl

delay_history_example :
    let after = fail_at "ann@example.org" (0 ∷ 10 ∷ 20 ∷ 30 ∷ []) [] in
    ((delay 40 "ann@example.org" after).0 ≡ curve 4)
    × ((delay 40 "ann@example.org" (record_success "ann@example.org" after)).0 ≡ 0)
    × ((delay 900_000_000_031 "ann@example.org" after).0 ≡ 0)
    × ((delay 40 "bob@example.org" after).0 ≡ (delay 40 "bob@example.org" []).0)
unfolding lookup
delay_history_example =
    delay_history ann_address bob_address 0 (10 ∷ 20 ∷ 30 ∷ []) 40 900_000_000_031 [] refl
      other_addresses (ground arith) (omega arith)

abbrev pub lower : Char → Char
lower c = c

validate_password_iff_example : (validate_password lower "correct horse" ≡ ok tt) ↔ (
    (8 ≤ byte_length "correct horse")
    × (byte_length "correct horse" ≤ 72)
    × ¬ In (to_lower lower "correct horse") common_weak_passwords
    × ¬ IsPredictable "correct horse")
validate_password_iff_example = validate_password_iff lower "correct horse"

-- Libraries that compute: a hash of a password is the password, a digest the length of its text.
abbrev pub libs : Libraries
libs = record {
  generate = λ salt pw. some pw;
  matches = λ hash pw. str_eq hash pw;
  sha256 = λ text i. count text;
  lower = lower;
  accepts_email = λ n email. leb (count email) n;
}

abbrev pub current_session : Session
current_session = record {
  token_hash = hash_token libs "a";
  user_id = "ann";
  expires_at = 100;
  created_at = 1;
}

abbrev pub stolen_session : Session
stolen_session = record {
  token_hash = hash_token libs "bb";
  user_id = "ann";
  expires_at = 100;
  created_at = 2;
}

-- Two sessions of a user, the second of them cached.
abbrev pub process : Process Store
process = record {
  stored = record store {
    sessions = (hash_token libs "a", current_session) ∷ (hash_token libs "bb", stolen_session) ∷ [];
  };
  tokens = record {
    entries = (hash_token libs "bb", record { user_id = "ann"; expires_at = 50 }) ∷ [];
    ttl = 2_000_000_000;
  };
  backoff = [];
  slept = [];
}

pub process-IsUnique : IsUnique process
unfolding lookup str_eq hash_token hex_encode
process-IsUnique = ((refl, (refl, tt)), (refl, tt))

pub process-Agree : Agree process
unfolding lookup
process-Agree k e s h g = ground (arith)

pub stolen-BelongsTo : BelongsTo (hash_token libs "bb") "ann" process
unfolding lookup str_eq hash_token hex_encode
stolen-BelongsTo = inl (stolen_session, refl, refl)
