-- ===== src/User/Service/Calm.antt =====
-- internal/user/service.go over the in-memory repository: which calls only take sessions and cached
-- tokens away.
use task_api.Common.{ℕ, String, ◌≡◌, none, some, refl, ◌∙◌, arith, not, ◌&&◌, ltb, str_eq}
use task_api.Common.Dict.{
  Shrinks, Shrinks-refl, Shrinks-trans, delete_where-Shrinks, delete-Shrinks,
}
use task_api.Common.Failure.{Context, ok, err, wrap, lift, ◌>>=◌}
use task_api.User.Entity.{User, UserResult}
use task_api.User.Memory.{
  Store, memory_repository, create_user, delete_session, find_user_by_email, find_user_by_id,
  update_user_password, delete_user, find_session_by_token_hash, find_sessions_for_user, belongs_to,
  delete_sessions_for_user, delete_sessions_for_user_except, delete_expired_sessions,
}
use task_api.User.Repository.{RepoAction}
use task_api.User.TokenCache.{TokenCache, forget, delete_all_for_user, delete_all_for_user_except}
use task_api.User.Service.{Process, ServiceAction, ask, on_tokens}

-- Sessions and cached tokens may have gone, none has come or changed.
pub record Smaller (p p' : Process Store) : Type 0 where
  pub sessions : Shrinks p.stored.sessions p'.stored.sessions
  pub entries : Shrinks p.tokens.entries p'.tokens.entries
  pub same_ttl : p'.tokens.ttl ≡ p.tokens.ttl

pub Smaller-refl : (p : Process Store) → Smaller p p
Smaller-refl p = record {
  sessions = Shrinks-refl p.stored.sessions;
  entries = Shrinks-refl p.tokens.entries;
  same_ttl = refl;
}

pub Smaller-trans : {p q r : Process Store} → Smaller p q → Smaller q r → Smaller p r
Smaller-trans s t = record {
  sessions = Shrinks-trans s.sessions t.sessions;
  entries = Shrinks-trans s.entries t.entries;
  same_ttl = t.same_ttl ∙ s.same_ttl;
}

-- A call that can only take away.
abbrev pub IsCalm : {A : Type 0} → ServiceAction Store A → Type 0
IsCalm m = (p : Process Store) → Smaller p (m p).1

module _ {A B : Type 0} (f : A → ServiceAction Store B) (d : (a : A) → IsCalm (f a)) where
  abbrev go_on : UserResult A → Process Store → UserResult B × Process Store
  go_on r q = elim r [ ok a ↦ f a q | err e ↦ (err e, q) ]

  after-IsCalm : (p q : Process Store) (r : UserResult A) → Smaller p q → Smaller p (go_on r q).1
  after-IsCalm p q (ok a) s = Smaller-trans s (d a q)
  after-IsCalm p q (err e) s = s

  pub bind-IsCalm : (m : ServiceAction Store A) → IsCalm m → IsCalm (m >>= f)
  bind-IsCalm m c p = after-IsCalm p (m p).1 (m p).0 (c p)

pub wrap-IsCalm : {A : Type 0} (m : ServiceAction Store A) → IsCalm m → IsCalm (wrap m)
wrap-IsCalm m c p = c p

pub lift-IsCalm : {A : Type 0} (r : UserResult A) → IsCalm (lift r)
lift-IsCalm r p = Smaller-refl p

tokens-IsCalm :
    (f : TokenCache → TokenCache)
    → ((c : TokenCache) → Shrinks c.entries (f c).entries × ((f c).ttl ≡ c.ttl))
    → IsCalm (on_tokens f)
tokens-IsCalm f h p = record {
  sessions = Shrinks-refl p.stored.sessions;
  entries = (h p.tokens).0;
  same_ttl = (h p.tokens).1;
}

pub forget-IsCalm : (k : String) → IsCalm (on_tokens (forget k))
unfolding forget
forget-IsCalm k = tokens-IsCalm (forget k) (λ c. (delete-Shrinks k c.entries, refl))

pub delete_all_for_user-IsCalm : (u : String) → IsCalm (on_tokens (delete_all_for_user u))
unfolding delete_all_for_user
delete_all_for_user-IsCalm u =
    tokens-IsCalm (delete_all_for_user u)
      (λ c. (delete_where-Shrinks (λ hash entry. str_eq entry.user_id u) c.entries, refl))

pub delete_all_for_user_except-IsCalm :
    (u k : String) → IsCalm (on_tokens (delete_all_for_user_except u k))
unfolding delete_all_for_user_except
delete_all_for_user_except-IsCalm u k = tokens-IsCalm (delete_all_for_user_except u k) (λ c. (
  delete_where-Shrinks (λ hash entry. str_eq entry.user_id u && not (str_eq hash k)) c.entries,
  refl,
))

-- A call of the repository that can only take sessions away.
stored-IsCalm :
    {A : Type 0} (m : RepoAction Store A)
    → ((s : Store) → Shrinks s.sessions (m s).1.sessions)
    → IsCalm (ask m)
stored-IsCalm m h p = record {
  sessions = h p.stored;
  entries = Shrinks-refl p.tokens.entries;
  same_ttl = refl;
}

same-IsCalm :
    {A : Type 0} (m : RepoAction Store A)
    → ((s : Store) → (m s).1.sessions ≡ s.sessions)
    → IsCalm (ask m)
same-IsCalm m h = stored-IsCalm m (λ s. rw (h s) (Shrinks-refl s.sessions))

pub create_user-IsCalm : (c : Context) (u : User) → IsCalm (ask (memory_repository.create_user c u))
unfolding memory_repository create_user
create_user-IsCalm none u = same-IsCalm (create_user none u) (λ s. ground arith)
create_user-IsCalm (some e) u = same-IsCalm (create_user (some e) u) (λ s. refl)

pub find_user_by_email-IsCalm :
    (c : Context) (k : String) → IsCalm (ask (memory_repository.find_user_by_email c k))
unfolding memory_repository find_user_by_email
find_user_by_email-IsCalm none k = same-IsCalm (find_user_by_email none k) (λ s. refl)
find_user_by_email-IsCalm (some e) k = same-IsCalm (find_user_by_email (some e) k) (λ s. refl)

pub find_user_by_id-IsCalm :
    (c : Context) (k : String) → IsCalm (ask (memory_repository.find_user_by_id c k))
unfolding memory_repository find_user_by_id
find_user_by_id-IsCalm none k = same-IsCalm (find_user_by_id none k) (λ s. refl)
find_user_by_id-IsCalm (some e) k = same-IsCalm (find_user_by_id (some e) k) (λ s. refl)

pub update_user_password-IsCalm :
    (now : ℕ) (c : Context) (k h : String)
    → IsCalm (ask (memory_repository.update_user_password now c k h))
unfolding memory_repository update_user_password
update_user_password-IsCalm now none k h =
    same-IsCalm (update_user_password now none k h) (λ s. ground arith)
update_user_password-IsCalm now (some e) k h =
    same-IsCalm (update_user_password now (some e) k h) (λ s. refl)

pub delete_user-IsCalm :
    (c : Context) (k : String) → IsCalm (ask (memory_repository.delete_user c k))
unfolding memory_repository delete_user
delete_user-IsCalm none k = same-IsCalm (delete_user none k) (λ s. ground arith)
delete_user-IsCalm (some e) k = same-IsCalm (delete_user (some e) k) (λ s. refl)

pub find_session-IsCalm :
    (c : Context) (k : String) → IsCalm (ask (memory_repository.find_session_by_token_hash c k))
unfolding memory_repository find_session_by_token_hash
find_session-IsCalm none k = same-IsCalm (find_session_by_token_hash none k) (λ s. refl)
find_session-IsCalm (some e) k = same-IsCalm (find_session_by_token_hash (some e) k) (λ s. refl)

pub find_sessions-IsCalm :
    (c : Context) (u : String) → IsCalm (ask (memory_repository.find_sessions_for_user c u))
unfolding memory_repository find_sessions_for_user
find_sessions-IsCalm none u = same-IsCalm (find_sessions_for_user none u) (λ s. refl)
find_sessions-IsCalm (some e) u = same-IsCalm (find_sessions_for_user (some e) u) (λ s. refl)

pub delete_session-IsCalm :
    (c : Context) (k : String) → IsCalm (ask (memory_repository.delete_session c k))
unfolding memory_repository delete_session
delete_session-IsCalm none k =
    stored-IsCalm (delete_session none k) (λ s. delete-Shrinks k s.sessions)
delete_session-IsCalm (some e) k = same-IsCalm (delete_session (some e) k) (λ s. refl)

pub delete_sessions-IsCalm :
    (c : Context) (u : String) → IsCalm (ask (memory_repository.delete_sessions_for_user c u))
unfolding memory_repository delete_sessions_for_user
delete_sessions-IsCalm none u =
    stored-IsCalm (delete_sessions_for_user none u)
      (λ s. delete_where-Shrinks (λ hash x. belongs_to u x) s.sessions)
delete_sessions-IsCalm (some e) u = same-IsCalm (delete_sessions_for_user (some e) u) (λ s. refl)

pub delete_other_sessions-IsCalm :
    (c : Context) (u k : String)
    → IsCalm (ask (memory_repository.delete_sessions_for_user_except c u k))
unfolding memory_repository delete_sessions_for_user_except
delete_other_sessions-IsCalm none u k =
    stored-IsCalm (delete_sessions_for_user_except none u k)
      (λ s. delete_where-Shrinks (λ hash x. belongs_to u x && not (str_eq hash k)) s.sessions)
delete_other_sessions-IsCalm (some e) u k =
    same-IsCalm (delete_sessions_for_user_except (some e) u k) (λ s. refl)

pub delete_expired-IsCalm :
    (c : Context) (now : ℕ) → IsCalm (ask (memory_repository.delete_expired_sessions c now))
unfolding memory_repository delete_expired_sessions
delete_expired-IsCalm none now =
    stored-IsCalm (delete_expired_sessions none now)
      (λ s. delete_where-Shrinks (λ hash x. ltb x.expires_at now) s.sessions)
delete_expired-IsCalm (some e) now = same-IsCalm (delete_expired_sessions (some e) now) (λ s. refl)
