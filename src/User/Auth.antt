-- ===== src/User/Auth.antt =====
-- internal/user/middleware.go: which requests pass. A request is what the middleware reads of it: the
-- Authorization header and the session cookie.
pub mod Outage
pub mod Protect
pub mod Passing
use Prim.Native.Char.{Char, code}
use Prim.Native.String.{String, [], ◌∷◌}
use task_api.Common.{
  ℕ, Bool, true, false, not, ◌&&◌, Option, none, some, ◌==◌, if◌then◌else◌, str_eq,
}
use task_api.Common.Failure.{Context, Result, ok, err, is}
use task_api.User.Entity.{not_found, user_sentinels}
use task_api.User.Repository.{Repository}
use task_api.User.Service.{Libraries, Process, ServiceAction, validate_token}
use task_api.User.Backoff
use task_api.User.TokenCache

-- `strings.CutPrefix`
unfoldable pub cut_prefix : String → String → Option String
cut_prefix [] s = some s
cut_prefix (c ∷ p) [] = none
cut_prefix (c ∷ p) (d ∷ s) = if code c == code d then cut_prefix p s else none

unfoldable pub bearer_token : String → Option String
unfolding cut_prefix
bearer_token header = elim (cut_prefix "Bearer " header) [
  | none ↦ none
  | some token ↦ if str_eq token "" then none else some token
]

pub record Credentials : Type 0 where
  pub authorization : String
  pub cookie : Option String

pub data Source : Type 0 where
  bearer cookie_source nowhere : Source

unfoldable pub credential_source : Credentials → Source × String
unfolding bearer_token
credential_source r = elim (bearer_token r.authorization) [
  | some token ↦ (bearer, token)
  | none ↦ elim r.cookie [
    | none ↦ (nowhere, "")
    | some token ↦ if not (str_eq token "") then (cookie_source, token) else (nowhere, "")
  ]
]

-- What becomes of a request: it is answered with a status here, or goes on with the user and the
-- token in its context.
pub data Verdict : Type 0 where
  answered : ℕ → Verdict
  passed : String → String → Verdict

unfoldable pub require_auth :
    {St : Type 0}
    → Libraries
    → Repository St
    → Context
    → (ℕ → ℕ)
    → Credentials
    → Process St
    → Verdict × Process St
unfolding credential_source
require_auth libs repo ctx clock request p =
    let token = (credential_source request).1 in
    let (r, q) = validate_token libs repo ctx clock token p in
    if str_eq token "" then (answered 401, p) else (
      elim r [
        | ok user_id ↦ passed user_id token
        | err e ↦ if is e not_found then answered 401 else answered 503
      ],
      q,
    )
