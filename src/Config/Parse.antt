-- ===== src/Config/Parse.antt =====
-- internal/config/config.go: the helpers that read one variable. The grammars of Go's durations,
-- floating-point numbers, addresses, networks and URLs, the floating-point type, and the lower-case
-- table, are arguments; an error's text is left out, what it names and complains of is kept.
use Prim.Native.Char.{Char}
use Prim.Native.String.{String}
use task_api.Common.{
  ℕ, zero, suc, Bool, true, false, not, ◌&&◌, ◌||◌, Option, none, some, List, [], ◌∷◌, ltb, ◌==◌,
  if◌then◌else◌, str_eq,
}
use task_api.Common.Decimal.{atoi}
use task_api.Common.Int.{ℤ, pos, negsuc, is_negative}
use task_api.Common.Log.{Level, debug, info, warn, error}
use task_api.Common.Text.{trim_space, to_lower}
use task_api.Common.Strings.{split}
use task_api.Config.Env.{Env, getenv}
use task_api.Config.Dotenv.{DotenvError}

-- What Go's packages are asked for; `none` and `false` stand for their errors. `ratio m n` is the
-- constant m/n, `split_host_port` gives the port, `parse_prefix` the bits, `parse_url` the scheme
-- and the host.
pub record Readers (F : Type 0) : Type 0 where
  pub time_parse_duration : String → Option ℤ
  pub parse_float : String → Option F
  pub is_nan : F → Bool
  pub at_most_zero : F → Bool
  pub ratio : ℕ → ℕ → F
  pub split_host_port : String → Option String
  pub parse_prefix : String → Option ℕ
  pub parse_addr : String → Bool
  pub parse_url : String → Option (String × String)
  pub lower : Char → Char

pub data Complaint : Type 0 where
  unreadable not_positive negative : Complaint
  bad_host_port bad_port port_out_of_range : Complaint
  unknown_level : Complaint
  default_route bad_network : String → Complaint
  has_scheme required bad_url not_http no_host : Complaint

pub data ConfigError : Type 0 where
  dotenv_failed : String → DotenvError → ConfigError
  invalid : String → Complaint → ConfigError
  two_backends : ConfigError
  l1_beyond_ttl : ConfigError

pub data Loaded (A : Type 0) : Type 0 where
  ok : A → Loaded A
  err : ConfigError → Loaded A

infixl 5 ◌>>=◌ ◌>>◌
abbrev pub ◌>>=◌ : {A B : Type 0} → Loaded A → (A → Loaded B) → Loaded B
ok a >>= f = f a
err e >>= f = err e

abbrev pub ◌>>◌ : {A B : Type 0} → Loaded A → Loaded B → Loaded B
m >> k = m >>= λ _. k

-- `if c { return Config{}, e }`
unfoldable pub fail_if : Bool → ConfigError → Loaded (Unit {0})
fail_if true e = err e
fail_if false e = ok tt

-- `n <= 0`
abbrev pub is_not_positive : ℤ → Bool
is_not_positive (pos zero) = true
is_not_positive (pos (suc n)) = false
is_not_positive (negsuc n) = true

-- A variable read by `read`, `def` if it is empty, refused with `complaint` if it fails `refuse`:
-- what the next helpers share.
unfoldable pub parse_value :
    {A : Type 0} → (String → Option A) → (A → Bool) → Complaint → Env → String → A → Loaded A
parse_value read refuse complaint env name def =
    let raw = getenv env name in
    if str_eq raw "" then ok def else elim (read raw) [
      | none ↦ err (invalid name unreadable)
      | some a ↦ if refuse a then err (invalid name complaint) else ok a
    ]

-- `parsePositiveInt` and `parsePositiveInt64`
unfoldable pub parse_positive_int : Env → String → ℤ → Loaded ℤ
unfolding parse_value
parse_positive_int = parse_value atoi is_not_positive not_positive

abbrev bool_of : String → Option Bool
bool_of s =
    if str_eq s "1"
      || str_eq s "t"
      || str_eq s "T"
      || str_eq s "TRUE"
      || str_eq s "true"
      || str_eq s "True"
    then some true
    else if str_eq s "0"
        || str_eq s "f"
        || str_eq s "F"
        || str_eq s "FALSE"
        || str_eq s "false"
        || str_eq s "False"
    then some false
    else none

-- `parseBool`; `bool_of` is `strconv.ParseBool`.
unfoldable pub parse_bool : Env → String → Bool → Loaded Bool
unfolding parse_value
parse_bool = parse_value bool_of (λ _. false) unreadable

unfoldable pub trimmed_entries : List String → List String
trimmed_entries [] = []
trimmed_entries (raw ∷ raws) =
    let entry = trim_space raw in
    let rest = trimmed_entries raws in if str_eq entry "" then rest else entry ∷ rest

-- `parseCommaSeparated`
unfoldable pub parse_comma_separated : Env → String → List String
unfolding trimmed_entries
parse_comma_separated env name =
    let raw = getenv env name in if str_eq raw "" then [] else trimmed_entries (split b',' raw)

module _ {F : Type 0} (go : Readers F) where
  -- `parseDuration`
  unfoldable pub parse_duration : Env → String → ℤ → Loaded ℤ
  unfolding parse_value
  parse_duration = parse_value go.time_parse_duration is_not_positive not_positive

  -- `parseNonNegativeDuration`
  unfoldable pub parse_non_negative_duration : Env → String → ℤ → Loaded ℤ
  unfolding parse_value
  parse_non_negative_duration = parse_value go.time_parse_duration is_negative negative

  -- `parsePositiveFloat`
  unfoldable pub parse_positive_float : Env → String → F → Loaded F
  unfolding parse_value
  parse_positive_float =
      parse_value go.parse_float (λ f. go.is_nan f || go.at_most_zero f) not_positive

  -- `parseLogLevel`
  unfoldable pub parse_log_level : Env → String → Level → Loaded Level
  parse_log_level env name def =
      let raw = getenv env name in
      let level = to_lower go.lower raw in
      if str_eq raw ""
      then ok def
      else if str_eq level "debug"
      then ok debug
      else if str_eq level "info"
      then ok info
      else if str_eq level "warn" || str_eq level "warning"
      then ok warn
      else if str_eq level "error"
      then ok error
      else err (invalid name unknown_level)

  -- `validateAddr` of the variable's text
  unfoldable pub validate_addr : String → String → Loaded (Unit {0})
  validate_addr name raw = elim (go.split_host_port raw) [
    | none ↦ err (invalid name bad_host_port)
    | some port ↦ elim (atoi port) [
      | none ↦ err (invalid name bad_port)
      | some (negsuc n) ↦ err (invalid name port_out_of_range)
      | some (pos n) ↦
          if ltb n 1 || ltb 65535 n then err (invalid name port_out_of_range) else ok tt
    ]
  ]

  -- The loop of `parseCIDRList`
  unfoldable pub check_networks : String → List String → Loaded (Unit {0})
  check_networks name [] = ok tt
  check_networks name (entry ∷ entries) =
      let rest = check_networks name entries in
      elim (go.parse_prefix entry) [
        | some bits ↦ if bits == 0 then err (invalid name (default_route entry)) else rest
        | none ↦ if go.parse_addr entry then rest else err (invalid name (bad_network entry))
      ]

  -- `parseCIDRList`
  unfoldable pub parse_cidr_list : Env → String → Loaded (List String)
  unfolding check_networks
  parse_cidr_list env name = do
    let raw = parse_comma_separated env name
    check_networks name raw
    ok raw

  -- `validateLinkPublicBaseURL`
  unfoldable pub validate_link_public_base_url : String → Loaded (Unit {0})
  validate_link_public_base_url raw =
      if str_eq raw ""
      then err (invalid "LINK_PUBLIC_BASE_URL" required)
      else elim (go.parse_url raw) [
        | none ↦ err (invalid "LINK_PUBLIC_BASE_URL" bad_url)
        | some (scheme, host) ↦
            if not (str_eq scheme "http") && not (str_eq scheme "https")
            then err (invalid "LINK_PUBLIC_BASE_URL" not_http)
            else if str_eq host ""
            then err (invalid "LINK_PUBLIC_BASE_URL" no_host)
            else ok tt
      ]
