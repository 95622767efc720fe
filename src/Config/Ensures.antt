-- ===== src/Config/Ensures.antt =====
-- Results that satisfy a predicate if they are values, and what the helpers of internal/config give.
use Prim.Native.String.{String}
use task_api.Common.{
  ℕ, ◌≤◌, ◌<◌, ◌≡◌, refl, subst, ◌⊎◌, inl, inr, Bool, true, false, ◌||◌, Option, none, some, List,
  [], ◌∷◌, arith, str_eq, str_eq_iff, All, Bool-cases, Option-cases,
}
use task_api.Common.Decimal.{atoi}
use task_api.Common.Int.{ℤ, pos, negsuc, is_negative}
use task_api.Common.Text.{trim_space, StartsClean, EndsClean, trim_space-clean}
use task_api.Common.Strings.{split}
use task_api.Config.Env.{Env, getenv}
use task_api.Config.Parse.{
  Readers, ConfigError, Complaint, not_positive, negative, Loaded, ok, err, ◌>>=◌, is_not_positive,
  parse_value, fail_if, parse_positive_int, trimmed_entries, parse_comma_separated, parse_duration,
  parse_non_negative_duration, parse_positive_float, validate_addr, check_networks, parse_cidr_list,
  validate_link_public_base_url,
}

-- If the result is a value, the value satisfies `P`.
pub data Ensures {A : Type 0} (P : A → Type 0) : Loaded A → Type 0 where
  value : (a : A) → P a → Ensures P (ok a)
  failure : (e : ConfigError) → Ensures P (err e)

module _ {A B : Type 0} {P : A → Type 0} {Q : B → Type 0} where
  pub Ensures-bind :
      {m : Loaded A} (f : A → Loaded B)
      → Ensures P m
      → ((a : A) → P a → Ensures Q (f a))
      → Ensures Q (m >>= f)
  Ensures-bind f (value a h) k = k a h
  Ensures-bind f (failure e) k = failure e

abbrev pub Any : {A : Type 0} → A → Type 0
Any a = Unit

pub Ensures-Any : {A : Type 0} (m : Loaded A) → Ensures Any m
Ensures-Any (ok a) = value a tt
Ensures-Any (err e) = failure e

Ensures-ok : {A : Type 0} (P : A → Type 0) {a : A} → Ensures P (ok a) → P a
Ensures-ok P (value a h) = h

pub Ensures-eq_ok :
    {A : Type 0} (P : A → Type 0) {m : Loaded A} {a : A} → Ensures P m → m ≡ ok a → P a
Ensures-eq_ok P h e = Ensures-ok P (subst (Ensures P) e h)

pub Ensures-of :
    {A : Type 0} {P : A → Type 0} (m : Loaded A) → ((a : A) → m ≡ ok a → P a) → Ensures P m
Ensures-of (ok a) h = value a (h a refl)
Ensures-of (err e) h = failure e

pub fail_if-Ensures : (c : Bool) (e : ConfigError) → Ensures (λ _. c ≡ false) (fail_if c e)
unfolding fail_if
fail_if-Ensures true e = failure e
fail_if-Ensures false e = value tt refl

-- What `parse_value` returns passes the test, if the default does.
parse_value-Ensures :
    {A : Type 0} (read : String → Option A) (refuse : A → Bool) (c : Complaint) (env : Env)
    (name : String) (def : A)
    → refuse def ≡ false
    → Ensures (λ a. refuse a ≡ false) (parse_value read refuse c env name def)
unfolding parse_value
parse_value-Ensures read refuse c env name def h = elim (Bool-cases (str_eq (getenv env name) "")) [
  | inl e ↦ rw e (value def h)
  | inr e ↦ rw e (elim (Option-cases (read (getenv env name))) [
    | inl k ↦ rw k (failure _)
    | inr (a, k) ↦
        rw k (elim (Bool-cases (refuse a)) [ inl j ↦ rw j (failure _) | inr j ↦ rw j (value a j) ])
  ])
]

abbrev pub IsPositive : ℤ → Type 0
IsPositive d = is_not_positive d ≡ false

abbrev pub IsNatural : ℤ → Type 0
IsNatural d = is_negative d ≡ false

pub parse_positive_int-Ensures :
    (env : Env) (name : String) (def : ℤ)
    → IsPositive def
    → Ensures IsPositive (parse_positive_int env name def)
unfolding parse_positive_int
parse_positive_int-Ensures = parse_value-Ensures atoi is_not_positive not_positive

module _ {F : Type 0} (go : Readers F) where
  pub parse_duration-Ensures :
      (env : Env) (name : String) (def : ℤ)
      → IsPositive def
      → Ensures IsPositive (parse_duration go env name def)
  unfolding parse_duration
  parse_duration-Ensures = parse_value-Ensures go.time_parse_duration is_not_positive not_positive

  pub parse_non_negative_duration-Ensures :
      (env : Env) (name : String) (def : ℤ)
      → IsNatural def
      → Ensures IsNatural (parse_non_negative_duration go env name def)
  unfolding parse_non_negative_duration
  parse_non_negative_duration-Ensures =
      parse_value-Ensures go.time_parse_duration is_negative negative

  -- The text names a port between 1 and 65535.
  abbrev pub HasPort : String → Type 0
  HasPort addr =
      (port : String) × (n : ℕ) × (go.split_host_port addr ≡ some port)
      × (atoi port ≡ some (pos n))
      × (1 ≤ n)
      × (n ≤ 65535)

  pub validate_addr-HasPort :
      (name raw : String) (done : Unit {0}) → validate_addr go name raw ≡ ok done → HasPort raw
  unfolding validate_addr
  validate_addr-HasPort name raw done h = elim (Option-cases (go.split_host_port raw)) [
    | inl e ↦ absurd (ground arith)
    | inr (port, e) ↦ elim (Option-cases (atoi port)) [
      | inl k ↦ absurd (ground arith)
      | inr (negsuc n, k) ↦ absurd (ground arith)
      | inr (pos n, k) ↦ (port, n, e, k, ground arith, ground arith)
    ]
  ]

  -- A number that may stand as a rate.
  abbrev pub IsRate : F → Type 0
  IsRate f = (go.is_nan f || go.at_most_zero f) ≡ false

  pub parse_positive_float-Ensures :
      (env : Env) (name : String) (def : F)
      → IsRate def
      → Ensures IsRate (parse_positive_float go env name def)
  unfolding parse_positive_float
  parse_positive_float-Ensures =
      parse_value-Ensures go.parse_float (λ f. go.is_nan f || go.at_most_zero f) not_positive

  -- A network that is not the default route, or an address.
  abbrev pub IsNetwork : String → Type 0
  IsNetwork entry =
      ((bits : ℕ) × (go.parse_prefix entry ≡ some bits) × (0 < bits))
      ⊎ ((go.parse_prefix entry ≡ none) × (go.parse_addr entry ≡ true))

  check_networks-All :
      (name : String) (entries : List String) (done : Unit {0})
      → check_networks go name entries ≡ ok done
      → All IsNetwork entries
  unfolding check_networks
  check_networks-All name [] done h = tt
  check_networks-All name (entry ∷ entries) done h = elim (Option-cases (go.parse_prefix entry)) [
    | inl e ↦ (inr (e, ground arith), check_networks-All name entries done (ground arith))
    | inr (bits, e) ↦
        (inl (bits, e, ground arith), check_networks-All name entries done (ground arith))
  ]

  pub parse_cidr_list-Ensures :
      (env : Env) (name : String) → Ensures (All IsNetwork) (parse_cidr_list go env name)
  unfolding parse_cidr_list
  parse_cidr_list-Ensures env name =
      Ensures-bind _ (Ensures-of _ (check_networks-All name (parse_comma_separated env name)))
        λ _ p. value _ p

  -- The URL is absolute, by HTTP or HTTPS, and has a host.
  abbrev pub IsPublicUrl : String → Type 0
  IsPublicUrl raw =
      (scheme : String) × (host : String) × (go.parse_url raw ≡ some (scheme, host))
      × ((scheme ≡ "http") ⊎ (scheme ≡ "https"))
      × (str_eq host "" ≡ false)

  pub validate_link_public_base_url-IsPublicUrl :
      (raw : String) (done : Unit {0})
      → validate_link_public_base_url go raw ≡ ok done
      → IsPublicUrl raw
  unfolding validate_link_public_base_url
  validate_link_public_base_url-IsPublicUrl raw done h = elim (Option-cases (go.parse_url raw)) [
    | inl e ↦ absurd (ground arith)
    | inr ((scheme, host), e) ↦ (
      scheme,
      host,
      e,
      ground (arith, str_eq_iff scheme "http", str_eq_iff scheme "https"),
      ground arith,
    )
  ]

-- A text that is not empty, with no space at its ends.
abbrev pub IsEntry : String → Type 0
IsEntry s = (str_eq s "" ≡ false) × StartsClean s × EndsClean s

trimmed_entries-All : (raws : List String) → All IsEntry (trimmed_entries raws)
unfolding trimmed_entries
trimmed_entries-All [] = tt
trimmed_entries-All (raw ∷ raws) = elim (Bool-cases (str_eq (trim_space raw) "")) [
  | inl e ↦ rw e (trimmed_entries-All raws)
  | inr e ↦ rw e ((e, (trim_space-clean raw).0, (trim_space-clean raw).1), trimmed_entries-All raws)
]

pub parse_comma_separated-All :
    (env : Env) (name : String) → All IsEntry (parse_comma_separated env name)
unfolding parse_comma_separated
parse_comma_separated-All env name = elim (Bool-cases (str_eq (getenv env name) "")) [
  | inl e ↦ rw e tt
  | inr e ↦ rw e (trimmed_entries-All (split b',' (getenv env name)))
]
