-- ===== src/Link/Service.antt =====
-- internal/link/service.go and errors.go. cairn's Shortener and its store are a parameter on a state
-- `St`, and its sentinel errors stand beside the package's own.
use task_api.Common.{
  ℕ, String, Bool, true, false, not, Option, List, [], ◌∷◌, ◌++◌, ltb, if◌then◌else◌, str_eq,
}
use task_api.Common.Failure.{Action, Context, Sentinels, Error, sentinel, fail_if, ◌>>=◌, ◌>>◌}
use task_api.Common.Int.{ℤ, pos, negsuc}

-- cairn's errors, and last `ErrNotOwner`.
pub data Sentinel : Type 0 where
  code_not_found invalid_code link_expired link_revoked : Sentinel
  destination_rejected code_exists vanity_reserved vanity_length : Sentinel
  code_space_exhausted store_unavailable not_owner : Sentinel

abbrev pub sentinel_eq : Sentinel → Sentinel → Bool
sentinel_eq code_not_found code_not_found = true
sentinel_eq invalid_code invalid_code = true
sentinel_eq link_expired link_expired = true
sentinel_eq link_revoked link_revoked = true
sentinel_eq destination_rejected destination_rejected = true
sentinel_eq code_exists code_exists = true
sentinel_eq vanity_reserved vanity_reserved = true
sentinel_eq vanity_length vanity_length = true
sentinel_eq code_space_exhausted code_space_exhausted = true
sentinel_eq store_unavailable store_unavailable = true
sentinel_eq not_owner not_owner = true
sentinel_eq _ _ = false

-- No breaker stands before this package, so that nothing is rejected.
instance abbrev pub link_sentinels : Sentinels Sentinel
link_sentinels = record { same = sentinel_eq; unavailable = store_unavailable }

abbrev pub LinkError : Type 0
LinkError = Error Sentinel

-- The fields of cairn.Link that the package reads; `expires_at` is none for the zero time.
pub record Link : Type 0 where
  pub code : String
  pub owner_id : String
  pub url : String
  pub vanity : Bool
  pub created_at : ℕ
  pub expires_at : Option ℕ

pub data CreateOption : Type 0 where
  with_owner with_vanity_code : String → CreateOption
  with_ttl : ℕ → CreateOption

pub record Shortener (St : Type 0) : Type 0 where
  pub create : Context → String → List CreateOption → Action Sentinel St Link
  pub resolve : Context → String → Action Sentinel St Link
  pub revoke : Context → String → Action Sentinel St (Unit {0})
  pub list_by_owner : Context → String → String → ℕ → Action Sentinel St (List Link × String)

-- `CreateRequest`; the TTL is an int64 of nanoseconds.
pub record CreateRequest : Type 0 where
  pub raw_url : String
  pub vanity_code : String
  pub ttl : ℤ

-- The options after the owner's.
unfoldable pub vanity_option : String → List CreateOption
vanity_option code = if not (str_eq code "") then with_vanity_code code ∷ [] else []

unfoldable pub ttl_option : ℤ → List CreateOption
ttl_option (pos n) = if ltb 0 n then with_ttl n ∷ [] else []
ttl_option (negsuc n) = []

module _ {St : Type 0} (shortener : Shortener St) where
  unfoldable pub create : Context → String → CreateRequest → Action Sentinel St Link
  unfolding vanity_option ttl_option
  create ctx owner_id req =
      shortener.create ctx req.raw_url
        ((with_owner owner_id ∷ vanity_option req.vanity_code) ++ ttl_option req.ttl)

  unfoldable pub list_links :
      Context → String → String → ℕ → Action Sentinel St (List Link × String)
  list_links ctx owner_id after limit = shortener.list_by_owner ctx owner_id after limit

  unfoldable pub revoke : Context → String → String → Action Sentinel St (Unit {0})
  revoke ctx owner_id code = do
    link ← shortener.resolve ctx code
    fail_if (not (str_eq link.owner_id owner_id)) (sentinel not_owner)
    shortener.revoke ctx code
