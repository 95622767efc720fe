-- ===== src/Link/Ownership.antt =====
-- internal/link: who can revoke a link, and how long a new one lives.
use task_api.Common.{
  ℕ, ◌*◌, ◌≤◌, String, ◌≡◌, refl, ◌≢◌, ◌⊎◌, inl, inr, true, [], ◌∷◌, arith, ltb, if◌then◌else◌,
  str_eq_iff, ap,
}
use task_api.Common.Failure.{Context, ok, err, sentinel, is}
use task_api.Common.Int.{pos}
use task_api.Link.Service.{
  code_not_found, invalid_code, link_expired, link_revoked, not_owner, link_sentinels, LinkError,
  Link, Shortener, with_ttl, ttl_option, revoke,
}
use task_api.Link.Handler.{
  Body, write_error, public_error_encoder, handle_service_error, int64, ttl_of, revoke_link,
}
use task_api.Web.{Reply, Request, from_context}
use task_api.Web.Json.{reply}

-- The error says that the code leads nowhere.
abbrev pub IsUnknown : LinkError → Type 0
IsUnknown e =
    (is e code_not_found ≡ true)
    ⊎ (is e invalid_code ≡ true)
    ⊎ (is e link_expired ≡ true)
    ⊎ (is e link_revoked ≡ true)

abbrev pub link_not_found : Reply Body
link_not_found = reply (write_error 404 "link not found")

unknown_answers :
    (reason : LinkError → String) (e : LinkError)
    → IsUnknown e
    → (reply (handle_service_error reason e) ≡ link_not_found)
      × (reply (public_error_encoder e) ≡ link_not_found)
unfolding handle_service_error public_error_encoder
unknown_answers reason e h = (ground arith, ground arith)

not_owner_answer :
    (reason : LinkError → String)
    → reply (handle_service_error reason (sentinel not_owner)) ≡ link_not_found
unfolding handle_service_error is
not_owner_answer reason = refl

module _ {St : Type 0} (shortener : Shortener St) (reason : LinkError → String) (base : String)
    (ctx : Context) where
  -- The code leads nowhere, or to the link of another user.
  abbrev pub IsHidden : String → String → St → Type 0
  IsHidden code user s =
      ((e : LinkError) × ((shortener.resolve ctx code s).0 ≡ err e) × IsUnknown e)
      ⊎ ((link : Link) × ((shortener.resolve ctx code s).0 ≡ ok link) × (link.owner_id ≢ user))

  revoke_hidden :
      (code user : String) (s : St)
      → IsHidden code user s
      → (e : LinkError) × (reply (handle_service_error reason e) ≡ link_not_found)
        × (revoke shortener ctx user code s ≡ (err e, (shortener.resolve ctx code s).1))
  unfolding revoke
  revoke_hidden code user s (inl (e, h, unknown)) =
      (e, (unknown_answers reason e unknown).0, ground arith)
  revoke_hidden code user s (inr (link, h, other)) =
      (sentinel not_owner, not_owner_answer reason, ground (arith, str_eq_iff link.owner_id user))

  -- Over any shortener, revoking a code that leads nowhere and revoking the link of another user give
  -- one and the same answer, 404, and the shortener is only asked to resolve the code.
  pub revoke_link_hidden :
      (code : String) (r : Request) (s : St)
      → IsHidden code (from_context r.user_id) s
      → revoke_link shortener reason base ctx code r s
        ≡ (link_not_found, (shortener.resolve ctx code s).1)
  unfolding revoke_link
  revoke_link_hidden code r s hidden =
      let (e, told, out) = revoke_hidden code (from_context r.user_id) s hidden in
      rw out (ap (λ x. (x, (shortener.resolve ctx code s).1)) told)

-- A time to live of up to 9,223,372,036 seconds, the most that an int64 of nanoseconds holds, is
-- handed to the shortener as it is, and none at all where it is zero.
pub ttl_option-ttl_of :
    (n : ℕ)
    → n ≤ 9_223_372_036
    → ttl_option (ttl_of (pos n)) ≡ (if ltb 0 n then with_ttl (n * 1_000_000_000) ∷ [] else [])
unfolding ttl_option ttl_of int64
ttl_option-ttl_of n h = ground arith
