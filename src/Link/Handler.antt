-- ===== src/Link/Handler.antt =====
-- internal/link/handler.go. What the JSON decoder made of a body is an argument, `none` where it
-- failed, and so are the path value, the query, and cairn.RejectReasonFrom. Failures to encode an
-- answer are left out.
use task_api.Common.{
  ℕ, ◌*◌, ◌-◌, ◌%◌, ◌^◌, String, Bool, not, Option, none, some, List, [], ◌∷◌, ◌++◌, map, ltb, ◌==◌,
  ◌||◌, if◌then◌else◌, str_eq,
}
use task_api.Common.Decimal.{atoi}
use task_api.Common.Failure.{Context, is}
use task_api.Common.Int.{ℤ, pos, negsuc}
use task_api.Common.Log.{error}
use task_api.Common.Text.{append}
use task_api.Link.Service.{
  code_not_found, invalid_code, link_expired, link_revoked, destination_rejected, code_exists,
  vanity_reserved, vanity_length, code_space_exhausted, store_unavailable, not_owner,
  link_sentinels, LinkError, Link, Shortener, create, list_links, revoke,
}
use task_api.Web.{Op, set_header, write_header, log, Handler, from_context}
use task_api.Web.Json.{json, reply, answered}

-- `linkResponse`
pub record LinkResponse : Type 0 where
  pub code : String
  pub short_url : String
  pub url : String
  pub vanity : Bool
  pub created_at : ℕ
  pub expires_at : Option ℕ

-- What is written as a body. An error has its message and, where it is not left out, its reason.
pub data Body : Type 0 where
  link_body : LinkResponse → Body
  links_body : List LinkResponse → Body
  error_body : String → Option String → Body

abbrev pub Ops : Type 0
Ops = List (Op Body)

unfoldable pub write_error : ℕ → String → Ops
write_error status message = json status (error_body message none)

unfoldable pub write_error_with_reason : ℕ → String → String → Ops
write_error_with_reason status message reason = json status (error_body message (some reason))

-- `publicErrorEncoder`
unfoldable pub public_error_encoder : LinkError → Ops
unfolding is write_error
public_error_encoder e =
    if is e invalid_code || is e code_not_found || is e link_expired || is e link_revoked
    then write_error 404 "link not found"
    else if is e store_unavailable
    then write_error 503 "link service unavailable"
    else write_error 500 "internal server error"

-- `handleServiceError`
unfoldable pub handle_service_error : (LinkError → String) → LinkError → Ops
unfolding is write_error write_error_with_reason
handle_service_error reason e =
    if is e code_not_found
      || is e invalid_code
      || is e link_expired
      || is e link_revoked
      || is e not_owner
    then write_error 404 "link not found"
    else if is e destination_rejected
    then write_error_with_reason 422 "destination rejected" (reason e)
    else if is e code_exists
    then write_error 409 "code already exists"
    else if is e vanity_reserved
    then write_error 422 "vanity code is reserved"
    else if is e vanity_length
    then write_error 422 "vanity code length collides with the generated code length"
    else if is e code_space_exhausted || is e store_unavailable
    then write_error 503 "link service temporarily unavailable"
    else log error "unexpected service error" ∷ write_error 500 "internal server error"

-- `toLinkResponse`
unfoldable pub to_link_response : String → Link → LinkResponse
to_link_response public_base_url link = record {
  code = link.code;
  short_url = append public_base_url (append "/" link.code);
  url = link.url;
  vanity = link.vanity;
  created_at = link.created_at;
  expires_at = link.expires_at;
}

-- `createLinkRequest`
pub record CreateLinkRequest : Type 0 where
  pub url : String
  pub vanity_code : String
  pub ttl_seconds : ℤ

-- A natural number as an int64.
unfoldable pub int64 : ℕ → ℤ
int64 n = let w = n % 2 ^ 64 in if ltb w (2 ^ 63) then pos w else negsuc (2 ^ 64 - w - 1)

-- `time.Duration(req.TTLSeconds) * time.Second`, if the seconds are positive; the product wraps.
unfoldable pub ttl_of : ℤ → ℤ
unfolding int64
ttl_of (pos n) = int64 (n * 1_000_000_000)
ttl_of (negsuc n) = pos 0

abbrev pub max_list_limit : ℕ
max_list_limit = 100

abbrev pub default_list_limit : ℕ
default_list_limit = 20

-- The limit of a listing, or the message that refuses it.
pub data Limit : Type 0 where
  limited : ℕ → Limit
  refused : String → Limit

unfoldable pub list_limit : String → Limit
list_limit raw =
    let not_positive = refused "invalid input: limit must be a positive integer" in
    if str_eq raw "" then limited default_list_limit else elim (atoi raw) [
      | none ↦ not_positive
      | some (negsuc n) ↦ not_positive
      | some (pos n) ↦
          if n == 0
          then not_positive
          else if ltb max_list_limit n
          then refused "invalid input: limit must be at most 100"
          else limited n
    ]

-- The header that says where the next page begins.
abbrev pub next_cursor : String → Ops
next_cursor next = if not (str_eq next "") then set_header "X-Next-Cursor" next ∷ [] else []

module _ {St : Type 0} (shortener : Shortener St) (reason : LinkError → String)
    (public_base_url : String) (ctx : Context) where
  -- `createLink`
  unfoldable pub create_link : Option CreateLinkRequest → Handler Body St
  unfolding handle_service_error write_error to_link_response ttl_of
  create_link none r s = (reply (write_error 400 "invalid request body"), s)
  create_link (some f) r s =
      answered (λ link. json 201 (link_body (to_link_response public_base_url link)))
        (handle_service_error reason)
        (create shortener ctx (from_context r.user_id)
          (record { raw_url = f.url; vanity_code = f.vanity_code; ttl = ttl_of f.ttl_seconds }) s)

  -- `listLinks`, behind its limit
  unfoldable pub list_limited : String → Limit → Handler Body St
  unfolding handle_service_error write_error to_link_response
  list_limited after (refused message) r s = (reply (write_error 400 message), s)
  list_limited after (limited limit) r s =
      answered
        (λ (links, next).
          next_cursor next ++ json 200 (links_body (map (to_link_response public_base_url) links)))
        (handle_service_error reason)
        (list_links shortener ctx (from_context r.user_id) after limit s)

  -- `listLinks`, with the values of "limit" and "after" in the query
  unfoldable pub handle_list : String → String → Handler Body St
  unfolding list_limit list_limited
  handle_list limit after = list_limited after (list_limit limit)

  -- `revokeLink`, with the path value
  unfoldable pub revoke_link : String → Handler Body St
  unfolding handle_service_error
  revoke_link code r s =
      answered (λ _. write_header 204 ∷ []) (handle_service_error reason)
        (revoke shortener ctx (from_context r.user_id) code s)
