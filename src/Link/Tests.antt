-- ===== src/Link/Tests.antt =====
-- Runs of internal/link, and the theorems about it at concrete inputs.
use task_api.Common.{
  ℕ, ◌*◌, ◌≡◌, refl, ◌≢◌, inr, false, none, some, [], ◌∷◌, arith, ltb, if◌then◌else◌, str_eq,
  str_eq_iff,
}
use task_api.Common.Failure.{ok, err, sentinel}
use task_api.Common.Int.{pos}
use task_api.Link.Service.{Link, Shortener, code_not_found, with_ttl, ttl_option}
use task_api.Link.Handler.{ttl_of, int64, list_limit, limited, revoke_link}
use task_api.Link.Ownership.{link_not_found, revoke_link_hidden, ttl_option-ttl_of}
use task_api.Web.{Request}

abbrev ann_link : Link
ann_link = record {
  code = "abc";
  owner_id = "ann";
  url = "https://example.org";
  vanity = false;
  created_at = 1;
  expires_at = none;
}

-- It holds one link, and counts what it is asked to do.
abbrev shortener : Shortener ℕ
shortener = record {
  create = λ c url options n. (ok ann_link, 1);
  resolve =
      λ c code n. (if str_eq code "abc" then ok ann_link else err (sentinel code_not_found), 2);
  revoke = λ c code n. (ok tt, 3);
  list_by_owner = λ c owner after limit n. (ok (ann_link ∷ [], ""), 4);
}

abbrev request : Request
request = record {
  method = "DELETE";
  path = "/v1/links/abc";
  header = λ name. "";
  request_id = none;
  real_ip = none;
  user_id = some "bob";
  session_token = none;
}

-- One second more than an int64 of nanoseconds holds: there is no option, and the link does not end.
too_long : ttl_option (ttl_of (pos 9_223_372_037)) ≡ []
unfolding ttl_option ttl_of int64
too_long = refl

default_limit : list_limit "" ≡ limited 20
unfolding list_limit str_eq
default_limit = refl

foreign : ann_link.owner_id ≢ "bob"
unfolding str_eq
foreign e = cc ((str_eq_iff "ann" "bob").1 e)

resolved : (shortener.resolve none "abc" 0).0 ≡ ok ann_link
unfolding str_eq
resolved = refl

revoke_link_hidden_example :
    revoke_link shortener (λ e. "") "https://s.example" none "abc" request 0 ≡ (link_not_found, 2)
revoke_link_hidden_example =
    revoke_link_hidden shortener (λ e. "") "https://s.example" none "abc" request 0
      (inr (ann_link, resolved, foreign))

ttl_option-ttl_of_example :
    ttl_option (ttl_of (pos 60)) ≡ (if ltb 0 60 then with_ttl (60 * 1_000_000_000) ∷ [] else [])
ttl_option-ttl_of_example = ttl_option-ttl_of 60 (omega arith)
