-- ===== src/Web/Answers.antt =====
-- The handler that cmd/api/main.go gives to the server, from internal/middleware.
use task_api.Common.{
  ℕ, ◌<◌, ◌^◌, String, ◌≡◌, refl, ap, sym, ◌∙◌, subst, ◌≢◌, true, false, Option, some, List, [],
  ◌∷◌, ◌++◌,
}
use task_api.Web.{
  Access, Op, set_header, access, returned, aborted, Reply, Request, Handler, from_context,
  status_of,
}
use task_api.Web.Middleware.{
  access_entry, real_ip, logging, recovery, cors, csrf, recorded, is_valid_request_id, Shell,
  root_handler,
}
use task_api.Web.Ids.{request_id_lem}
use task_api.Web.AccessLog.{
  status_of-recorded, recorded_access, logged-returned, Keeps, recovery-Returns, csrf-Keeps,
  cors-Keeps,
}

-- The request is answered: the handler returns, and the last thing it does is to write an entry of
-- the access log, with the status that the client gets, the request's path, and a printable
-- identifier.
pub record IsAnswered {P : Type 0} (r : Request) (reply : Reply P) : Type 0 where
  pub entry : Access
  pub front : List (Op P)
  pub returns : reply.ending ≡ returned
  pub last : reply.ops ≡ front ++ access entry ∷ []
  pub status : status_of reply ≡ some entry.status
  pub path : entry.path ≡ r.path
  pub identified : is_valid_request_id entry.request_id ≡ true

abbrev quiet : List String
quiet = "/health" ∷ "/health/ready" ∷ []

module _ {P : Type 0} where
  -- `RequestID`'s own call before those of the handler behind it.
  abbrev identified_reply : String → Reply P → Reply P
  identified_reply id reply = record reply { ops = set_header "X-Request-Id" id ∷ reply.ops }

  logged-IsAnswered :
      (r q : Request) (id : String) (ops : List (Op P)) (reply : Reply P)
      → q.path ≡ r.path
      → is_valid_request_id (from_context q.request_id) ≡ true
      → reply ≡ (record {
        ops = set_header "X-Request-Id" id ∷ (ops ++ access (access_entry quiet q ops) ∷ []);
        ending = returned;
      })
      → IsAnswered r reply
  unfolding recorded
  logged-IsAnswered r q id ops reply path valid e = subst (IsAnswered r) (sym e) (record {
    entry = access_entry quiet q ops;
    front = set_header "X-Request-Id" id ∷ ops;
    returns = refl;
    last = refl;
    status =
        status_of-recorded
          (record {
            ops = set_header "X-Request-Id" id ∷ (ops ++ access (access_entry quiet q ops) ∷ []);
            ending = returned;
          })
          refl
        ∙ ap (λ k. some k.0) (recorded_access ops (access_entry quiet q ops) (200, false));
    path = path;
    identified = valid;
  })

module _ {P St : Type 0} where
  -- Behind the middleware of the program every request is answered and logged with the status that
  -- the client gets, a panic of the application included. The security headers and the CSRF
  -- protector do not panic by themselves, the application does not panic with
  -- `http.ErrAbortHandler`, and the clock reads less than 2^63 nanoseconds.
  pub root_handler-IsAnswered :
      (shell : Shell P St) (random : Option (ℕ → ℕ)) (now : ℕ) (app : Handler P St) (r : Request)
      (s : St)
      → Keeps shell.secure_headers
      → Keeps shell.protector
      → ((q : Request) (t : St) → (app q t).0.ending ≢ aborted)
      → now < 2 ^ 63
      → IsAnswered r (root_handler shell random now app r s).0
  unfolding root_handler
  root_handler-IsAnswered shell random now app r s secure protector never small =
      let inner = shell.secure_headers (
        cors shell.csrf_header shell.allowed_origins
          (csrf shell.protector (recovery true shell.internal_error app))) in
      let ret = secure _ (
        cors-Keeps shell.csrf_header shell.allowed_origins _ (
          csrf-Keeps shell.protector protector _
            (recovery-Returns shell.internal_error app never))) in
      let (id, valid, origin, e) =
        request_id_lem random now (real_ip shell.address_of (logging quiet inner)) r s small in
      let q : Request = record r {
        request_id = some id;
        real_ip = some (from_context (shell.address_of (record r { request_id = some id })));
      } in
      let ops = (inner q s).0.ops in
      logged-IsAnswered r q id ops _ refl valid (
        ap (λ p. p.0) e
        ∙ ap (identified_reply id) (logged-returned quiet q (inner q s).0.ending ops (ret q s)))
