-- ===== src/Web.antt =====
-- HTTP as the program uses it: what a handler does with its ResponseWriter and its logger is the list
-- of its calls, and the client's answer is computed from that list as net/http does. `P` is the type
-- of what is written as a body.
pub mod Json
pub mod Middleware
pub mod Ids
pub mod Origins
pub mod AccessLog
pub mod Answers
mod Tests
use task_api.Common.{
  ℕ, String, Bool, true, false, Option, none, some, List, [], ◌∷◌, ◌++◌, if◌then◌else◌,
}
use task_api.Common.Dict.{Dict, lookup, insert}
use task_api.Common.Log.{Level}

-- An entry of the access log that `Logging` writes.
pub record Access : Type 0 where
  pub level : Level
  pub method : String
  pub path : String
  pub status : ℕ
  pub request_id : String
  pub user_id : String

pub data Op (P : Type 0) : Type 0 where
  set_header add_header : String → String → Op P
  write_header : ℕ → Op P
  write : P → Op P
  -- `logger.Log` with its message, and the access log
  log : Level → String → Op P
  access : Access → Op P
  -- `RecordUserIDForLog`
  note_user : String → Op P
  -- `logAuditEvent`: the kind of the event, and the account that it is about
  audit : String → String → Op P

-- How a handler ends: it returns, or it panics, with `http.ErrAbortHandler` or with another value.
pub data Ending : Type 0 where
  returned aborted panicked : Ending

pub record Reply (P : Type 0) : Type 0 where
  pub ops : List (Op P)
  pub ending : Ending

-- What the handlers read of a request: its method and path, its headers with "" for an absent one,
-- and the values that the middleware has put into its context.
pub record Request : Type 0 where
  pub method : String
  pub path : String
  pub header : String → String
  pub request_id : Option String
  pub real_ip : Option String
  pub user_id : Option String
  pub session_token : Option String

-- A handler, on the state of the program.
abbrev pub Handler : Type 0 → Type 0 → Type 0
Handler P St = Request → St → Reply P × St

-- The first result of the `…FromContext` functions.
abbrev pub from_context : Option String → String
from_context none = ""
from_context (some value) = value

-- What has reached the wire. `sent` holds the status and the headers as they were when the header
-- was written; later changes of the headers have no effect.
pub record Wire (P : Type 0) : Type 0 where
  pub headers : Dict (List String)
  pub sent : Option (ℕ × Dict (List String))
  pub body : List P

-- `w.Header().Values(name)`
abbrev values_of : String → Dict (List String) → List String
values_of name headers = elim (lookup name headers) [ none ↦ [] | some vs ↦ vs ]

abbrev pub status_part : Option (ℕ × Dict (List String)) → Option ℕ
status_part none = none
status_part (some (status, headers)) = some status

module _ {P : Type 0} where
  abbrev pub no_wire : Wire P
  no_wire = record { headers = []; sent = none; body = [] }

  -- `WriteHeader`: only the first call counts.
  unfoldable pub start : ℕ → Wire P → Wire P
  start code w = elim w.sent [ none ↦ record w { sent = some (code, w.headers) } | some before ↦ w ]

  unfoldable pub perform : Op P → Wire P → Wire P
  unfolding start
  perform (set_header name value) w = record w { headers = insert name (value ∷ []) w.headers }
  perform (add_header name value) w = record w {
    headers = insert name (values_of name w.headers ++ value ∷ []) w.headers;
  }
  perform (write_header code) w = start code w
  perform (write b) w = let v = start 200 w in record v { body = v.body ++ b ∷ [] }
  perform (log level message) w = w
  perform (access entry) w = w
  perform (note_user id) w = w
  perform (audit event account) w = w

  unfoldable pub perform_all : List (Op P) → Wire P → Wire P
  unfolding perform
  perform_all [] w = w
  perform_all (op ∷ ops) w = perform_all ops (perform op w)

  -- The answer of the server: a handler that returns with nothing written answers 200, and one that
  -- panics has its connection closed, with no answer if nothing was written.
  unfoldable pub answer_of : Ending → Wire P → Option (ℕ × Dict (List String))
  unfolding start
  answer_of returned w = (start 200 w).sent
  answer_of aborted w = w.sent
  answer_of panicked w = w.sent

  unfoldable pub answer : Reply P → Option (ℕ × Dict (List String))
  unfolding perform_all answer_of
  answer reply = answer_of reply.ending (perform_all reply.ops no_wire)

  -- The status of an answer.
  abbrev pub status_of : Reply P → Option ℕ
  status_of reply = status_part (answer reply)
