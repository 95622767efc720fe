-- ===== src/Task/Entity.antt =====
-- internal/task/task.go and errors.go.
use task_api.Common.{
  ℕ, String, ◌≡◌, refl, ◌↔◌, Bool, true, false, Option, none, some, arith, if◌then◌else◌, str_eq,
  str_eq_iff,
}
use task_api.Common.Failure.{Sentinels, Error, Result}

-- The values that `validStatuses` and the database's CHECK admit. A raw string becomes one by
-- `parse_status`.
pub data Status : Type 0 where
  pending in_progress done cancelled : Status

pub data Priority : Type 0 where
  low medium high : Priority

abbrev pub status_name : Status → String
status_name pending = "pending"
status_name in_progress = "in_progress"
status_name done = "done"
status_name cancelled = "cancelled"

abbrev pub priority_name : Priority → String
priority_name low = "low"
priority_name medium = "medium"
priority_name high = "high"

-- `==` on the two types.
abbrev pub status_eq : Status → Status → Bool
status_eq pending pending = true
status_eq in_progress in_progress = true
status_eq done done = true
status_eq cancelled cancelled = true
status_eq _ _ = false

abbrev pub priority_eq : Priority → Priority → Bool
priority_eq low low = true
priority_eq medium medium = true
priority_eq high high = true
priority_eq _ _ = false

-- The status that a string names: `Status(raw)` with the lookup in `validStatuses`.
unfoldable pub parse_status : String → Option Status
parse_status raw =
    if str_eq raw "pending"
    then some pending
    else if str_eq raw "in_progress"
    then some in_progress
    else if str_eq raw "done"
    then some done
    else if str_eq raw "cancelled"
    then some cancelled
    else none

-- `Priority(raw)` with the lookup in `validPriorities`.
unfoldable pub parse_priority : String → Option Priority
parse_priority raw =
    if str_eq raw "low"
    then some low
    else if str_eq raw "medium"
    then some medium
    else if str_eq raw "high"
    then some high
    else none

pub status_eq_iff : (s t : Status) → (status_eq s t ≡ true) ↔ (s ≡ t)
status_eq_iff pending t = ground arith
status_eq_iff in_progress t = ground arith
status_eq_iff done t = ground arith
status_eq_iff cancelled t = ground arith

pub priority_eq_iff : (s t : Priority) → (priority_eq s t ≡ true) ↔ (s ≡ t)
priority_eq_iff low t = ground arith
priority_eq_iff medium t = ground arith
priority_eq_iff high t = ground arith

parse_status-status_name : (s : Status) → parse_status (status_name s) ≡ some s
unfolding parse_status str_eq
parse_status-status_name pending = refl
parse_status-status_name in_progress = refl
parse_status-status_name done = refl
parse_status-status_name cancelled = refl

name_of_parse_status : (raw : String) (s : Status) → parse_status raw ≡ some s → raw ≡ status_name s
unfolding parse_status
name_of_parse_status raw s h = ground (
  arith,
  str_eq_iff raw "pending",
  str_eq_iff raw "in_progress",
  str_eq_iff raw "done",
  str_eq_iff raw "cancelled",
)

parse_priority-priority_name : (p : Priority) → parse_priority (priority_name p) ≡ some p
unfolding parse_priority str_eq
parse_priority-priority_name low = refl
parse_priority-priority_name medium = refl
parse_priority-priority_name high = refl

name_of_parse_priority :
    (raw : String) (p : Priority) → parse_priority raw ≡ some p → raw ≡ priority_name p
unfolding parse_priority
name_of_parse_priority raw p h =
    ground (arith, str_eq_iff raw "low", str_eq_iff raw "medium", str_eq_iff raw "high")

-- A string is read as a status exactly if it is the name of that status, and so for a priority.
pub parse_iff :
    (raw : String) (s : Status) (p : Priority)
    → ((parse_status raw ≡ some s) ↔ (raw ≡ status_name s))
      × ((parse_priority raw ≡ some p) ↔ (raw ≡ priority_name p))
parse_iff raw s p = (
  (name_of_parse_status raw s, λ h. rw h (parse_status-status_name s)),
  (name_of_parse_priority raw p, λ h. rw h (parse_priority-priority_name p)),
)

-- Times are nanoseconds; texts are strings of code points.
pub record Task : Type 0 where
  pub id : String
  pub title : String
  pub description : String
  pub status : Status
  pub priority : Priority
  pub created_at : ℕ
  pub updated_at : ℕ
  pub user_id : String
  pub version : ℕ

-- The package's sentinels, in the order of errors.go.
pub data Sentinel : Type 0 where
  not_found already_exists invalid_input conflict invalid_transition : Sentinel
  dependency_unavailable unavailable : Sentinel

abbrev pub sentinel_eq : Sentinel → Sentinel → Bool
sentinel_eq not_found not_found = true
sentinel_eq already_exists already_exists = true
sentinel_eq invalid_input invalid_input = true
sentinel_eq conflict conflict = true
sentinel_eq invalid_transition invalid_transition = true
sentinel_eq dependency_unavailable dependency_unavailable = true
sentinel_eq unavailable unavailable = true
sentinel_eq _ _ = false

instance abbrev pub task_sentinels : Sentinels Sentinel
task_sentinels = record { same = sentinel_eq; unavailable = unavailable }

abbrev pub TaskError : Type 0
TaskError = Error Sentinel

abbrev pub TaskResult : Type 0 → Type 0
TaskResult = Result Sentinel
