-- ===== src/User/Backoff.antt =====
-- internal/user/login_backoff.go. `b.now()` is the time `now` of the call; times and durations are
-- nanoseconds. A difference of times that Go makes negative is 0 here, and both pass the same tests.
pub mod Curve
pub mod History
use task_api.Common.{
  ℕ, ◌+◌, ◌-◌, ◌*◌, ◌^◌, ◌%◌, String, Bool, ◌||◌, Option, none, some, [], ltb, leb, if◌then◌else◌,
  str_eq,
}
use task_api.Common.Dict.{Dict, lookup, insert, delete, delete_where}

abbrev pub login_backoff_threshold : ℕ
login_backoff_threshold = 3

abbrev pub login_backoff_base : ℕ
login_backoff_base = 250_000_000

abbrev pub login_backoff_cap : ℕ
login_backoff_cap = 4_000_000_000

abbrev pub login_backoff_idle_reset : ℕ
login_backoff_idle_reset = 900_000_000_000

pub record Failures : Type 0 where
  pub failures : ℕ
  pub last_attempt : ℕ

abbrev pub Backoff : Type 0
Backoff = Dict Failures

abbrev pub new_login_backoff : Backoff
new_login_backoff = []

-- `now.Sub(entry.lastAttempt) > loginBackoffIdleReset`
abbrev pub is_idle : ℕ → Failures → Bool
is_idle now entry = ltb login_backoff_idle_reset (now - entry.last_attempt)

-- The delay at a failure count: the shift is on a 64-bit duration, whose upper half is negative.
unfoldable pub curve : ℕ → ℕ
curve failures =
    let d = login_backoff_base * 2 ^ (failures - login_backoff_threshold) % 2 ^ 64 in
    if ltb failures login_backoff_threshold
    then 0
    else if leb (2 ^ 63) d || leb d 0 || ltb login_backoff_cap d
    then login_backoff_cap
    else d

unfoldable pub delay : ℕ → String → Backoff → ℕ × Backoff
unfolding curve
delay now email b = elim (lookup email b) [
  | none ↦ (0, b)
  | some entry ↦ if is_idle now entry then (0, delete email b) else (curve entry.failures, b)
]

-- The entry that a failure counts on from.
abbrev pub counted : ℕ → Option Failures → ℕ
counted now none = 0
counted now (some entry) = if is_idle now entry then 0 else entry.failures

unfoldable pub record_failure : ℕ → String → Backoff → Backoff
record_failure now email b =
    insert email (record { failures = counted now (lookup email b) + 1; last_attempt = now }) b

unfoldable pub record_success : String → Backoff → Backoff
record_success email b = delete email b

unfoldable pub sweep : ℕ → Backoff → Backoff
sweep now b = delete_where (λ email entry. is_idle now entry) b
