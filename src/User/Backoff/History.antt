-- ===== src/User/Backoff/History.antt =====
-- internal/user/login_backoff.go: the delay of an account after a history of attempts.
use task_api.Common.{
  ℕ, ◌+◌, ◌-◌, ◌≤◌, ◌<◌, String, ◌≡◌, refl, ◌≢◌, none, some, List, [], ◌∷◌, arith, length,
  str_eq_refl,
}
use task_api.Common.Dict.{lookup, lookup-insert_self, lookup-insert_ne, lookup-delete}
use task_api.User.Backoff.{
  Backoff, Failures, curve, delay, record_failure, record_success, counted,
  login_backoff_idle_reset,
}

-- Failures of one account at the given times.
unfoldable pub fail_at : String → List ℕ → Backoff → Backoff
fail_at email [] b = b
fail_at email (t ∷ ts) b = fail_at email ts (record_failure t email b)

-- No two neighbours are further apart than the window.
abbrev pub Steady : ℕ → List ℕ → ℕ → Type 0
Steady before [] now = now - before ≤ login_backoff_idle_reset
Steady before (t ∷ ts) now = (t - before ≤ login_backoff_idle_reset) × Steady t ts now

abbrev pub last_of : ℕ → List ℕ → ℕ
last_of t [] = t
last_of t (u ∷ ts) = last_of u ts

-- The record that a steady history leaves.
record_of_history :
    (email : String) (n before : ℕ) (ts : List ℕ) (now : ℕ) (b : Backoff)
    → lookup email b ≡ some (record { failures = n; last_attempt = before })
    → Steady before ts now
    → lookup email (fail_at email ts b)
      ≡ some (record { failures = n + length ts; last_attempt = last_of before ts })
unfolding fail_at record_failure
record_of_history email n before [] now b h near = ground arith
record_of_history email n before (t ∷ ts) now b h (near, steady) =
    let next : Failures = record { failures = n + 1; last_attempt = t } in
    let counts : counted t (lookup email b) ≡ n = ground arith in
    let after : lookup email (record_failure t email b) ≡ some next =
      rw counts (lookup-insert_self email next b) in
    ground (arith, record_of_history email (n + 1) t ts now (record_failure t email b) after steady)

fail_at_ne :
    (email other : String) (ts : List ℕ) (b : Backoff)
    → other ≢ email
    → lookup other (fail_at email ts b) ≡ lookup other b
unfolding fail_at record_failure
fail_at_ne email other [] b h = refl
fail_at_ne email other (t ∷ ts) b h = ground (
  arith,
  fail_at_ne email other ts (record_failure t email b) h,
  lookup-insert_ne other email
      (record { failures = counted t (lookup email b) + 1; last_attempt = t }) b h,
)

Steady-last :
    (before : ℕ) (ts : List ℕ) (now : ℕ)
    → Steady before ts now
    → now - last_of before ts ≤ login_backoff_idle_reset
Steady-last before [] now h = h
Steady-last before (t ∷ ts) now h = Steady-last t ts now h.1

-- An account without a record fails at the times of a list, each within fifteen minutes of the one
-- before, and `now` is within fifteen minutes of the last. Then an attempt waits what the curve gives
-- for the number of failures; but nothing after a success, and nothing after a pause of more than
-- fifteen minutes. Every other account waits what it would have waited.
pub delay_history :
    (email other : String) (t : ℕ) (ts : List ℕ) (now late : ℕ) (b : Backoff)
    → lookup email b ≡ none
    → other ≢ email
    → Steady t ts now
    → login_backoff_idle_reset + last_of t ts < late
    → let after = fail_at email (t ∷ ts) b in
      ((delay now email after).0 ≡ curve (1 + length ts))
      × ((delay now email (record_success email after)).0 ≡ 0)
      × ((delay late email after).0 ≡ 0)
      × ((delay now other after).0 ≡ (delay now other b).0)
unfolding delay record_success fail_at record_failure
delay_history email other t ts now late b h ne steady long =
    let first : Failures = record { failures = 1; last_attempt = t } in
    let start : lookup email (record_failure t email b) ≡ some first =
      rw h (lookup-insert_self email first b) in
    let there = record_of_history email 1 t ts now (record_failure t email b) start steady in
    let after = fail_at email (t ∷ ts) b in
    (
      ground (arith, there, Steady-last t ts now steady),
      ground (arith, lookup-delete email email after, str_eq_refl email),
      ground (arith, there),
      ground (arith, fail_at_ne email other (t ∷ ts) b ne),
    )
