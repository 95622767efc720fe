-- ===== src/User/Backoff/Curve.antt =====
-- internal/user/login_backoff.go: the delay as a function of the failures.
use task_api.Common.{
  ℕ, zero, suc, ◌+◌, ◌-◌, ◌*◌, ◌^◌, ◌%◌, ◌≤◌, min, ◌≡◌, refl, ◌∙◌, Bool, true, false, arith, ltb,
  ◌==◌, if◌then◌else◌, passes_below, passes_at, inl, inr, Bool-cases,
}
use Prim.Native.Nat.pow as Pow
use task_api.User.Backoff.{curve}

abbrev documented : ℕ → ℕ
documented n = if ltb n 3 then 0 else min (250_000_000 * 2 ^ (n - 3)) 4_000_000_000

abbrev agrees : ℕ → Bool
agrees n = curve n == documented n

small : passes_below agrees 70 ≡ true
unfolding passes_below curve
small = refl

power_from : (k : ℕ) → (p : ℕ) × (1 ≤ p) × (2 ^ (57 + k) ≡ 0x200000000000000 * p)
power_from zero = (1, omega arith, refl)
power_from (suc k) =
    let (p, some_power, e) = power_from k in
    let next : 57 + suc k ≡ suc (57 + k) = omega arith in
    (p * 2, omega arith, rw next (Pow.suc 2 (57 + k) ∙ omega arith))

-- Beyond sixty failures the shift leaves nothing of the 64 bits.
curve_far : (k : ℕ) → curve (60 + k) ≡ documented (60 + k)
unfolding curve
curve_far k =
    let (p, some_power, e) = power_from k in
    let shift : 60 + k - 3 ≡ 57 + k = omega arith in
    let gone : 250_000_000 * (0x200000000000000 * p) % 2 ^ 64 ≡ 0 = omega arith in
    let past : ltb (60 + k) 3 ≡ false = ground arith in
    let big : min (250_000_000 * (0x200000000000000 * p)) 4_000_000_000 ≡ 4_000_000_000 =
      omega arith in
    rw (shift, e, gone, past, big) refl

-- The delay before an attempt is nothing at fewer than three failures, and from there 250
-- milliseconds, doubled with each failure, up to four seconds: the 64-bit shift never shows.
pub curve_lem :
    (n : ℕ) → curve n ≡ (if ltb n 3 then 0 else min (250_000_000 * 2 ^ (n - 3)) 4_000_000_000)
curve_lem n = elim (Bool-cases (ltb n 70)) [
  | inl near ↦ ground (arith, passes_at agrees 70 n (ground arith) small)
  | inr far ↦ let e : n ≡ 60 + (n - 60) = ground arith in rw e (curve_far (n - 60))
]
