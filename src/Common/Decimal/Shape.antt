-- ===== src/Common/Decimal/Shape.antt =====
-- The characters and the length of a printed number.
use Prim.Native.Char.{code}
use Prim.Native.String.{String, [], ◌∷◌}
use task_api.Common.{ℕ, zero, suc, ◌+◌, ◌/◌, ◌%◌, ◌^◌, ◌<◌, ◌≤◌, arith, ltb, Bool-cases, inl, inr}
use task_api.Common.Text.{byte_length}
use task_api.Common.Decimal.{digit, emit, itoa, code-digit}

abbrev pub IsDecimal : String → Type 0
IsDecimal [] = Unit
IsDecimal (c ∷ s) = (b'0' ≤ code c) × (code c ≤ b'9') × IsDecimal s

emit-IsDecimal : (fuel n : ℕ) (out : String) → IsDecimal out → IsDecimal (emit fuel n out)
unfolding emit
emit-IsDecimal zero n out h = h
emit-IsDecimal (suc fuel) n out h = elim (Bool-cases (ltb n 10)) [
  | inl small ↦ rw small (ground (arith, code-digit n), ground (arith, code-digit n), h)
  | inr more ↦ rw more (
      emit-IsDecimal fuel (n / 10) (digit (n % 10) ∷ out)
        (ground (arith, code-digit (n % 10)), ground (arith, code-digit (n % 10)), h))
]

pub itoa-IsDecimal : (n : ℕ) → IsDecimal (itoa n)
unfolding itoa
itoa-IsDecimal n = emit-IsDecimal (suc n) n [] tt

-- A number below 10^k has at most k digits.
byte_length-emit :
    (fuel n k : ℕ) (out : String)
    → n < 10 ^ suc k
    → byte_length (emit fuel n out) ≤ suc k + byte_length out
unfolding emit byte_length
byte_length-emit zero n k out h = omega arith
byte_length-emit (suc fuel) n zero out h = ground (arith, code-digit n)
byte_length-emit (suc fuel) n (suc k) out h = ground (
  arith,
  code-digit n,
  code-digit (n % 10),
  byte_length-emit fuel (n / 10) k (digit (n % 10) ∷ out),
)

-- A 64-bit number has at most 19 digits.
pub byte_length-itoa : (n : ℕ) → n < 2 ^ 63 → byte_length (itoa n) ≤ 19
unfolding itoa byte_length
byte_length-itoa n h = byte_length-emit (suc n) n 18 [] (omega arith)
