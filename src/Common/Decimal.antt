-- ===== src/Common/Decimal.antt =====
-- `strconv.Itoa` of a number that is not negative, and `strconv.Atoi`, which on a 64-bit machine is
-- `strconv.ParseInt(s, 10, 64)`.
pub mod Shape
use Prim.Native.Char.{Char, code}
use Prim.Native.String.{String, [], ◌∷◌}
use task_api.Common.{
  ℕ, zero, suc, ◌+◌, ◌-◌, ◌*◌, ◌/◌, ◌%◌, ◌^◌, ◌<◌, ◌≤◌, ◌≡◌, ◌≢◌, refl, sym, ap, ◌∙◌, ◌&&◌, Option,
  none, some, arith, leb, ltb, ◌==◌, if◌then◌else◌, Bool-cases, inl, inr,
}
use task_api.Common.Uuid.{digit_at}
use task_api.Common.Int.{ℤ, pos, negsuc}

digit : ℕ → Char
unfolding digit_at
digit n = digit_at "9" "012345678" n

-- The digits of a number before a text, the last digit first.
emit : ℕ → ℕ → String → String
emit zero n out = out
emit (suc fuel) n out =
    let rest = emit fuel (n / 10) (digit (n % 10) ∷ out) in if ltb n 10 then digit n ∷ out else rest

-- `strconv.Itoa`. Each round divides by ten, so that `n + 1` rounds are enough.
unfoldable pub itoa : ℕ → String
unfolding emit digit
itoa n = emit (suc n) n []

read_digits : ℕ → String → Option ℕ
read_digits n [] = some n
read_digits n (c ∷ s) =
    let rest = read_digits (10 * n + (code c - b'0')) s in
    if leb b'0' (code c) && leb (code c) b'9' then rest else none

-- One digit or more.
unfoldable pub read_number : String → Option ℕ
unfolding read_digits
read_number [] = none
read_number (c ∷ s) = read_digits 0 (c ∷ s)

-- `pos n` or its opposite, within the 64-bit range.
positive : Option ℕ → Option ℤ
positive none = none
positive (some n) = if ltb n (2 ^ 63) then some (pos n) else none

abbrev opposite : ℕ → ℤ
opposite zero = pos 0
opposite (suc n) = negsuc n

negative : Option ℕ → Option ℤ
negative none = none
negative (some n) = if leb n (2 ^ 63) then some (opposite n) else none

-- `strconv.Atoi`: `none` is its error.
unfoldable pub atoi : String → Option ℤ
unfolding read_number positive negative
atoi [] = none
atoi (c ∷ s) =
    if code c == b'-'
    then negative (read_number s)
    else if code c == b'+'
    then positive (read_number s)
    else positive (read_number (c ∷ s))

code-digit : (n : ℕ) → n < 10 → code (digit n) ≡ n + b'0'
unfolding digit
code-digit zero h = refl
code-digit (suc zero) h = refl
code-digit (suc (suc zero)) h = refl
code-digit (suc (suc (suc zero))) h = refl
code-digit (suc (suc (suc (suc zero)))) h = refl
code-digit (suc (suc (suc (suc (suc zero))))) h = refl
code-digit (suc (suc (suc (suc (suc (suc zero)))))) h = refl
code-digit (suc (suc (suc (suc (suc (suc (suc zero))))))) h = refl
code-digit (suc (suc (suc (suc (suc (suc (suc (suc zero)))))))) h = refl
code-digit (suc (suc (suc (suc (suc (suc (suc (suc (suc n))))))))) h = ground arith

read_digits-digit :
    (m n : ℕ) (s : String) → n < 10 → read_digits m (digit n ∷ s) ≡ read_digits (10 * m + n) s
unfolding read_digits
read_digits-digit m n s h = ground (arith, code-digit n h)

-- What is read of a printed number is the number, before what stands behind it.
read_digits-emit :
    (fuel n : ℕ) (out : String) → n < fuel → read_digits 0 (emit fuel n out) ≡ read_digits n out
unfolding emit
read_digits-emit zero n out h = absurd (omega arith)
read_digits-emit (suc fuel) n out h = ground (
  arith,
  read_digits-digit 0 n out,
  read_digits-digit (n / 10) (n % 10) out,
  read_digits-emit fuel (n / 10) (digit (n % 10) ∷ out),
)

itoa_test : itoa 1907 ≡ "1907"
unfolding itoa
itoa_test = refl

-- A printed number begins with a digit.
emit_first :
    (fuel n : ℕ) (out : String)
    → n < fuel
    → (c : Char) × (s : String) × (emit fuel n out ≡ c ∷ s) × (b'0' ≤ code c)
unfolding emit
emit_first zero n out h = absurd (omega arith)
emit_first (suc fuel) n out h = elim (Bool-cases (ltb n 10)) [
  | inl small ↦ (digit n, out, rw small, ground (arith, code-digit n))
  | inr more ↦ rw more (emit_first fuel (n / 10) (digit (n % 10) ∷ out) (ground arith))
]

atoi-digits :
    (n : ℕ) (c : Char) (s : String)
    → b'0' ≤ code c
    → n < 2 ^ 63
    → read_digits 0 (c ∷ s) ≡ some n
    → atoi (c ∷ s) ≡ some (pos n)
unfolding atoi
atoi-digits n c s first small e = ground arith

read_digits-itoa : (n : ℕ) → read_digits 0 (itoa n) ≡ some n
unfolding itoa read_digits
read_digits-itoa n = read_digits-emit (suc n) n [] (omega arith)

pub itoa-ne_empty : (n : ℕ) → itoa n ≢ []
unfolding itoa
itoa-ne_empty n h = let (c, s, e, first) = emit_first (suc n) n [] (omega arith) in cc (e, h)

-- `Atoi` reads back what `Itoa` prints.
pub atoi-itoa : (n : ℕ) → n < 2 ^ 63 → atoi (itoa n) ≡ some (pos n)
unfolding itoa
atoi-itoa n small =
    let (c, s, e, first) = emit_first (suc n) n [] (omega arith) in
    rw e (atoi-digits n c s first small (sym (ap (read_digits 0) e) ∙ read_digits-itoa n))

-- Two numbers with one print are equal, however large.
pub itoa_injective : (m n : ℕ) → itoa m ≡ itoa n → m ≡ n
itoa_injective m n e = cc (ap (read_digits 0) e, read_digits-itoa m, read_digits-itoa n)
