-- ===== src/Common/Uuid.antt =====
-- `newID` and `idPattern`, which internal/task/service.go, internal/user/service.go and
-- internal/attachment/service.go each hold a copy of.
pub mod Chars
pub mod Pattern
use Prim.Native.Char.{Char, code}
use Prim.Native.Nat.{bit_and, bit_or}
use Prim.Native.String.{String, [], ◌∷◌}
use task_api.Common.{
  ℕ, zero, suc, ◌+◌, ◌<◌, ◌/◌, ◌%◌, ◌≡◌, refl, Bool, true, false, ◌&&◌, ◌||◌, Option, none, some,
  arith, ◌⊎◌, inl, inr, leb, ◌==◌, if◌then◌else◌, passes_below, passes_at,
}

-- `[0-9a-fA-F]`
is_hex : Char → Bool
is_hex ch =
    let c = code ch in
    (leb b'0' c && leb c b'9') || (leb b'a' c && leb c b'f') || (leb b'A' c && leb c b'F')

-- `{n}` hex digits, then the rest of the pattern.
hex_run : ℕ → (String → Bool) → String → Bool
hex_run zero rest s = rest s
hex_run (suc n) rest [] = false
hex_run (suc n) rest (c ∷ s) = is_hex c && hex_run n rest s

dash : (String → Bool) → String → Bool
dash rest [] = false
dash rest (c ∷ s) = code c == b'-' && rest s

at_end : String → Bool
at_end [] = true
at_end (c ∷ s) = false

-- `isValidID`: the pattern 8-4-4-4-12.
unfoldable pub is_valid_id : String → Bool
unfolding hex_run dash at_end is_hex
is_valid_id =
    hex_run 8 (dash (hex_run 4 (dash (hex_run 4 (dash (hex_run 4 (dash (hex_run 12 at_end))))))))

-- The character at a position of a table, `c` beyond its end.
unfoldable pub digit_at : Char → String → ℕ → Char
digit_at c [] n = c
digit_at c (d ∷ s) zero = d
digit_at c (d ∷ s) (suc n) = digit_at c s n

-- A digit of `%x`.
hex_char : ℕ → Char
hex_char = digit_at "0" "0123456789abcdef"

-- A byte in two digits, before a text.
hex_byte : ℕ → String → String
hex_byte b s = hex_char (b / 16) ∷ hex_char (b % 16) ∷ s

-- `hex.EncodeToString` of `n` bytes from a position on.
unfoldable pub hex_encode : ℕ → (ℕ → ℕ) → ℕ → String
unfolding hex_byte hex_char digit_at
hex_encode zero b i = []
hex_encode (suc n) b i = hex_byte (b i) (hex_encode n b (i + 1))

-- The version and the variant bits over the random bytes.
stamp : (ℕ → ℕ) → ℕ → ℕ
stamp b i =
    if i == 6
    then bit_or (bit_and (b 6) 0x0f) 0x40
    else if i == 8
    then bit_or (bit_and (b 8) 0x3f) 0x80
    else b i

-- `fmt.Sprintf("%08x-%04x-%04x-%04x-%012x", …)` of the sixteen bytes.
format_id : (ℕ → ℕ) → String
format_id b =
    let node = hex_byte (b 10) (
      hex_byte (b 11) (hex_byte (b 12) (hex_byte (b 13) (hex_byte (b 14) (hex_byte (b 15) []))))) in
    let clock = hex_byte (b 8) (hex_byte (b 9) ("-" ∷ node)) in
    let high = hex_byte (b 6) (hex_byte (b 7) ("-" ∷ clock)) in
    let mid = hex_byte (b 4) (hex_byte (b 5) ("-" ∷ high)) in
    hex_byte (b 0) (hex_byte (b 1) (hex_byte (b 2) (hex_byte (b 3) ("-" ∷ mid))))

-- `newID` on the bytes that the random source gave; `none` where it failed.
unfoldable pub new_id : Option (ℕ → ℕ) → Option String
unfolding format_id stamp hex_byte hex_char digit_at
new_id none = none
new_id (some b) = some (format_id (stamp b))

abbrev AllHex : String → Type 0
AllHex [] = Unit
AllHex (c ∷ s) = (is_hex c ≡ true) × AllHex s

is_hex-digit_at :
    (c : Char) (s : String) (n : ℕ) → is_hex c ≡ true → AllHex s → is_hex (digit_at c s n) ≡ true
unfolding digit_at
is_hex-digit_at c [] n h k = h
is_hex-digit_at c (d ∷ s) zero h k = k.0
is_hex-digit_at c (d ∷ s) (suc n) h k = is_hex-digit_at c s n h k.1

is_hex-hex_char : (n : ℕ) → is_hex (hex_char n) ≡ true
unfolding is_hex hex_char
is_hex-hex_char n = is_hex-digit_at "0" "0123456789abcdef" n refl (ground arith)

hex_run-hex_byte :
    (n b : ℕ) (rest : String → Bool) (s : String)
    → hex_run (suc (suc n)) rest (hex_byte b s) ≡ hex_run n rest s
unfolding hex_run hex_byte
hex_run-hex_byte n b rest s = rw (is_hex-hex_char (b / 16), is_hex-hex_char (b % 16))

is_valid_id-format_id : (b : ℕ → ℕ) → is_valid_id (format_id b) ≡ true
unfolding is_valid_id format_id hex_run hex_byte dash at_end
is_valid_id-format_id b = simp is_hex-hex_char

-- The character at a position of a text.
abbrev pub nth : ℕ → String → Option Char
nth n [] = none
nth zero (c ∷ s) = some c
nth (suc n) (c ∷ s) = nth n s

abbrev has_version : ℕ → Bool
has_version x = bit_or (bit_and x 0x0f) 0x40 / 16 == 4

abbrev has_variant : ℕ → Bool
has_variant x = bit_or (bit_and x 0x3f) 0x80 / 16 / 4 == 2

versions : passes_below has_version 256 ≡ true
unfolding passes_below
versions = refl

variants : passes_below has_variant 256 ≡ true
unfolding passes_below
variants = refl

version_nibble : (x : ℕ) → x < 256 → bit_or (bit_and x 0x0f) 0x40 / 16 ≡ 4
version_nibble x h = ground (arith, passes_at has_version 256 x h versions)

variant_nibble : (x : ℕ) → x < 256 → bit_or (bit_and x 0x3f) 0x80 / 16 / 4 ≡ 2
variant_nibble x h = ground (arith, passes_at has_variant 256 x h variants)

nth-format_id :
    (b : ℕ → ℕ)
    → (nth 14 (format_id b) ≡ some (hex_char (b 6 / 16)))
      × (nth 19 (format_id b) ≡ some (hex_char (b 8 / 16)))
unfolding format_id hex_byte
nth-format_id b = (refl, refl)

hex_char-variant :
    (n : ℕ)
    → n / 4 ≡ 2
    → (hex_char n ≡ "8") ⊎ (hex_char n ≡ "9") ⊎ (hex_char n ≡ "a") ⊎ (hex_char n ≡ "b")
unfolding hex_char digit_at
hex_char-variant n h = elim (eight n h) [
  | inl e ↦ rw e (inl refl)
  | inr (inl e) ↦ rw e (inr (inl refl))
  | inr (inr (inl e)) ↦ rw e (inr (inr (inl refl)))
  | inr (inr (inr e)) ↦ rw e (inr (inr (inr refl)))
]
  where
    eight : (n : ℕ) → n / 4 ≡ 2 → (n ≡ 8) ⊎ (n ≡ 9) ⊎ (n ≡ 10) ⊎ (n ≡ 11)
    eight n h = omega arith

hex_char_4 : hex_char 4 ≡ "4"
unfolding hex_char digit_at
hex_char_4 = refl

stamped_digits :
    (b : ℕ → ℕ)
    → ((i : ℕ) → b i < 256)
    → (nth 14 (format_id (stamp b)) ≡ some "4")
      × ((nth 19 (format_id (stamp b)) ≡ some "8")
          ⊎ (nth 19 (format_id (stamp b)) ≡ some "9")
          ⊎ (nth 19 (format_id (stamp b)) ≡ some "a")
          ⊎ (nth 19 (format_id (stamp b)) ≡ some "b"))
unfolding stamp
stamped_digits b h = (
  rw (← hex_char_4, ← version_nibble (b 6) (h 6)) (nth-format_id (stamp b)).0,
  ground (arith, (nth-format_id (stamp b)).1, hex_char-variant _ (variant_nibble (b 8) (h 8))),
)

-- Whatever sixteen bytes the random source gives, the id has the shape that `isValidID` accepts,
-- its version digit is 4 and its variant digit is one of 8, 9, a and b.
pub new_id_lem :
    (b : ℕ → ℕ)
    → ((i : ℕ) → b i < 256)
    → (id : String) × (new_id (some b) ≡ some id)
      × (is_valid_id id ≡ true)
      × (nth 14 id ≡ some "4")
      × ((nth 19 id ≡ some "8")
          ⊎ (nth 19 id ≡ some "9")
          ⊎ (nth 19 id ≡ some "a")
          ⊎ (nth 19 id ≡ some "b"))
unfolding new_id
new_id_lem b h = (
  format_id (stamp b),
  refl,
  is_valid_id-format_id (stamp b),
  (stamped_digits b h).0,
  (stamped_digits b h).1,
)
