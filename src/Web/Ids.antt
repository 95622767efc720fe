-- ===== src/Web/Ids.antt =====
-- internal/middleware/request_id.go: every request has an identifier that is safe to print.
use Prim.Native.Char.{Char}
use Prim.Native.String.{String, [] as empty, ◌∷◌ as chars}
use task_api.Common.{
  ℕ, zero, suc, ◌+◌, ◌*◌, ◌/◌, ◌%◌, ◌^◌, ◌<◌, ◌≤◌, ◌≡◌, refl, ◌⊎◌, inl, inr, Bool, true, false,
  Option, none, some, [], ◌∷◌, arith, Bool-cases,
}
use task_api.Common.Decimal.{itoa}
use task_api.Common.Decimal.Shape.{IsDecimal, itoa-IsDecimal, byte_length-itoa}
use task_api.Common.Text.{append, byte_length, rune_bytes, str_eq-cons}
use task_api.Common.Uuid.{digit_at, hex_encode}
use task_api.Web.{set_header, Request, Handler}
use task_api.Web.Middleware.{
  before, is_id_char, all_chars, is_valid_request_id, new_request_id, request_id,
}

all_chars-IsDecimal : (s : String) → IsDecimal s → all_chars is_id_char s ≡ true
unfolding all_chars is_id_char
all_chars-IsDecimal empty h = refl
all_chars-IsDecimal (chars c s) h = ground (arith, all_chars-IsDecimal s)

all_chars-append :
    (test : Char → Bool) (s t : String)
    → all_chars test s ≡ true
    → all_chars test t ≡ true
    → all_chars test (append s t) ≡ true
unfolding all_chars
all_chars-append test empty t h k = k
all_chars-append test (chars c s) t h k = ground (arith, all_chars-append test s t)

byte_length-append : (s t : String) → byte_length (append s t) ≡ byte_length s + byte_length t
unfolding byte_length
byte_length-append empty t = omega arith
byte_length-append (chars c s) t = omega (arith, byte_length-append s t)

all_chars-digit_at :
    (test : Char → Bool) (c : Char) (s : String) (n : ℕ)
    → test c ≡ true
    → all_chars test s ≡ true
    → test (digit_at c s n) ≡ true
unfolding all_chars digit_at
all_chars-digit_at test c empty n h k = h
all_chars-digit_at test c (chars d s) zero h k = ground arith
all_chars-digit_at test c (chars d s) (suc n) h k = ground (arith, all_chars-digit_at test c s n)

abbrev hex : ℕ → Char
hex = digit_at "0" "0123456789abcdef"

is_id_char-hex : (n : ℕ) → is_id_char (hex n) ≡ true
unfolding all_chars is_id_char
is_id_char-hex n = all_chars-digit_at is_id_char "0" "0123456789abcdef" n refl refl

rune_bytes-id_char : (c : Char) → is_id_char c ≡ true → rune_bytes c ≡ 1
unfolding is_id_char
rune_bytes-id_char c h = ground arith

hex_encode-valid :
    (n : ℕ) (b : ℕ → ℕ) (i : ℕ)
    → (all_chars is_id_char (hex_encode n b i) ≡ true) × (byte_length (hex_encode n b i) ≡ 2 * n)
unfolding hex_encode all_chars byte_length
hex_encode-valid zero b i = (refl, refl)
hex_encode-valid (suc n) b i =
    let high = is_id_char-hex (b i / 16) in
    let low = is_id_char-hex (b i % 16) in
    let rest = hex_encode-valid n b (i + 1) in
    (
      rw (high, low) rest.0,
      omega (
        arith,
        rune_bytes-id_char (hex (b i / 16)) high,
        rune_bytes-id_char (hex (b i % 16)) low,
        rest.1,
      ),
    )

valid_of :
    (id : String)
    → all_chars is_id_char id ≡ true
    → 1 ≤ byte_length id
    → byte_length id ≤ 128
    → is_valid_request_id id ≡ true
unfolding is_valid_request_id byte_length
valid_of empty h l m = absurd (omega arith)
valid_of (chars c s) h l m = ground (arith, str_eq-cons c s)

new_request_id-valid :
    (random : Option (ℕ → ℕ)) (now : ℕ)
    → now < 2 ^ 63
    → is_valid_request_id (new_request_id random now) ≡ true
unfolding new_request_id all_chars is_id_char byte_length
new_request_id-valid (some b) now h =
    let v = hex_encode-valid 16 b 0 in
    valid_of (hex_encode 16 b 0) v.0 (omega (arith, v.1)) (omega (arith, v.1))
new_request_id-valid none now h =
    let size = byte_length-append "fallback-" (itoa now) in
    valid_of (append "fallback-" (itoa now))
      (all_chars-append is_id_char "fallback-" (itoa now) refl
        (all_chars-IsDecimal (itoa now) (itoa-IsDecimal now)))
      (omega (arith, size)) (omega (arith, size, byte_length-itoa now h))

module _ {P St : Type 0} where
  -- `RequestID` gives every request an identifier of 1 to 128 letters, digits, dashes and underscores,
  -- whatever the client sent and even if the random source fails. The next handler has it in its
  -- context, and the response carries it in its header before the next handler's own calls. It is
  -- the client's if the client's is such a text. The clock reads less than 2^63 nanoseconds.
  pub request_id_lem :
      (random : Option (ℕ → ℕ)) (now : ℕ) (next : Handler P St) (r : Request) (s : St)
      → now < 2 ^ 63
      → (id : String) × (is_valid_request_id id ≡ true)
        × ((id ≡ r.header "X-Request-Id") ⊎ (is_valid_request_id (r.header "X-Request-Id") ≡ false))
        × (request_id random now next r s
            ≡ before
                (set_header "X-Request-Id" id ∷ [])
                (next (record r { request_id = some id }) s))
  unfolding request_id
  request_id_lem random now next r s h =
      elim (Bool-cases (is_valid_request_id (r.header "X-Request-Id"))) [
        | inl e ↦ (r.header "X-Request-Id", e, inl refl, rw e refl)
        | inr e ↦ (new_request_id random now, new_request_id-valid random now h, inr e, rw e refl)
      ]
