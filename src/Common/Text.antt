-- ===== src/Common/Text.antt =====
-- What the program uses of Go's text functions: `strings.TrimSpace`, `strings.ToLower` over a table
-- of lower-case code points, `utf8.RuneCountInString` (the library's `count`), and `<` on strings.
use Prim.Native.Char.{Char, code}
use Prim.Native.String.{String, [], ◌∷◌}
use text.Mathlib.TextEquality.{Char-path}
use task_api.Common.{
  ℕ, ◌+◌, ◌≡◌, refl, inl, inr, Bool, true, false, ◌||◌, ◌&&◌, arith, ltb, leb, ◌==◌, if◌then◌else◌,
  Bool-cases, str_eq, str_eq_iff,
}
use task_api.Common.Sort.{IsStrictOrder}

-- `unicode.IsSpace`
unfoldable pub is_space : Char → Bool
is_space ch =
    let c = code ch in
    (leb 9 c && leb c 13)
    || c == 32
    || c == 0x85
    || c == 0xa0
    || c == 0x1680
    || (leb 0x2000 c && leb c 0x200a)
    || c == 0x2028
    || c == 0x2029
    || c == 0x202f
    || c == 0x205f
    || c == 0x3000

-- `len(string(r))`
abbrev pub rune_bytes : Char → ℕ
rune_bytes ch =
    let c = code ch in
    if ltb c 0x80 then 1 else if ltb c 0x800 then 2 else if ltb c 0x10000 then 3 else 4

-- `len(s)`
unfoldable pub byte_length : String → ℕ
byte_length [] = 0
byte_length (c ∷ s) = rune_bytes c + byte_length s

-- `+` on strings, by its clauses.
abbrev pub append : String → String → String
append [] t = t
append (c ∷ s) t = c ∷ append s t

trim_left : String → String
trim_left [] = []
trim_left (c ∷ s) = if is_space c then trim_left s else c ∷ s

-- `c` before a text that is trimmed already: a space is kept only before something else.
unfoldable pub push_front : Char → String → String
push_front c [] = if is_space c then [] else c ∷ []
push_front c (d ∷ s) = c ∷ d ∷ s

trim_right : String → String
trim_right [] = []
trim_right (c ∷ s) = push_front c (trim_right s)

-- `strings.TrimSpace`
unfoldable pub trim_space : String → String
unfolding trim_left trim_right push_front is_space
trim_space s = trim_right (trim_left s)

-- The text does not begin with a space, and does not end with one.
abbrev pub StartsClean : String → Type 0
StartsClean [] = Unit
StartsClean (c ∷ s) = is_space c ≡ false

abbrev pub EndsClean : String → Type 0
EndsClean [] = Unit
EndsClean (c ∷ []) = is_space c ≡ false
EndsClean (c ∷ d ∷ s) = EndsClean (d ∷ s)

trim_left-StartsClean : (s : String) → StartsClean (trim_left s)
unfolding trim_left
trim_left-StartsClean [] = tt
trim_left-StartsClean (c ∷ s) = ground (arith, trim_left-StartsClean s)

push_front-EndsClean : (c : Char) (s : String) → EndsClean s → EndsClean (push_front c s)
unfolding push_front
push_front-EndsClean c [] h = elim (Bool-cases (is_space c)) [ inl e ↦ rw e tt | inr e ↦ rw e e ]
push_front-EndsClean c (d ∷ s) h = h

push_front-StartsClean : (c : Char) (s : String) → is_space c ≡ false → StartsClean (push_front c s)
unfolding push_front
push_front-StartsClean c [] h = ground arith
push_front-StartsClean c (d ∷ s) h = h

trim_right-EndsClean : (s : String) → EndsClean (trim_right s)
unfolding trim_right
trim_right-EndsClean [] = tt
trim_right-EndsClean (c ∷ s) = push_front-EndsClean c (trim_right s) (trim_right-EndsClean s)

trim_right-StartsClean : (s : String) → StartsClean s → StartsClean (trim_right s)
unfolding trim_right
trim_right-StartsClean [] h = tt
trim_right-StartsClean (c ∷ s) h = push_front-StartsClean c (trim_right s) h

pub trim_space-clean : (s : String) → StartsClean (trim_space s) × EndsClean (trim_space s)
unfolding trim_space
trim_space-clean s = (
  trim_right-StartsClean (trim_left s) (trim_left-StartsClean s),
  trim_right-EndsClean (trim_left s),
)

trim_left-of-clean : (s : String) → StartsClean s → trim_left s ≡ s
unfolding trim_left
trim_left-of-clean [] h = refl
trim_left-of-clean (c ∷ s) h = rw h

trim_right-of-clean : (s : String) → EndsClean s → trim_right s ≡ s
unfolding trim_right push_front
trim_right-of-clean [] h = refl
trim_right-of-clean (c ∷ []) h = rw h
trim_right-of-clean (c ∷ d ∷ s) h = rw (trim_right-of-clean (d ∷ s) h)

-- A text with no space at its ends is left as it is.
pub trim_space-of-clean : (s : String) → StartsClean s → EndsClean s → trim_space s ≡ s
unfolding trim_space
trim_space-of-clean s h k = rw (trim_left-of-clean s h) (trim_right-of-clean s k)

-- `strings.ToLower`, over the Unicode table of lower-case code points.
unfoldable pub to_lower : (Char → Char) → String → String
to_lower table [] = []
to_lower table (c ∷ s) = table c ∷ to_lower table s

-- `<` on strings, which compares bytes; for UTF-8 that is the order of the code points.
unfoldable pub str_ltb : String → String → Bool
str_ltb s [] = false
str_ltb [] (d ∷ t) = true
str_ltb (c ∷ s) (d ∷ t) =
    if ltb (code c) (code d) then true else if ltb (code d) (code c) then false else str_ltb s t

str_ltb_irreflexive : (s : String) → str_ltb s s ≡ false
unfolding str_ltb
str_ltb_irreflexive [] = refl
str_ltb_irreflexive (c ∷ s) = ground (arith, str_ltb_irreflexive s)

str_ltb_transitive : (s t u : String) → str_ltb s t ≡ true → str_ltb t u ≡ true → str_ltb s u ≡ true
unfolding str_ltb
str_ltb_transitive s t [] h k = cc
str_ltb_transitive s [] (e ∷ u) h k = cc
str_ltb_transitive [] (d ∷ t) (e ∷ u) h k = refl
str_ltb_transitive (c ∷ s) (d ∷ t) (e ∷ u) h k = ground (arith, str_ltb_transitive s t u)

str_ltb_negative :
    (s t u : String) → str_ltb t s ≡ false → str_ltb u t ≡ false → str_ltb u s ≡ false
unfolding str_ltb
str_ltb_negative [] t u h k = refl
str_ltb_negative (c ∷ s) [] u h k = cc
str_ltb_negative (c ∷ s) (d ∷ t) [] h k = cc
str_ltb_negative (c ∷ s) (d ∷ t) (e ∷ u) h k = ground (arith, str_ltb_negative s t u)

pub str_ltb-IsStrictOrder : IsStrictOrder str_ltb
str_ltb-IsStrictOrder = record {
  irreflexive = str_ltb_irreflexive;
  transitive = str_ltb_transitive;
  negative = str_ltb_negative;
}

-- Of two different strings one is less.
pub str_ltb_tie : (s t : String) → str_ltb s t ≡ false → str_ltb t s ≡ false → s ≡ t
unfolding str_ltb
str_ltb_tie [] [] h k = refl
str_ltb_tie [] (d ∷ t) h k = cc
str_ltb_tie (c ∷ s) [] h k = cc
str_ltb_tie (c ∷ s) (d ∷ t) h k =
    cc (Char-path c d (ground arith), str_ltb_tie s t (ground arith) (ground arith))

-- A text with a character is not empty.
pub str_eq-cons : (c : Char) (s : String) → str_eq (c ∷ s) "" ≡ false
str_eq-cons c s = elim (Bool-cases (str_eq (c ∷ s) "")) [
  | inl e ↦ cc ((str_eq_iff (c ∷ s) "").0 e)
  | inr e ↦ e
]

pub EndsClean-append :
    (s : String) (c : Char) (t : String) → EndsClean (c ∷ t) → EndsClean (append s (c ∷ t))
EndsClean-append [] c t h = h
EndsClean-append (d ∷ []) c t h = h
EndsClean-append (d ∷ e ∷ s) c t h = EndsClean-append (e ∷ s) c t h
