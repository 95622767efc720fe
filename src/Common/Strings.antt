-- ===== src/Common/Strings.antt =====
-- The functions of the strings package that the program uses besides those in Common/Text.
use Prim.Native.Char.{Char, code}
use Prim.Native.String.{String, [] as empty, ◌∷◌ as chars}
use task_api.Common.{ℕ, Bool, true, false, Option, none, some, List, [], ◌∷◌, ◌==◌, if◌then◌else◌}

-- A character with a given code occurs in the text.
unfoldable pub has_char : ℕ → String → Bool
has_char k empty = false
has_char k (chars c s) = if code c == k then true else has_char k s

-- `strings.HasPrefix`, with the prefix first
unfoldable pub starts_with : String → String → Bool
starts_with empty s = true
starts_with (chars p ps) empty = false
starts_with (chars p ps) (chars c s) = if code p == code c then starts_with ps s else false

-- `strings.Contains`
unfoldable pub contains : String → String → Bool
unfolding starts_with
contains empty part = starts_with part empty
contains (chars c s) part = if starts_with part (chars c s) then true else contains s part

-- What stands before and after the first character with a given code.
unfoldable pub cut : ℕ → String → Option (String × String)
cut k empty = none
cut k (chars c s) =
    if code c == k
    then some (empty, s)
    else elim (cut k s) [ none ↦ none | some (before, after) ↦ some (chars c before, after) ]

-- `c` before the first of some pieces.
unfoldable pub push_char : Char → List String → List String
push_char c [] = chars c empty ∷ []
push_char c (piece ∷ pieces) = chars c piece ∷ pieces

-- `strings.Split` by one character
unfoldable pub split : ℕ → String → List String
unfolding push_char
split k empty = empty ∷ []
split k (chars c s) = if code c == k then empty ∷ split k s else push_char c (split k s)

-- `strings.TrimRight` of one character
unfoldable pub trim_right_char : ℕ → String → String
trim_right_char k empty = empty
trim_right_char k (chars c s) = elim (trim_right_char k s) [
  | empty ↦ if code c == k then empty else chars c empty
  | chars d t ↦ chars c (chars d t)
]
