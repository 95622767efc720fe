-- ===== src/Config/Dotenv/Quoted.antt =====
-- Lines with a value in double quotes.
use Prim.Native.Char.{Char, code}
use Prim.Native.String.{String, [] as empty, ◌∷◌ as chars}
use task_api.Common.{◌≡◌, refl, false, some, arith, ◌==◌}
use task_api.Common.Text.{
  EndsClean-append, str_eq-cons, append, is_space, trim_space, EndsClean, trim_space-of-clean,
}
use task_api.Common.Strings.{has_char, starts_with, cut}
use task_api.Config.Dotenv.{split_last, strip_quotes, parse_line}

-- A text that a line can define: not empty, with no space at its ends, with no `=`, and no comment.
abbrev pub IsKey : String → Type 0
IsKey empty = ⊥
IsKey (chars c s) =
    (is_space c ≡ false)
    × ((code c == b'#') ≡ false)
    × EndsClean (chars c s)
    × (has_char b'=' (chars c s) ≡ false)

cut-append :
    (key : String) (c : Char) (rest : String)
    → has_char (code c) key ≡ false
    → cut (code c) (append key (chars c rest)) ≡ some (key, rest)
unfolding cut has_char
cut-append empty c rest h = ground arith
cut-append (chars d s) c rest h = ground (arith, cut-append s c rest)

split_last-append :
    (d : Char) (s : String) (c : Char) → split_last d (append s (chars c empty)) ≡ (chars d s, c)
unfolding split_last
split_last-append d empty c = refl
split_last-append d (chars e s) c = ground (arith, split_last-append e s c)

-- A text in double quotes.
abbrev pub quoted : String → String
quoted value = chars "\"" (append value "\"")

strip_quotes-quoted : (value : String) → strip_quotes (quoted value) ≡ value
unfolding strip_quotes split_last
strip_quotes-quoted empty = refl
strip_quotes-quoted (chars d s) = rw (split_last-append d s "\"")

quoted-clean : (value : String) → trim_space (quoted value) ≡ quoted value
unfolding is_space
quoted-clean value =
    trim_space-of-clean (quoted value) refl (EndsClean-append (chars "\"" value) "\"" empty refl)

-- The line of a definition.
abbrev pub definition : String → String → String
definition key value = append key (chars "=" (quoted value))

definition-clean :
    (key value : String) → IsKey key → trim_space (definition key value) ≡ definition key value
unfolding is_space
definition-clean empty value h = absurd h
definition-clean (chars c s) value h = trim_space-of-clean (definition (chars c s) value) h.0 (
    EndsClean-append (chars c s) "=" (quoted value)
      (EndsClean-append (chars "=" (chars "\"" value)) "\"" empty refl))

starts_with-other :
    (c : Char) (s : String) → (code c == b'#') ≡ false → starts_with "#" (chars c s) ≡ false
unfolding starts_with
starts_with-other c s h = ground arith

-- A line that defines a key by a value in double quotes is read as that key and that value,
-- whatever the value holds, spaces at its ends and quotes among it. The key is not empty, has no
-- space at its ends and no `=`, and does not begin with `#`.
pub parse_line-quoted :
    (key value : String) → IsKey key → parse_line (definition key value) ≡ some (key, value)
unfolding parse_line
parse_line-quoted empty value h = absurd h
parse_line-quoted (chars c s) value h = rw (
  definition-clean (chars c s) value h,
  str_eq-cons c (append s (chars "=" (quoted value))),
  starts_with-other c (append s (chars "=" (quoted value))) h.1,
  cut-append (chars c s) "=" (quoted value) h.3,
  trim_space-of-clean (chars c s) h.0 h.2,
  str_eq-cons c s,
  quoted-clean value,
  strip_quotes-quoted value,
)
