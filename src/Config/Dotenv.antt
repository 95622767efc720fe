-- ===== src/Config/Dotenv.antt =====
-- internal/config/dotenv.go. What opening the file gives is an argument, with the text that was read
-- and the error that ended the reading, if one did.
pub mod First
pub mod Quoted
use Prim.Native.Char.{Char, code}
use Prim.Native.String.{String, [] as empty, ◌∷◌ as chars}
use task_api.Common.{
  ℕ, ◌+◌, Bool, true, false, ◌&&◌, ◌||◌, Option, none, some, List, [], ◌∷◌, leb, ◌==◌,
  if◌then◌else◌, str_eq,
}
use task_api.Common.Dict.{lookup}
use task_api.Common.Failure.{Foreign}
use task_api.Common.Text.{trim_space, byte_length}
use task_api.Common.Strings.{starts_with, cut, push_char}
use task_api.Config.Env.{Env, setenv}

pub record File : Type 0 where
  pub text : String
  pub read_error : Option Foreign

-- `os.Open`
pub data Opened : Type 0 where
  absent : Opened
  refused : Foreign → Opened
  opened : File → Opened

-- Why `loadDotEnv` fails: it cannot open the file, cannot read on, or meets a line beyond the buffer
-- of the scanner.
pub data DotenvError : Type 0 where
  cannot_open cannot_read : Foreign → DotenvError
  line_too_long : DotenvError

-- `bufio.MaxScanTokenSize`
abbrev pub max_line_bytes : ℕ
max_line_bytes = 65536

-- The text at its line feeds. What follows the last one is a line only if it is not empty.
unfoldable pub raw_lines : String → List String
unfolding push_char
raw_lines empty = []
raw_lines (chars c s) = if code c == b'\n' then empty ∷ raw_lines s else push_char c (raw_lines s)

-- A carriage return at the end of a line is dropped.
unfoldable pub drop_cr : String → String
drop_cr empty = empty
drop_cr (chars c empty) = if code c == b'\r' then empty else chars c empty
drop_cr (chars c (chars d s)) = chars c (drop_cr (chars d s))

-- The lines that `scanner.Scan` yields, and whether it stopped at one that is too long.
unfoldable pub scanned : List String → List String × Bool
unfolding byte_length drop_cr
scanned [] = ([], false)
scanned (line ∷ rest) =
    let (lines, too_long) = scanned rest in
    if leb max_line_bytes (byte_length line) then ([], true) else (drop_cr line ∷ lines, too_long)

-- A text that begins with `c`: what stands before its last character, and that character.
unfoldable pub split_last : Char → String → String × Char
split_last c empty = (empty, c)
split_last c (chars d s) = let (before, last) = split_last d s in (chars c before, last)

-- "Strip optional surrounding quotes."
unfoldable pub strip_quotes : String → String
unfolding split_last
strip_quotes empty = empty
strip_quotes (chars c empty) = chars c empty
strip_quotes (chars c (chars d s)) =
    let (inner, last) = split_last d s in
    if (code c == b'"' && code last == b'"') || (code c == b'\'' && code last == b'\'')
    then inner
    else chars c (chars d s)

-- The key and the value of a line, and `none` where the loop goes on to the next line.
unfoldable pub parse_line : String → Option (String × String)
unfolding starts_with cut strip_quotes
parse_line raw =
    let line = trim_space raw in
    if str_eq line "" || starts_with "#" line then none else elim (cut b'=' line) [
      | none ↦ none
      | some (before, after) ↦
          let key = trim_space before in
          if str_eq key "" then none else some (key, strip_quotes (trim_space after))
    ]

-- One round of the loop.
unfoldable pub apply_line : Env → String → Env
unfolding setenv parse_line
apply_line env raw = elim (parse_line raw) [
  | none ↦ env
  | some (key, value) ↦ elim (lookup key env) [ none ↦ setenv key value env | some present ↦ env ]
]

unfoldable pub apply_lines : Env → List String → Env
unfolding apply_line
apply_lines env [] = env
apply_lines env (raw ∷ raws) = apply_lines (apply_line env raw) raws

abbrev scan_error : Bool → Option Foreign → Option DotenvError
scan_error true read_error = some line_too_long
scan_error false none = none
scan_error false (some e) = some (cannot_read e)

-- `loadDotEnv`: the error, and the environment as the call leaves it.
unfoldable pub load_dot_env : Opened → Env → Option DotenvError × Env
unfolding raw_lines scanned apply_lines
load_dot_env absent env = (none, env)
load_dot_env (refused e) env = (some (cannot_open e), env)
load_dot_env (opened file) env =
    let (lines, too_long) = scanned (raw_lines file.text) in
    (scan_error too_long file.read_error, apply_lines env lines)
