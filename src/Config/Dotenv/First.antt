-- ===== src/Config/Dotenv/First.antt =====
-- What `loadDotEnv` leaves in the environment, against a description with no loop over a state.
use Prim.Native.String.{String}
use task_api.Common.{
  ◌≡◌, inl, inr, ◌&&◌, Option, none, some, List, [], ◌∷◌, arith, if◌then◌else◌, str_eq, str_eq_iff,
  Option-cases,
}
use task_api.Common.Dict.{lookup, lookup-insert}
use task_api.Config.Env.{Env, is_settable, setenv}
use task_api.Config.Dotenv.{
  Opened, absent, refused, opened, raw_lines, scanned, parse_line, apply_line, apply_lines,
  load_dot_env,
}

-- The value that a line gives to a name.
unfoldable defines : String → String → Option String
defines name raw = elim (parse_line raw) [
  | none ↦ none
  | some (key, value) ↦ if str_eq key name && is_settable key value then some value else none
]

-- The value of the first of some lines that gives one to the name.
unfoldable pub first_definition : String → List String → Option String
unfolding defines
first_definition name [] = none
first_definition name (raw ∷ raws) = elim (defines name raw) [
  | none ↦ first_definition name raws
  | some value ↦ some value
]

abbrev pub or_else : Option String → Option String → Option String
or_else none other = other
or_else (some value) other = some value

-- The lines that are read of a file.
abbrev pub lines_of : Opened → List String
lines_of absent = []
lines_of (refused e) = []
lines_of (opened file) = (scanned (raw_lines file.text)).0

lookup-apply_line :
    (name raw : String) (env : Env)
    → lookup name (apply_line env raw) ≡ or_else (lookup name env) (defines name raw)
unfolding apply_line setenv defines
lookup-apply_line name raw env = elim (Option-cases (parse_line raw)) [
  | inl e ↦ ground arith
  | inr ((key, value), e) ↦
      ground (arith, str_eq_iff name key, str_eq_iff key name, lookup-insert name key value env)
]

lookup-apply_lines :
    (name : String) (raws : List String) (env : Env)
    → lookup name (apply_lines env raws) ≡ or_else (lookup name env) (first_definition name raws)
unfolding apply_lines first_definition
lookup-apply_lines name [] env = ground arith
lookup-apply_lines name (raw ∷ raws) env =
    ground
      (arith, lookup-apply_line name raw env, lookup-apply_lines name raws (apply_line env raw))

-- After the call a variable that the process had before is as it was, and another has the value of
-- the first line of the file that defines it, in a way the operating system accepts; with no such
-- line, with no file, or with a file that cannot be opened, it is still not set. That holds also
-- where reading the file ended in an error, for the lines before the error.
pub lookup-load_dot_env :
    (name : String) (file : Opened) (env : Env)
    → lookup name (load_dot_env file env).1
      ≡ or_else (lookup name env) (first_definition name (lines_of file))
unfolding load_dot_env first_definition
lookup-load_dot_env name absent env = ground arith
lookup-load_dot_env name (refused e) env = ground arith
lookup-load_dot_env name (opened file) env =
    lookup-apply_lines name (scanned (raw_lines file.text)).0 env
