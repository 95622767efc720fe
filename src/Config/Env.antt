-- ===== src/Config/Env.antt =====
-- The process environment as `os.LookupEnv`, `os.Getenv` and `os.Setenv` see it.
use Prim.Native.String.{String}
use task_api.Common.{Bool, not, ◌||◌, none, some, if◌then◌else◌, str_eq}
use task_api.Common.Strings.{has_char}
use task_api.Common.Dict.{Dict, lookup, insert}

abbrev pub Env : Type 0
Env = Dict String

-- `os.Getenv`
unfoldable pub getenv : Env → String → String
getenv env name = elim (lookup name env) [ none ↦ "" | some value ↦ value ]

-- The operating system takes no empty name, no `=` in a name, and no NUL.
unfoldable pub is_settable : String → String → Bool
unfolding has_char
is_settable name value =
    not (str_eq name "" || has_char b'=' name || has_char 0 name || has_char 0 value)

-- `os.Setenv`, where its error is dropped
unfoldable pub setenv : String → String → Env → Env
unfolding is_settable
setenv name value env = if is_settable name value then insert name value env else env
