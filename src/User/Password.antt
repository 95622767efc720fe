-- ===== src/User/Password.antt =====
-- internal/user/password_strength.go, and the password rules of internal/user/service.go. A password
-- is a string of code points; its length is in the bytes of UTF-8.
pub mod Strength
use Prim.Native.Char.{Char, code}
use Prim.Native.String.{String, [], ◌∷◌}
use task_api.Common.{
  ℕ, ◌+◌, ◌≡◌, Bool, true, false, ◌&&◌, ◌||◌, not, arith, ltb, ◌==◌, if◌then◌else◌, str_eq, any,
}
use task_api.Common.Text.{byte_length, to_lower}
use task_api.User.WeakPasswords.{common_weak_passwords}
use task_api.Common.Failure.{ok, err, sentinel, wrapped}
use task_api.User.Entity.{invalid_input, UserResult}

abbrev pub min_password_len : ℕ
min_password_len = 8

abbrev pub max_password_len : ℕ
max_password_len = 72

unfoldable pub is_common_weak_password : (Char → Char) → String → Bool
is_common_weak_password table password =
    any (str_eq (to_lower table password)) common_weak_passwords

-- The loop of `isSingleRepeatedRune`, with `runes[0]` beside the rest.
unfoldable pub all_runes : Char → String → Bool
all_runes first [] = true
all_runes first (c ∷ s) = if not (code c == code first) then false else all_runes first s

unfoldable pub is_single_repeated_rune : String → Bool
unfolding all_runes
is_single_repeated_rune [] = true
is_single_repeated_rune (c ∷ s) = all_runes c s

-- The loop of `isSequentialRun`, with the rune before the rest and the two flags.
unfoldable pub run_flags : Char → Bool → Bool → String → Bool
run_flags before ascending descending [] = ascending || descending
run_flags before ascending descending (c ∷ s) =
    run_flags c (if not (code c == code before + 1) then false else ascending)
      (if not (code c + 1 == code before) then false else descending) s

unfoldable pub is_sequential_run : String → Bool
unfolding run_flags
is_sequential_run [] = false
is_sequential_run (c ∷ []) = false
is_sequential_run (c ∷ d ∷ s) = run_flags c true true (d ∷ s)

unfoldable pub validate_password : (Char → Char) → String → UserResult (Unit {0})
unfolding is_single_repeated_rune is_sequential_run byte_length is_common_weak_password
validate_password table password =
    if ltb (byte_length password) min_password_len
    then err (wrapped (sentinel invalid_input))
    else if ltb max_password_len (byte_length password)
    then err (wrapped (sentinel invalid_input))
    else if is_common_weak_password table password
    then err (wrapped (sentinel invalid_input))
    else if is_single_repeated_rune password || is_sequential_run password
    then err (wrapped (sentinel invalid_input))
    else ok tt
