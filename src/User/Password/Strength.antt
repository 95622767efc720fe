-- ===== src/User/Password/Strength.antt =====
-- internal/user/password_strength.go and service.go: which passwords are accepted.
use Prim.Native.Char.{Char, code}
use Prim.Native.String.{String, [], ◌∷◌}
use text.Mathlib.TextEquality.{Char-path}
use task_api.Common.{
  ◌+◌, ◌≤◌, ◌≡◌, refl, ◌↔◌, Bool, true, false, ◌||◌, arith, In, any-str_eq, ◌⊎◌, if◌then◌else◌, not,
  ◌==◌,
}
use task_api.Common.Text.{byte_length, to_lower}
use task_api.Common.Failure.{ok}
use task_api.User.WeakPasswords.{common_weak_passwords}
use task_api.User.Password.{
  validate_password, all_runes, run_flags, is_single_repeated_rune, is_sequential_run,
  is_common_weak_password,
}

-- Every rune is `c`.
abbrev pub Repeats : Char → String → Type 0
Repeats c [] = Unit
Repeats c (d ∷ s) = (d ≡ c) × Repeats c s

-- Each rune is the next code point after the one before it.
abbrev pub Climbs : Char → String → Type 0
Climbs before [] = Unit
Climbs before (c ∷ s) = (code c ≡ code before + 1) × Climbs c s

abbrev pub Falls : Char → String → Type 0
Falls before [] = Unit
Falls before (c ∷ s) = (code c + 1 ≡ code before) × Falls c s

-- One character over and over, or a run of neighbours up or down.
abbrev pub IsPredictable : String → Type 0
IsPredictable [] = Unit
IsPredictable (c ∷ s) = Repeats c s ⊎ Climbs c s ⊎ Falls c s

all_runes-iff-Repeats : (c : Char) (s : String) → (all_runes c s ≡ true) ↔ Repeats c s
unfolding all_runes
all_runes-iff-Repeats c [] = (λ _. tt, λ _. refl)
all_runes-iff-Repeats c (d ∷ s) = ground (arith, Char-path d c, all_runes-iff-Repeats c s)

run_flags-iff-Climbs :
    (c : Char) (up down : Bool) (s : String)
    → (run_flags c up down s ≡ true) ↔ (((up ≡ true) × Climbs c s) ⊎ ((down ≡ true) × Falls c s))
unfolding run_flags
run_flags-iff-Climbs c up down [] = ground arith
run_flags-iff-Climbs c up down (d ∷ s) = ground (
  arith,
  run_flags-iff-Climbs d (if not (code d == code c + 1) then false else up)
      (if not (code d + 1 == code c) then false else down) s,
)

is_sequential_run_iff :
    (c d : Char) (s : String)
    → (is_sequential_run (c ∷ d ∷ s) ≡ true) ↔ (Climbs c (d ∷ s) ⊎ Falls c (d ∷ s))
unfolding is_sequential_run
is_sequential_run_iff c d s = ground (arith, run_flags-iff-Climbs c true true (d ∷ s))

IsPredictable-iff :
    (s : String) → (is_single_repeated_rune s || is_sequential_run s ≡ true) ↔ IsPredictable s
unfolding is_single_repeated_rune
IsPredictable-iff [] = (λ _. tt, λ _. refl)
IsPredictable-iff (c ∷ []) = ground (arith, all_runes-iff-Repeats c [])
IsPredictable-iff (c ∷ d ∷ s) =
    ground (arith, all_runes-iff-Repeats c (d ∷ s), is_sequential_run_iff c d s)

-- A password is accepted exactly if it has from 8 to 72 bytes in UTF-8, its lower-case form is not on
-- the list, and it is neither one character over and over nor a run of neighbouring code points, up
-- or down.
pub validate_password_iff :
    (table : Char → Char) (password : String)
    → (validate_password table password ≡ ok tt) ↔ (
        (8 ≤ byte_length password)
        × (byte_length password ≤ 72)
        × ¬ In (to_lower table password) common_weak_passwords
        × ¬ IsPredictable password)
unfolding validate_password is_common_weak_password
validate_password_iff table password =
    ground (
      arith,
      any-str_eq (to_lower table password) common_weak_passwords,
      IsPredictable-iff password,
    )
