-- ===== src/Common/Uuid/Chars.antt =====
-- An identifier that `isValidID` accepts is made of hexadecimal digits and dashes.
use Prim.Native.String.{String, [], ◌∷◌}
use task_api.Common.{ℕ, zero, suc, ◌<◌, ◌≡◌, refl, Bool, true, false, arith}
use task_api.Common.Strings.{has_char}
use task_api.Common.Uuid.{is_hex, hex_run, dash, at_end, is_valid_id}

-- A comma, or any other character below the dash, does not occur in what a pattern accepts.
abbrev Excludes : ℕ → (String → Bool) → Type 0
Excludes k pattern = (s : String) → pattern s ≡ true → has_char k s ≡ false

module _ (k : ℕ) (low : k < b'-') where
  dash-Excludes : (rest : String → Bool) → Excludes k rest → Excludes k (dash rest)
  unfolding dash has_char
  dash-Excludes rest h [] e = cc
  dash-Excludes rest h (c ∷ s) e = ground (arith, h s)

  at_end-Excludes : Excludes k at_end
  unfolding at_end has_char
  at_end-Excludes [] e = refl
  at_end-Excludes (c ∷ s) e = cc

  hex_run-Excludes : (n : ℕ) (rest : String → Bool) → Excludes k rest → Excludes k (hex_run n rest)
  unfolding hex_run has_char is_hex
  hex_run-Excludes zero rest h s e = h s e
  hex_run-Excludes (suc n) rest h [] e = cc
  hex_run-Excludes (suc n) rest h (c ∷ s) e = ground (arith, hex_run-Excludes n rest h s)

  pub is_valid_id-Excludes : (id : String) → is_valid_id id ≡ true → has_char k id ≡ false
  unfolding is_valid_id
  is_valid_id-Excludes = hex_run-Excludes 8 _ (
      dash-Excludes _ (
        hex_run-Excludes 4 _ (
          dash-Excludes _ (
            hex_run-Excludes 4 _ (
              dash-Excludes _ (
                hex_run-Excludes 4 _ (dash-Excludes _ (hex_run-Excludes 12 _ at_end-Excludes))))))))
