-- ===== src/Common/Uuid/Pattern.antt =====
-- `idPattern`, described by the shape of an identifier.
use Prim.Native.Char.{code}
use Prim.Native.String.{String, [], ◌∷◌}
use task_api.Common.{ℕ, zero, suc, ◌≤◌, ◌≡◌, ◌∙◌, refl, ap, ◌⊎◌, Bool, true, arith}
use task_api.Common.Text.{append}
use task_api.Common.Uuid.{is_hex, hex_run, dash, at_end, is_valid_id}

-- A decimal digit, or a letter from a to f in either case.
abbrev pub IsHexDigit : ℕ → Type 0
IsHexDigit c = ((b'0' ≤ c) × (c ≤ b'9')) ⊎ ((b'a' ≤ c) × (c ≤ b'f')) ⊎ ((b'A' ≤ c) × (c ≤ b'F'))

-- So many hexadecimal digits.
abbrev pub IsHexRun : ℕ → String → Type 0
IsHexRun zero [] = Unit
IsHexRun zero (c ∷ s) = ⊥
IsHexRun (suc n) [] = ⊥
IsHexRun (suc n) (c ∷ s) = IsHexDigit (code c) × IsHexRun n s

-- Five runs of 8, 4, 4, 4 and 12 hexadecimal digits, joined by dashes.
abbrev pub IsId : String → Type 0
IsId id =
    (a : String) × (b : String) × (c : String) × (d : String) × (e : String) × IsHexRun 8 a
    × IsHexRun 4 b
    × IsHexRun 4 c
    × IsHexRun 4 d
    × IsHexRun 12 e
    × (id
        ≡ append a
            (append "-" (append b (append "-" (append c (append "-" (append d (append "-" e))))))))

hex_run-append :
    (n : ℕ) (rest : String → Bool) (a s : String)
    → IsHexRun n a
    → hex_run n rest (append a s) ≡ rest s
unfolding hex_run is_hex
hex_run-append zero rest [] s h = refl
hex_run-append zero rest (c ∷ a) s h = absurd h
hex_run-append (suc n) rest [] s h = absurd h
hex_run-append (suc n) rest (c ∷ a) s (digit, h) = ground (arith, hex_run-append n rest a s h)

hex_run_end : (n : ℕ) (a : String) → IsHexRun n a → hex_run n at_end a ≡ true
unfolding hex_run is_hex at_end
hex_run_end zero [] h = refl
hex_run_end zero (c ∷ a) h = absurd h
hex_run_end (suc n) [] h = absurd h
hex_run_end (suc n) (c ∷ a) (digit, h) = ground (arith, hex_run_end n a h)

dash-append : (rest : String → Bool) (s : String) → dash rest (append "-" s) ≡ rest s
unfolding dash
dash-append rest s = refl

-- A run and its dash.
run-append :
    (n : ℕ) (rest : String → Bool) (a s : String)
    → IsHexRun n a
    → hex_run n (dash rest) (append a (append "-" s)) ≡ rest s
run-append n rest a s h = hex_run-append n (dash rest) a (append "-" s) h ∙ dash-append rest s

pub IsId-accepted : (id : String) → IsId id → is_valid_id id ≡ true
unfolding is_valid_id
IsId-accepted id (a, b, c, d, e, ha, hb, hc, hd, he, same) =
    ap is_valid_id same
    ∙ run-append 8 _ a _ ha
    ∙ run-append 4 _ b _ hb
    ∙ run-append 4 _ c _ hc
    ∙ run-append 4 _ d _ hd
    ∙ hex_run_end 12 e he
