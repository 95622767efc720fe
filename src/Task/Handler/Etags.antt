-- ===== src/Task/Handler/Etags.antt =====
-- internal/task/handler.go: a conditional read of a task answers 304 exactly if nothing has changed.
use Prim.Native.Char.{Char}
use Prim.Native.String.{String, [] as empty, ◌∷◌ as chars}
use task_api.Common.{
  ℕ, ◌<◌, ◌≡◌, refl, subst, ◌≢◌, inl, inr, Bool, true, false, [], ◌∷◌, arith, if◌then◌else◌, str_eq,
  str_eq_iff, Bool-cases,
}
use task_api.Common.Decimal.{itoa, itoa_injective}
use task_api.Common.Decimal.Shape.{IsDecimal, itoa-IsDecimal}
use task_api.Common.Strings.{has_char, split, push_char}
use task_api.Common.Text.{append, is_space, trim_space, trim_space-of-clean, EndsClean-append}
use task_api.Common.Uuid.{is_valid_id}
use task_api.Common.Uuid.Chars.{is_valid_id-Excludes}
use task_api.Task.Entity.{Task}
use task_api.Task.Handler.{task_etag, if_none_match_hits}

-- A text without a separator is not split.
split_whole : (k : ℕ) (s : String) → has_char k s ≡ false → split k s ≡ s ∷ []
unfolding split has_char push_char
split_whole k empty h = refl
split_whole k (chars c s) h = ground (arith, split_whole k s)

has_char-append :
    (k : ℕ) (s t : String)
    → has_char k s ≡ false
    → has_char k t ≡ false
    → has_char k (append s t) ≡ false
unfolding has_char
has_char-append k empty t h g = g
has_char-append k (chars c s) t h g = ground (arith, has_char-append k s t)

has_char-IsDecimal : (k : ℕ) (s : String) → k < b'0' → IsDecimal s → has_char k s ≡ false
unfolding has_char
has_char-IsDecimal k empty low h = refl
has_char-IsDecimal k (chars c s) low h = ground (arith, has_char-IsDecimal k s low)

append_cancel : (s t u : String) → append s t ≡ append s u → t ≡ u
append_cancel empty t u h = h
append_cancel (chars c s) t u h = append_cancel s t u (cc)

append_cancel_last :
    (c : Char) (s t : String) → append s (chars c empty) ≡ append t (chars c empty) → s ≡ t
append_cancel_last c empty empty h = refl
append_cancel_last c empty (chars e empty) h = cc
append_cancel_last c empty (chars e (chars f t)) h = cc
append_cancel_last c (chars d empty) empty h = cc
append_cancel_last c (chars d (chars e s)) empty h = cc
append_cancel_last c (chars d s) (chars e t) h = cc (append_cancel_last c s t (cc))

abbrev tag_of : String → ℕ → String
tag_of id version = append "\"" (append id (append ":" (append (itoa version) "\"")))

tag_of_injective : (id : String) (m n : ℕ) → tag_of id m ≡ tag_of id n → m ≡ n
tag_of_injective id m n e = itoa_injective m n (
    append_cancel_last "\"" (itoa m) (itoa n)
      (append_cancel ":" _ _ (append_cancel id _ _ (append_cancel "\"" _ _ e))))

-- Tags of two versions of one task are equal only if the versions are.
pub task_etag_injective :
    (t u : Task) → t.id ≡ u.id → task_etag t ≡ task_etag u → t.version ≡ u.version
unfolding task_etag
task_etag_injective t u same e =
    tag_of_injective u.id t.version u.version
      (subst (λ i. tag_of i t.version ≡ tag_of u.id u.version) same e)

task_etag-clean : (t : Task) → trim_space (task_etag t) ≡ task_etag t
unfolding task_etag is_space
task_etag-clean t = trim_space-of-clean (task_etag t) refl (
    EndsClean-append (chars "\"" t.id) ":" (append (itoa t.version) "\"")
      (EndsClean-append (chars ":" (itoa t.version)) "\"" empty refl))

task_etag_whole : (t : Task) → is_valid_id t.id ≡ true → has_char b',' (task_etag t) ≡ false
unfolding task_etag has_char
task_etag_whole t v =
    has_char-append b',' "\"" (append t.id (append ":" (append (itoa t.version) "\""))) refl (
      has_char-append b',' t.id (append ":" (append (itoa t.version) "\""))
        (is_valid_id-Excludes b',' (omega arith) t.id v)
        (has_char-append b',' ":" (append (itoa t.version) "\"") refl (
          has_char-append b',' (itoa t.version) "\""
            (has_char-IsDecimal b',' _ (omega arith) (itoa-IsDecimal t.version)) refl)))

pub str_eq-false : (s t : String) → s ≢ t → str_eq s t ≡ false
str_eq-false s t h = elim (Bool-cases (str_eq s t)) [
  | inl e ↦ absurd (h ((str_eq_iff s t).0 e))
  | inr e ↦ e
]

task_etag-cases : (t : Task) → (task_etag t ≢ "") × (task_etag t ≢ "*")
unfolding task_etag
task_etag-cases t = (cc, cc)

if-eta : (b : Bool) → (if b then true else false) ≡ b
if-eta true = refl
if-eta false = refl

-- The tag of one version is a hit for another version if the two are equal.
pub if_none_match_hits-task_etag :
    (t u : Task)
    → is_valid_id t.id ≡ true
    → if_none_match_hits (task_etag t) (task_etag u) ≡ str_eq (task_etag u) (task_etag t)
unfolding if_none_match_hits
if_none_match_hits-task_etag t u v =
    rw
      (
        str_eq-false (task_etag t) "" (task_etag-cases t).0,
        str_eq-false (task_etag t) "*" (task_etag-cases t).1,
        split_whole b',' (task_etag t) (task_etag_whole t v),
        task_etag-clean t,
      )
      (if-eta (str_eq (task_etag u) (task_etag t)))
