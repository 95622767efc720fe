-- ===== src/Task/Handler/Faults.antt =====
-- internal/task/handler.go and service.go: what is wrong with a request whatever is stored, described
-- by its parts and not by the code that checks them, and that a check fails only with such a fault.
use Prim.Native.String.{count}
use task_api.Common.{
  ℕ, ◌<◌, String, ◌≡◌, ◌≢◌, refl, ◌⊎◌, inl, inr, Bool, true, false, Option, none, some, List, [],
  ◌∷◌, ◌++◌, arith, if◌then◌else◌, Option-cases, Bool-cases, str_eq, str_eq_iff, ltb, length, In,
}
use task_api.Common.Decimal.{atoi}
use task_api.Common.Failure.{ok, err, is}
use task_api.Common.Int.{pos, negsuc}
use task_api.Common.Text.{trim_space}
use task_api.Common.Uuid.{is_valid_id}
use task_api.Common.Uuid.Pattern.{IsId, IsId-accepted}
use task_api.Task.Entity.{
  Status, Priority, pending, low, TaskError, TaskResult, not_found, invalid_input, task_sentinels,
  parse_status, parse_priority, parse_iff, status_name, priority_name,
}
use task_api.Task.Service.{
  Sanitizer, validate_title_and_description, validate_priority, collect, validate_filters,
  max_filter_values,
}
use task_api.Task.Handler.{Query, first_value}

-- The error says that the request itself is at fault.
abbrev pub IsRefusal : TaskError → Type 0
IsRefusal e = (is e not_found ≡ true) ⊎ ((is e not_found ≡ false) × (is e invalid_input ≡ true))

abbrev pub IsBadId : String → Type 0
IsBadId id = ¬ IsId id

pub not_id : (id : String) → is_valid_id id ≡ false → IsBadId id
not_id id e h = cc (e, IsId-accepted id h)

-- No title is left, or it has more than 200 characters, or the description more than 2000.
abbrev pub IsBadText : Sanitizer → String → String → Type 0
IsBadText clean title description =
    (clean.plain_text title ≡ "")
    ⊎ (200 < count (clean.plain_text title))
    ⊎ (2000 < count (trim_space (clean.strip_control_chars description)))

-- A text that names nothing.
abbrev pub IsUnknown : {T : Type 0} → (T → String) → String → Type 0
IsUnknown name raw = (x : _) → raw ≢ name x

abbrev pub IsBadPriority : String → Type 0
IsBadPriority raw = (raw ≢ "") × IsUnknown priority_name raw

-- More than fifty values, or one among them that is not empty and names nothing.
abbrev pub IsBadFilter : {T : Type 0} → (T → String) → List String → Type 0
IsBadFilter name raws =
    (50 < length raws) ⊎ ((raw : String) × In raw raws × (raw ≢ "") × IsUnknown name raw)

-- No number, or a negative one.
abbrev pub IsBadNumber : String → Type 0
IsBadNumber raw = (raw ≢ "") × ((atoi raw ≡ none) ⊎ ((n : ℕ) × (atoi raw ≡ some (negsuc n))))

-- A limit or an offset that is no such number, or a limit above 100.
abbrev pub IsBadPage : Query → Type 0
IsBadPage query =
    IsBadNumber (first_value (query "limit"))
    ⊎ ((n : ℕ) × (atoi (first_value (query "limit")) ≡ some (pos n)) × (100 < n))
    ⊎ IsBadNumber (first_value (query "offset"))

-- A check fails only with a refusal, and only where there is the fault.
abbrev pub Validates : {A : Type 0} → Type 0 → TaskResult A → Type 0
Validates F (ok a) = Unit
Validates F (err e) = F × IsRefusal e

Validates-map :
    {A : Type 0} {F G : Type 0} → (F → G) → (r : TaskResult A) → Validates F r → Validates G r
Validates-map f (ok a) h = h
Validates-map f (err e) (fault, h) = (f fault, h)

pub validate_title_and_description-Validates :
    (clean : Sanitizer) (title description : String)
    → Validates
        (IsBadText clean title description)
        (validate_title_and_description clean title description)
unfolding validate_title_and_description is
validate_title_and_description-Validates clean title description =
    elim (Bool-cases (str_eq (clean.plain_text title) "")) [
      | inl e ↦ rw e (inl ((str_eq_iff (clean.plain_text title) "").0 e), inr (refl, refl))
      | inr e ↦ rw e (elim (Bool-cases (ltb 200 (count (clean.plain_text title)))) [
        | inl k ↦ rw k (inr (inl (ground arith)), inr (refl, refl))
        | inr k ↦
            rw k
              (elim (Bool-cases
                (ltb 2000 (count (trim_space (clean.strip_control_chars description))))) [
                  | inl j ↦ rw j (inr (inr (ground arith)), inr (refl, refl))
                  | inr j ↦ rw j tt
                ])
      ])
    ]

parse_status-IsUnknown : (raw : String) → parse_status raw ≡ none → IsUnknown status_name raw
parse_status-IsUnknown raw h x e = cc (h, (parse_iff raw x low).0.1 e)

parse_priority-IsUnknown : (raw : String) → parse_priority raw ≡ none → IsUnknown priority_name raw
parse_priority-IsUnknown raw h x e = cc (h, (parse_iff raw pending x).1.1 e)

pub validate_priority-Validates :
    (raw : String) (fallback : Priority)
    → Validates (IsBadPriority raw) (validate_priority raw fallback)
unfolding validate_priority is
validate_priority-Validates raw fallback = elim (Bool-cases (str_eq raw "")) [
  | inl e ↦ rw e tt
  | inr e ↦ rw e (elim (Option-cases (parse_priority raw)) [
    | inl k ↦ rw k (
      ((λ same. cc ((str_eq_iff raw "").1 same, e)), parse_priority-IsUnknown raw k),
      inr (refl, refl),
    )
    | inr (x, k) ↦ rw k tt
  ])
]

module _ {T : Type 0} (parse : String → Option T) (eq : T → T → Bool) (name : T → String)
    (unknown : (raw : String) → parse raw ≡ none → IsUnknown name raw) where
  -- One of the values names nothing.
  abbrev HasUnknown : List String → Type 0
  HasUnknown raws = (raw : String) × In raw raws × (raw ≢ "") × IsUnknown name raw

  HasUnknown-cons : (raw : String) (raws : List String) → HasUnknown raws → HasUnknown (raw ∷ raws)
  HasUnknown-cons raw raws (x, i, full, h) = (x, inr i, full, h)

  collect-Validates :
      (seen : T → Bool) (out : List T) (raws : List String)
      → Validates (HasUnknown raws) (collect parse eq seen out raws)
  unfolding collect is
  collect-Validates seen out [] = tt
  collect-Validates seen out (raw ∷ raws) = elim (Bool-cases (str_eq raw "")) [
    | inl e ↦ rw e (
        Validates-map (HasUnknown-cons raw raws) (collect parse eq seen out raws)
          (collect-Validates seen out raws))
    | inr e ↦ rw e (elim (Option-cases (parse raw)) [
      | inl k ↦ rw k (
        (raw, inl refl, (λ same. cc ((str_eq_iff raw "").1 same, e)), unknown raw k),
        inr (refl, refl),
      )
      | inr (x, k) ↦ rw k (elim (Bool-cases (seen x)) [
        | inl j ↦ rw j (
            Validates-map (HasUnknown-cons raw raws) (collect parse eq seen out raws)
              (collect-Validates seen out raws))
        | inr j ↦ rw j (
            Validates-map (HasUnknown-cons raw raws)
              (collect parse eq (λ y. if eq x y then true else seen y) (out ++ x ∷ []) raws)
              (collect-Validates (λ y. if eq x y then true else seen y) (out ++ x ∷ []) raws))
      ])
    ])
  ]

  validate_filters-Validates :
      (raws : List String) → Validates (IsBadFilter name raws) (validate_filters parse eq raws)
  unfolding validate_filters is
  validate_filters-Validates raws = elim (Bool-cases (ltb max_filter_values (length raws))) [
    | inl e ↦ rw e (inl (ground arith), inr (refl, refl))
    | inr e ↦ rw e (
        Validates-map (λ h. inr h) (collect parse eq (λ _. false) [] raws)
          (collect-Validates _ [] raws))
  ]

module _ (eq : Status → Status → Bool) (raws : List String) where
  pub status_filters-Validates :
      Validates (IsBadFilter status_name raws) (validate_filters parse_status eq raws)
  status_filters-Validates =
      validate_filters-Validates parse_status eq status_name parse_status-IsUnknown raws

module _ (eq : Priority → Priority → Bool) (raws : List String) where
  pub priority_filters-Validates :
      Validates (IsBadFilter priority_name raws) (validate_filters parse_priority eq raws)
  priority_filters-Validates =
      validate_filters-Validates parse_priority eq priority_name parse_priority-IsUnknown raws

pub IsUnknown-status : (raw : String) → parse_status raw ≡ none → IsUnknown status_name raw
IsUnknown-status raw h = parse_status-IsUnknown raw h
