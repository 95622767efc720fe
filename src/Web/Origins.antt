-- ===== src/Web/Origins.antt =====
-- internal/middleware/cors.go: which origins a browser is told to trust.
use task_api.Common.{
  String, ◌≡◌, refl, ap, ◌∙◌, ◌⊎◌, inl, inr, Bool, false, not, ◌&&◌, some, List, [], ◌∷◌, ◌++◌,
  if◌then◌else◌, str_eq, any, Bool-cases,
}
use task_api.Web.{Op, set_header, add_header, returned, Reply, Request, Handler, answer, status_of}
use task_api.Web.Middleware.{allow, preflight, cors}

-- The origin is listed, and is not empty.
abbrev pub is_trusted : List String → Request → Bool
is_trusted allowed r =
    any (str_eq (r.header "Origin")) allowed && not (str_eq (r.header "Origin") "")

module _ {P : Type 0} where
  -- The origins that some calls tell the browser to trust.
  unfoldable pub grants : List (Op P) → List String
  grants [] = []
  grants (set_header name value ∷ ops) =
      if str_eq name "Access-Control-Allow-Origin" then value ∷ grants ops else grants ops
  grants (add_header name value ∷ ops) =
      if str_eq name "Access-Control-Allow-Origin" then value ∷ grants ops else grants ops
  grants (_ ∷ ops) = grants ops

  preflight_reply : String → String → Reply P
  preflight_reply origin csrf_header = record {
    ops = (add_header "Vary" "Origin" ∷ []) ++ allow origin ++ preflight csrf_header;
    ending = returned;
  }

  grants-vary : (ops : List (Op P)) → grants (add_header "Vary" "Origin" ∷ ops) ≡ grants ops
  unfolding grants str_eq
  grants-vary ops = refl

  grants-allow :
      (origin : String) (ops : List (Op P))
      → grants (add_header "Vary" "Origin" ∷ (allow origin ++ ops)) ≡ origin ∷ grants ops
  unfolding grants str_eq
  grants-allow origin ops = refl

preflight_status :
    (P : Type 0) (origin csrf_header : String)
    → status_of (preflight_reply {P = P} origin csrf_header) ≡ some 204
unfolding answer preflight_reply
preflight_status P origin csrf_header = refl

grants-preflight :
    (P : Type 0) (origin csrf_header : String)
    → grants (preflight_reply {P = P} origin csrf_header).ops ≡ origin ∷ []
unfolding grants str_eq preflight_reply
grants-preflight P origin csrf_header = refl

module _ {P St : Type 0} where
  -- Behind `CORS` the browser is told to trust the origin of the request if it is listed, and no
  -- other origin, and nothing otherwise, if the next handler grants nothing itself. A preflight from
  -- a listed origin is answered 204 without running the next handler; any other request is run.
  pub cors_lem :
      (csrf_header : String) (allowed : List String) (next : Handler P St) (r : Request) (s : St)
      → grants (next r s).0.ops ≡ []
      → (grants (cors csrf_header allowed next r s).0.ops
          ≡ (if is_trusted allowed r then r.header "Origin" ∷ [] else []))
        × ((cors csrf_header allowed next r s).1
            ≡ (if is_trusted allowed r && str_eq r.method "OPTIONS" then s else (next r s).1))
        × (((is_trusted allowed r && str_eq r.method "OPTIONS") ≡ false)
            ⊎ (status_of (cors csrf_header allowed next r s).0 ≡ some 204))
  unfolding cors preflight_reply
  cors_lem csrf_header [] next r s h = (h, refl, inl refl)
  cors_lem csrf_header (first ∷ others) next r s h =
      let allowed = first ∷ others in
      let origin = r.header "Origin" in
      elim (Bool-cases (str_eq origin "")) [
        | inl e ↦ elim (Bool-cases (any (str_eq origin) allowed)) [
          | inl k ↦ rw (e, k) (grants-vary (next r s).0.ops ∙ h, refl, inl refl)
          | inr k ↦ rw (e, k) (grants-vary (next r s).0.ops ∙ h, refl, inl refl)
        ]
        | inr e ↦ elim (Bool-cases (any (str_eq origin) allowed)) [
          | inl k ↦ elim (Bool-cases (str_eq r.method "OPTIONS")) [
            | inl m ↦
                rw (e, k, m)
                  (
                    grants-preflight P origin csrf_header,
                    refl,
                    inr (preflight_status P origin csrf_header),
                  )
            | inr m ↦
                rw (e, k, m)
                  (grants-allow origin (next r s).0.ops ∙ ap (◌∷◌ origin) h, refl, inl refl)
          ]
          | inr k ↦ rw (e, k) (grants-vary (next r s).0.ops ∙ h, refl, inl refl)
        ]
      ]
