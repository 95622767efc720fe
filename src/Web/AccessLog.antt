-- ===== src/Web/AccessLog.antt =====
-- internal/middleware/logging.go and recovery.go, and the chain of cmd/api/main.go around them: every
-- request is answered, and the access log tells the truth about it.
use task_api.Common.{
  ℕ, String, ◌≡◌, refl, inl, inr, ◌≢◌, Bool, true, false, not, ◌&&◌, ◌||◌, Option, none, some, List,
  [], ◌∷◌, ◌++◌, if◌then◌else◌, str_eq, any, Bool-cases, Option-cases, sym, ap, subst,
}
use task_api.Common.Dict.{Dict}
use task_api.Web.{
  Access, Op, set_header, add_header, write_header, write, log, access, note_user, audit, Ending,
  returned, aborted, panicked, Reply, Request, Handler, Wire, no_wire, start, perform, perform_all,
  answer_of, answer, status_part, status_of,
}
use task_api.Web.Middleware.{
  Middleware, recorded, access_entry, logged, recovered, recovery, cors, csrf, is_safe_method,
}

-- What the recorder knows, against what has been sent.
abbrev Agree : ℕ × Bool → Option (ℕ × Dict (List String)) → Type 0
Agree (status, wrote) none = (status ≡ 200) × (wrote ≡ false)
Agree (status, wrote) (some (code, headers)) = (status ≡ code) × (wrote ≡ true)

module _ {P : Type 0} where
  start-Agree :
      (c : ℕ) (w : Wire P) (k : ℕ × Bool)
      → Agree k w.sent
      → Agree (if k.1 then k else (c, true)) (start c w).sent
  unfolding start
  start-Agree c w (status, wrote) h = elim (Option-cases w.sent) [
    | inl e ↦ let g : Agree (status, wrote) none = rw e at h in rw (e, g.1) (refl, refl)
    | inr ((code, headers), e) ↦
        let g : Agree (status, wrote) (some (code, headers)) = rw e at h in rw (e, g.1) (g.0, refl)
  ]

  recorded-Agree :
      (ops : List (Op P)) (w : Wire P) (k : ℕ × Bool)
      → Agree k w.sent
      → Agree (recorded ops k) (perform_all ops w).sent
  unfolding recorded perform_all
  recorded-Agree [] w k h = h
  recorded-Agree (set_header n v ∷ ops) w k h = recorded-Agree ops (perform (set_header n v) w) k h
  recorded-Agree (add_header n v ∷ ops) w k h = recorded-Agree ops (perform (add_header n v) w) k h
  recorded-Agree (write_header c ∷ ops) w k h =
      recorded-Agree ops (perform (write_header c) w) (if k.1 then k else (c, true))
        (start-Agree c w k h)
  recorded-Agree (write b ∷ ops) w k h =
      recorded-Agree ops (perform (write b) w) (if k.1 then k else (200, true))
        (start-Agree 200 w k h)
  recorded-Agree (log l m ∷ ops) w k h = recorded-Agree ops w k h
  recorded-Agree (access e ∷ ops) w k h = recorded-Agree ops w k h
  recorded-Agree (note_user u ∷ ops) w k h = recorded-Agree ops w k h
  recorded-Agree (audit e a ∷ ops) w k h = recorded-Agree ops w k h

  returned-Agree :
      (w : Wire P) (k : ℕ × Bool) → Agree k w.sent → status_part (answer_of returned w) ≡ some k.0
  unfolding answer_of start
  returned-Agree w k h = elim (Option-cases w.sent) [
    | inl e ↦ let g : Agree k none = rw e at h in rw e (ap some (sym g.0))
    | inr ((code, headers), e) ↦
        let g : Agree k (some (code, headers)) = rw e at h in rw e (ap some (sym g.0))
  ]

  -- The recorded status is the one that the client gets.
  pub status_of-recorded :
      (reply : Reply P)
      → reply.ending ≡ returned
      → status_of reply ≡ some (recorded reply.ops (200, false)).0
  unfolding answer
  status_of-recorded reply e =
      let w = perform_all reply.ops no_wire in
      subst (λ x. status_part (answer_of x w) ≡ some (recorded reply.ops (200, false)).0) (sym e)
        (returned-Agree w (recorded reply.ops (200, false))
          (recorded-Agree reply.ops no_wire (200, false) (refl, refl)))

  pub recorded_access :
      (ops : List (Op P)) (e : Access) (k : ℕ × Bool)
      → recorded (ops ++ access e ∷ []) k ≡ recorded ops k
  unfolding recorded
  recorded_access [] e k = refl
  recorded_access (set_header n v ∷ ops) e k = recorded_access ops e k
  recorded_access (add_header n v ∷ ops) e k = recorded_access ops e k
  recorded_access (write_header c ∷ ops) e k = recorded_access ops e (if k.1 then k else (c, true))
  recorded_access (write b ∷ ops) e k = recorded_access ops e (if k.1 then k else (200, true))
  recorded_access (log l m ∷ ops) e k = recorded_access ops e k
  recorded_access (access f ∷ ops) e k = recorded_access ops e k
  recorded_access (note_user u ∷ ops) e k = recorded_access ops e k
  recorded_access (audit a b ∷ ops) e k = recorded_access ops e k

  pub logged-returned :
      (quiet : List String) (r : Request) (x : Ending) (ops : List (Op P))
      → x ≡ returned
      → logged quiet r x ops
        ≡ (record { ops = ops ++ access (access_entry quiet r ops) ∷ []; ending = returned })
  logged-returned quiet r returned ops e = refl
  logged-returned quiet r aborted ops e = cc
  logged-returned quiet r panicked ops e = cc

  recovered-returned :
      (body : P) (started : Bool) (x : Ending) (ops : List (Op P))
      → x ≢ aborted
      → (recovered body started x ops).ending ≡ returned
  recovered-returned body started returned ops n = refl
  recovered-returned body started aborted ops n = absurd (n refl)
  recovered-returned body started panicked ops n = refl

module _ {P St : Type 0} where
  -- The handler answers every request and does not panic.
  abbrev pub Returns : Handler P St → Type 0
  Returns h = (r : Request) (s : St) → (h r s).0.ending ≡ returned

  -- The middleware does not panic by itself.
  abbrev pub Keeps : Middleware P St → Type 0
  Keeps m = (h : Handler P St) → Returns h → Returns (m h)

  pub recovery-Returns :
      (body : P) (next : Handler P St)
      → ((r : Request) (s : St) → (next r s).0.ending ≢ aborted)
      → Returns (recovery true body next)
  unfolding recovery
  recovery-Returns body next n r s =
      recovered-returned body (recorded (next r s).0.ops (200, false)).1 (next r s).0.ending
        (next r s).0.ops (n r s)

  pub csrf-Keeps : (protector : Middleware P St) → Keeps protector → Keeps (csrf protector)
  unfolding csrf
  csrf-Keeps protector keeps h ret r s =
      elim (Bool-cases
        (not (is_safe_method r.method) && not (str_eq (r.header "Authorization") ""))) [
          | inl e ↦ rw e (ret r s)
          | inr e ↦ rw e (keeps h ret r s)
        ]

  pub cors-Keeps : (csrf_header : String) (allowed : List String) → Keeps (cors csrf_header allowed)
  unfolding cors
  cors-Keeps csrf_header [] h ret r s = ret r s
  cors-Keeps csrf_header (first ∷ others) h ret r s =
      elim (Bool-cases (
        str_eq (r.header "Origin") "" || not (any (str_eq (r.header "Origin")) (first ∷ others)))) [
          | inl e ↦ rw e (ret r s)
          | inr e ↦ rw e (elim (Bool-cases (str_eq r.method "OPTIONS")) [
            | inl k ↦ rw k refl
            | inr k ↦ rw k (ret r s)
          ])
        ]
