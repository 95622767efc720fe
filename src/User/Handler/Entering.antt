-- ===== src/User/Handler/Entering.antt =====
-- internal/user/handler.go: login, and the requests of whoever logged in, over the in-memory
-- repository.
use Prim.Native.Char.{Char}
use Prim.Native.String.{◌∷◌ as chars}
use task_api.Common.{ℕ, ◌+◌, String, ◌≡◌, none, some, [], ◌∷◌, ◌++◌, Option}
use task_api.Common.Dict.{Dict, insert}
use task_api.Common.Uuid.{hex_encode}
use task_api.User.Entity.{User, Session, user_sentinels}
use task_api.User.Memory.{Store, memory_repository, find_session_by_token_hash}
use task_api.User.Memory
use task_api.User.Service.{
  Libraries, Config, Process, session_token_bytes, hash_token, normalize_email,
}
use task_api.User.Auth.{require_auth}
use task_api.User.Auth.Protect.{credentials, protect}
use task_api.User.Handler.{
  Settings, LoginRequest, rotated, set_session_cookie, login_body, handle_login,
}
use task_api.Web.{Request, Handler, audit, note_user}
use task_api.Web.Json.{json, reply}
use task_api.Web.Middleware.{before}

module _ (libs : Libraries) where
  -- The process once a session is stored.
  abbrev with_session : String → Session → Process Store → Process Store
  with_session k s p = record p {
    stored = record p.stored { sessions = insert k s p.stored.sessions };
  }

  abbrev new_session : Config → ℕ → String → String → Session
  new_session config now token u = record {
    token_hash = hash_token libs token;
    user_id = u;
    expires_at = now + config.session_ttl;
    created_at = now;
  }

module _ {W : Type 0} (h : Settings W) where
  -- The answer to a login of `u` with the token drawn, and what becomes of a later request.
  abbrev pub Enters :
      {P : Type 0}
      → (String → P)
      → (Request → Option String)
      → Handler P (Process Store × W)
      → (ℕ → ℕ)
      → (ℕ → ℕ)
      → (ℕ → ℕ)
      → LoginRequest
      → Request
      → Request
      → User
      → Process Store
      → W
      → Type 0
  Enters error_body cookie next clock clock' bytes f r later u p w =
      let token = hex_encode session_token_bytes bytes 0 in
      let expires_at = clock 2 + h.config.session_ttl in
      let (answer, (q, v)) =
        handle_login h memory_repository none clock (some bytes) (some f) r (p, w) in
      (answer
        ≡ reply (
            audit "login_success" (normalize_email h.libs f.email)
            ∷ (rotated h memory_repository none (h.rotate r)
                ++ (set_session_cookie (clock 3) token expires_at h.cookie_insecure
                    ++ json 200 (login_body token expires_at u)))))
      × (v ≡ w)
      × (protect error_body h.libs memory_repository none clock' cookie next later (q, w)
          ≡ before (note_user u.id ∷ []) (
              next (record later { user_id = some u.id; session_token = some token })
                (
                  (require_auth h.libs memory_repository none clock' (credentials cookie later)
                      q).1,
                  w,
                )))
