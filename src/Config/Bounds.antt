-- ===== src/Config/Bounds.antt =====
-- What holds of each group of fields that `Load` fills.
use Prim.Native.String.{String}
use task_api.Common.{
  ◌≡◌, refl, ◌⊎◌, inl, inr, Bool, true, false, not, ◌&&◌, arith, if◌then◌else◌, str_eq, str_eq_refl,
  All, Bool-cases,
}
use task_api.Common.Text.{trim_space}
use task_api.Common.Strings.{contains}
use task_api.Config.Env.{Env, getenv}
use task_api.Common.Log.{info}
use task_api.Config.Parse.{
  Readers, invalid, has_scheme, required, two_backends, l1_beyond_ttl, parse_log_level, parse_bool,
  ok, validate_link_public_base_url,
}
use task_api.Config.Load.{
  Http, Database, Browser, S3, Attachments, Limits, Links, Redis, exceeds, no_s3, require,
  parse_s3_settings, parse_attachment_s3, load_addr, load_http, load_database, load_browser,
  load_attachments, load_limits, load_links, load_redis,
}
use task_api.Config.Ensures.{
  Ensures, value, Ensures-bind, Ensures-Any, Ensures-of, fail_if-Ensures, IsPositive, IsNatural,
  parse_positive_int-Ensures, parse_duration-Ensures, parse_non_negative_duration-Ensures, HasPort,
  validate_addr-HasPort, IsRate, parse_positive_float-Ensures, IsNetwork, parse_cidr_list-Ensures,
  IsPublicUrl, validate_link_public_base_url-IsPublicUrl, IsEntry, parse_comma_separated-All,
}

module _ {F : Type 0} (go : Readers F) where
  pub record HttpIsWithin (h : Http) : Type 0 where
    pub port : (h.addr ≡ ":8080") ⊎ HasPort go h.addr
    pub read : IsPositive h.read_timeout
    pub write : IsPositive h.write_timeout
    pub idle : IsPositive h.idle_timeout
    pub shutdown : IsPositive h.shutdown_timeout
    pub delay : IsNatural h.pre_shutdown_delay

  load_addr-Ensures : (env : Env) → Ensures (λ a. (a ≡ ":8080") ⊎ HasPort go a) (load_addr go env)
  unfolding load_addr
  load_addr-Ensures env = elim (Bool-cases (str_eq (getenv env "HTTP_ADDR") "")) [
    | inl e ↦ rw e (value _ (inl refl))
    | inr e ↦ rw e (
        Ensures-bind _
          (Ensures-of _ (validate_addr-HasPort go "HTTP_ADDR" (getenv env "HTTP_ADDR")))
          λ _ p. value _ (inr p))
  ]

  pub load_http-Ensures : (env : Env) → Ensures HttpIsWithin (load_http go env)
  unfolding load_http
  load_http-Ensures env = Ensures-bind _ (load_addr-Ensures env) λ addr p.
      Ensures-bind _ (parse_duration-Ensures go env "HTTP_READ_TIMEOUT" _ refl) λ read r.
        Ensures-bind _ (parse_duration-Ensures go env "HTTP_WRITE_TIMEOUT" _ refl) λ write w.
          Ensures-bind _ (parse_duration-Ensures go env "HTTP_IDLE_TIMEOUT" _ refl) λ idle i.
            Ensures-bind _ (parse_duration-Ensures go env "HTTP_SHUTDOWN_TIMEOUT" _ refl) λ stop s.
              Ensures-bind _
                (parse_non_negative_duration-Ensures go env "HTTP_PRE_SHUTDOWN_DELAY" _ refl)
                λ delay d.
                  Ensures-bind _ (Ensures-Any (parse_log_level go env "LOG_LEVEL" info)) λ level _.
                    value _
                      record { port = p; read = r; write = w; idle = i; shutdown = s; delay = d }

  pub record DatabaseIsWithin (d : Database) : Type 0 where
    pub open_conns : IsPositive d.max_open_conns
    pub idle_conns : IsPositive d.max_idle_conns
    pub lifetime : IsPositive d.conn_max_lifetime
    pub call : IsPositive d.db_call_timeout
    pub storage_call : IsPositive d.storage_call_timeout
    pub ttl : IsPositive d.session_ttl
    pub sessions : IsPositive d.max_sessions_per_user

  pub load_database-Ensures : (env : Env) → Ensures DatabaseIsWithin (load_database go env)
  unfolding load_database
  load_database-Ensures env =
      Ensures-bind _ (parse_positive_int-Ensures env "DB_MAX_OPEN_CONNS" _ refl) λ open_conns o.
        Ensures-bind _ (parse_positive_int-Ensures env "DB_MAX_IDLE_CONNS" _ refl) λ idle_conns i.
          Ensures-bind _ (parse_duration-Ensures go env "DB_CONN_MAX_LIFETIME" _ refl) λ lifetime l.
            Ensures-bind _ (parse_duration-Ensures go env "DB_CALL_TIMEOUT" _ refl) λ call c.
              Ensures-bind _ (parse_duration-Ensures go env "STORAGE_CALL_TIMEOUT" _ refl)
                λ storage s.
                  Ensures-bind _ (Ensures-Any (parse_bool env "DB_AUTO_MIGRATE" true)) λ migrate _.
                    Ensures-bind _ (parse_duration-Ensures go env "AUTH_SESSION_TTL" _ refl)
                      λ ttl t.
                        Ensures-bind _
                          (parse_positive_int-Ensures env "AUTH_MAX_SESSIONS_PER_USER" _ refl)
                          λ m p. value _ record {
                            open_conns = o;
                            idle_conns = i;
                            lifetime = l;
                            call = c;
                            storage_call = s;
                            ttl = t;
                            sessions = p;
                          }

  pub record BrowserIsWithin (b : Browser) : Type 0 where
    pub origins : All IsEntry b.cors_allowed_origins
    pub max_age : IsNatural b.hsts_max_age

  pub load_browser-Ensures : (env : Env) → Ensures BrowserIsWithin (load_browser go env)
  unfolding load_browser
  load_browser-Ensures env =
      Ensures-bind _ (parse_non_negative_duration-Ensures go env "HSTS_MAX_AGE" _ refl) λ max_age m.
        Ensures-bind _ (Ensures-Any (parse_bool env "COOKIE_INSECURE" false)) λ insecure _.
          value _
            record { origins = parse_comma_separated-All env "CORS_ALLOWED_ORIGINS"; max_age = m }

  -- Either no S3 endpoint is set, or the endpoint has no scheme and the settings it needs are there.
  abbrev pub IsUsableS3 : S3 → Type 0
  IsUsableS3 s =
      (str_eq s.endpoint "" ≡ true)
      ⊎ ((contains s.endpoint "://" ≡ false)
          × (str_eq (trim_space s.bucket) "" ≡ false)
          × (str_eq (trim_space s.access_key) "" ≡ false)
          × (str_eq (trim_space s.secret_key) "" ≡ false))

  pub record AttachmentsAreWithin (a : Attachments) : Type 0 where
    pub usable : IsUsableS3 a.s3
    pub one_backend : (str_eq a.storage_dir "" ≡ true) ⊎ (str_eq a.s3.endpoint "" ≡ true)
    pub bytes : IsPositive a.max_bytes
    pub bytes_per_user : IsPositive a.max_bytes_per_user
    pub min_age : IsPositive a.orphan_min_age

  require-Ensures :
      (name text : String) → Ensures (λ _. str_eq (trim_space text) "" ≡ false) (require name text)
  unfolding require
  require-Ensures name text = fail_if-Ensures (str_eq (trim_space text) "") (invalid name required)

  parse_s3_settings-Ensures : (env : Env) → Ensures IsUsableS3 (parse_s3_settings env)
  unfolding parse_s3_settings
  parse_s3_settings-Ensures env =
      let endpoint = trim_space (getenv env "ATTACHMENT_S3_ENDPOINT") in
      let bucket = trim_space (getenv env "ATTACHMENT_S3_BUCKET") in
      let access_key = trim_space (getenv env "ATTACHMENT_S3_ACCESS_KEY") in
      let secret_key = getenv env "ATTACHMENT_S3_SECRET_KEY" in
      Ensures-bind _
        (fail_if-Ensures (contains endpoint "://") (invalid "ATTACHMENT_S3_ENDPOINT" has_scheme))
        λ _ scheme. Ensures-bind _ (require-Ensures "ATTACHMENT_S3_BUCKET" bucket) λ _ b.
          Ensures-bind _ (require-Ensures "ATTACHMENT_S3_ACCESS_KEY" access_key) λ _ a.
            Ensures-bind _ (require-Ensures "ATTACHMENT_S3_SECRET_KEY" secret_key) λ _ s.
              Ensures-bind _ (Ensures-Any (parse_bool env "ATTACHMENT_S3_USE_SSL" true))
                λ use_ssl _. value _ (inr (scheme, b, a, s))

  parse_attachment_s3-Ensures : (env : Env) → Ensures IsUsableS3 (parse_attachment_s3 env)
  unfolding parse_attachment_s3
  parse_attachment_s3-Ensures env =
      elim (Bool-cases (str_eq (trim_space (getenv env "ATTACHMENT_S3_ENDPOINT")) "")) [
        | inl e ↦ rw e (value no_s3 (inl (str_eq_refl "")))
        | inr e ↦ rw e (parse_s3_settings-Ensures env)
      ]

  pub load_attachments-Ensures :
      (env : Env) → Ensures AttachmentsAreWithin (load_attachments go env)
  unfolding load_attachments
  load_attachments-Ensures env =
      let dir = trim_space (getenv env "ATTACHMENT_STORAGE_DIR") in
      Ensures-bind _ (parse_attachment_s3-Ensures env) λ s3 u.
        Ensures-bind _
          (fail_if-Ensures (not (str_eq dir "") && not (str_eq s3.endpoint "")) two_backends)
          λ _ one.
            Ensures-bind _ (parse_positive_int-Ensures env "ATTACHMENT_MAX_BYTES" _ refl)
              λ max_bytes m.
                Ensures-bind _
                  (parse_positive_int-Ensures env "ATTACHMENT_MAX_BYTES_PER_USER" _ refl)
                  λ p q.
                    Ensures-bind _
                      (parse_duration-Ensures go env "ATTACHMENT_ORPHAN_MIN_AGE" _ refl)
                      λ age a. value _ record {
                        usable = u;
                        one_backend = ground arith;
                        bytes = m;
                        bytes_per_user = q;
                        min_age = a;
                      }

  pub record LimitsAreWithin (l : Limits F) : Type 0 where
    pub proxies : All (IsNetwork go) l.trusted_proxies
    pub burst : IsPositive l.rate_limit_burst
    pub per_sec : IsRate go l.rate_limit_per_sec
    pub auth_burst : IsPositive l.auth_rate_limit_burst
    pub auth_per_sec : IsRate go l.auth_rate_limit_per_sec
    pub user_burst : IsPositive l.user_rate_limit_burst
    pub user_per_sec : IsRate go l.user_rate_limit_per_sec

  -- The floating-point constants of the source are what they look like.
  pub record HasRates : Type 0 where
    pub twenty : IsRate go (go.ratio 20 1)
    pub a_twentieth : IsRate go (go.ratio 5 100)
    pub forty : IsRate go (go.ratio 40 1)

  pub load_limits-Ensures : HasRates → (env : Env) → Ensures LimitsAreWithin (load_limits go env)
  unfolding load_limits
  load_limits-Ensures rates env =
      Ensures-bind _ (parse_cidr_list-Ensures go env "TRUSTED_PROXIES") λ proxies p.
        Ensures-bind _ (parse_positive_int-Ensures env "RATE_LIMIT_BURST" _ refl) λ b1 i.
          Ensures-bind _ (parse_positive_float-Ensures go env "RATE_LIMIT_PER_SEC" _ rates.twenty)
            λ s1 j.
              Ensures-bind _ (parse_positive_int-Ensures env "AUTH_RATE_LIMIT_BURST" _ refl) λ b2 k.
                Ensures-bind _
                  (parse_positive_float-Ensures go env "AUTH_RATE_LIMIT_PER_SEC" _
                    rates.a_twentieth)
                  λ s2 l.
                    Ensures-bind _ (parse_positive_int-Ensures env "USER_RATE_LIMIT_BURST" _ refl)
                      λ b3 m.
                        Ensures-bind _
                          (parse_positive_float-Ensures go env "USER_RATE_LIMIT_PER_SEC" _
                            rates.forty)
                          λ s3 n. value _ record {
                            proxies = p;
                            burst = i;
                            per_sec = j;
                            auth_burst = k;
                            auth_per_sec = l;
                            user_burst = m;
                            user_per_sec = n;
                          }

  abbrev pub LinksAreWithin : Links → Type 0
  LinksAreWithin l = (l.shortening_enabled ≡ false) ⊎ IsPublicUrl go l.public_base_url

  validated-AreWithin :
      (enabled : Bool) (url : String) (done : Unit {0})
      → (if enabled then validate_link_public_base_url go url else ok tt) ≡ ok done
      → (enabled ≡ false) ⊎ IsPublicUrl go url
  validated-AreWithin true url done h =
      inr (validate_link_public_base_url-IsPublicUrl go url done h)
  validated-AreWithin false url done h = inl refl

  pub load_links-Ensures : (env : Env) → Ensures LinksAreWithin (load_links go env)
  unfolding load_links
  load_links-Ensures env =
      Ensures-bind _ (Ensures-Any (parse_bool env "LINK_SHORTENING_ENABLED" false))
        λ enabled _. Ensures-bind _ (Ensures-of _ (validated-AreWithin enabled _)) λ _ p. value _ p

  pub record RedisIsWithin (r : Redis) : Type 0 where
    pub ttl : IsPositive r.cache_ttl
    pub l1_ttl : IsPositive r.cache_l1_ttl
    pub ordered : exceeds r.cache_l1_ttl r.cache_ttl ≡ false

  pub load_redis-Ensures : (env : Env) → Ensures RedisIsWithin (load_redis go env)
  unfolding load_redis
  load_redis-Ensures env =
      Ensures-bind _ (Ensures-Any (parse_bool env "REDIS_USE_TLS" false)) λ use_tls _.
        Ensures-bind _ (parse_duration-Ensures go env "REDIS_CACHE_TTL" _ refl) λ ttl t.
          Ensures-bind _ (parse_duration-Ensures go env "REDIS_CACHE_L1_TTL" _ refl) λ l1_ttl l.
            Ensures-bind _ (fail_if-Ensures (exceeds l1_ttl ttl) l1_beyond_ttl)
              λ _ o. value _ record { ttl = t; l1_ttl = l; ordered = o }
