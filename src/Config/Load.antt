-- ===== src/Config/Load.antt =====
-- internal/config/config.go: `Config` and `Load`. The fields stand in the groups that `Load` fills
-- one after the other; times are nanoseconds.
use Prim.Native.String.{String}
use task_api.Common.{◌*◌, Bool, true, false, not, ◌&&◌, none, some, ltb, if◌then◌else◌, str_eq}
use task_api.Common.Int.{ℤ, pos, negsuc}
use task_api.Common.Text.{trim_space}
use task_api.Common.Strings.{contains, trim_right_char}
use task_api.Config.Env.{Env, getenv}
use task_api.Config.Dotenv.{Opened, load_dot_env}
use task_api.Common.Log.{info}
use task_api.Config.Parse.{
  Readers, dotenv_failed, invalid, two_backends, l1_beyond_ttl, has_scheme, required, Loaded, ok,
  err, ◌>>=◌, ◌>>◌, fail_if, parse_positive_int, parse_bool, parse_comma_separated, parse_duration,
  parse_non_negative_duration, parse_positive_float, parse_log_level, validate_addr,
  parse_cidr_list, validate_link_public_base_url,
}
pub use task_api.Config.Settings.{
  second, minute, hour, mebibyte, Http, Database, Browser, S3, Attachments, Limits, Links, Redis,
  Config,
}

-- `a > b`
unfoldable pub exceeds : ℤ → ℤ → Bool
exceeds (pos m) (pos n) = ltb n m
exceeds (pos m) (negsuc n) = true
exceeds (negsuc m) (pos n) = false
exceeds (negsuc m) (negsuc n) = ltb m n

-- The S3 settings where no endpoint is given.
abbrev pub no_s3 : S3
no_s3 = record {
  endpoint = "";
  bucket = "";
  access_key = "";
  secret_key = "";
  region = "";
  use_ssl = false;
}

-- One round of the loop over the required settings of `parseAttachmentS3`
unfoldable pub require : String → String → Loaded (Unit {0})
unfolding fail_if
require name value = fail_if (str_eq (trim_space value) "") (invalid name required)

-- `parseAttachmentS3` behind its early return
unfoldable pub parse_s3_settings : Env → Loaded S3
unfolding fail_if require
parse_s3_settings env = do
  let endpoint = trim_space (getenv env "ATTACHMENT_S3_ENDPOINT")
  let bucket = trim_space (getenv env "ATTACHMENT_S3_BUCKET")
  let access_key = trim_space (getenv env "ATTACHMENT_S3_ACCESS_KEY")
  let secret_key = getenv env "ATTACHMENT_S3_SECRET_KEY"
  fail_if (contains endpoint "://") (invalid "ATTACHMENT_S3_ENDPOINT" has_scheme)
  require "ATTACHMENT_S3_BUCKET" bucket
  require "ATTACHMENT_S3_ACCESS_KEY" access_key
  require "ATTACHMENT_S3_SECRET_KEY" secret_key
  use_ssl ← parse_bool env "ATTACHMENT_S3_USE_SSL" true
  ok (record {
    endpoint = endpoint;
    bucket = bucket;
    access_key = access_key;
    secret_key = secret_key;
    region = trim_space (getenv env "ATTACHMENT_S3_REGION");
    use_ssl = use_ssl;
  })

-- `parseAttachmentS3`
unfoldable pub parse_attachment_s3 : Env → Loaded S3
unfolding parse_s3_settings
parse_attachment_s3 env =
    if str_eq (trim_space (getenv env "ATTACHMENT_S3_ENDPOINT")) ""
    then ok no_s3
    else parse_s3_settings env

-- The file that `Load` reads first.
abbrev pub dotenv_path : Env → String
dotenv_path env = let raw = getenv env "DOTENV_PATH" in if not (str_eq raw "") then raw else ".env"

module _ {F : Type 0} (go : Readers F) where
  -- `HTTP_ADDR`
  unfoldable pub load_addr : Env → Loaded String
  load_addr env =
      let raw = getenv env "HTTP_ADDR" in
      if str_eq raw "" then ok ":8080" else do validate_addr go "HTTP_ADDR" raw; ok raw

  unfoldable pub load_http : Env → Loaded Http
  unfolding load_addr
  load_http env = do
    addr ← load_addr env
    read ← parse_duration go env "HTTP_READ_TIMEOUT" (pos (5 * second))
    write ← parse_duration go env "HTTP_WRITE_TIMEOUT" (pos (10 * second))
    idle ← parse_duration go env "HTTP_IDLE_TIMEOUT" (pos minute)
    shutdown ← parse_duration go env "HTTP_SHUTDOWN_TIMEOUT" (pos (10 * second))
    delay ← parse_non_negative_duration go env "HTTP_PRE_SHUTDOWN_DELAY" (pos 0)
    level ← parse_log_level go env "LOG_LEVEL" info
    ok (record {
      addr = addr;
      read_timeout = read;
      write_timeout = write;
      idle_timeout = idle;
      shutdown_timeout = shutdown;
      pre_shutdown_delay = delay;
      log_level = level;
    })

  unfoldable pub load_database : Env → Loaded Database
  load_database env = do
    open_conns ← parse_positive_int env "DB_MAX_OPEN_CONNS" (pos 25)
    idle_conns ← parse_positive_int env "DB_MAX_IDLE_CONNS" (pos 25)
    lifetime ← parse_duration go env "DB_CONN_MAX_LIFETIME" (pos (5 * minute))
    call ← parse_duration go env "DB_CALL_TIMEOUT" (pos (5 * second))
    storage ← parse_duration go env "STORAGE_CALL_TIMEOUT" (pos (30 * second))
    migrate ← parse_bool env "DB_AUTO_MIGRATE" true
    ttl ← parse_duration go env "AUTH_SESSION_TTL" (pos (24 * hour))
    sessions ← parse_positive_int env "AUTH_MAX_SESSIONS_PER_USER" (pos 10)
    ok (record {
      database_url = getenv env "DATABASE_URL";
      max_open_conns = open_conns;
      max_idle_conns = idle_conns;
      conn_max_lifetime = lifetime;
      db_call_timeout = call;
      storage_call_timeout = storage;
      auto_migrate = migrate;
      session_ttl = ttl;
      max_sessions_per_user = sessions;
    })

  unfoldable pub load_browser : Env → Loaded Browser
  load_browser env = do
    max_age ← parse_non_negative_duration go env "HSTS_MAX_AGE" (pos (8760 * hour))
    insecure ← parse_bool env "COOKIE_INSECURE" false
    ok (record {
      cors_allowed_origins = parse_comma_separated env "CORS_ALLOWED_ORIGINS";
      hsts_max_age = max_age;
      crier_otlp_endpoint = trim_space (getenv env "CRIER_OTLP_ENDPOINT");
      csrf_secret = getenv env "CSRF_SECRET";
      cookie_insecure = insecure;
    })

  unfoldable pub load_attachments : Env → Loaded Attachments
  unfolding fail_if parse_attachment_s3
  load_attachments env = do
    let dir = trim_space (getenv env "ATTACHMENT_STORAGE_DIR")
    s3 ← parse_attachment_s3 env
    fail_if (not (str_eq dir "") && not (str_eq s3.endpoint "")) two_backends
    max_bytes ← parse_positive_int env "ATTACHMENT_MAX_BYTES" (pos (10 * mebibyte))
    per_user ← parse_positive_int env "ATTACHMENT_MAX_BYTES_PER_USER" (pos (500 * mebibyte))
    min_age ← parse_duration go env "ATTACHMENT_ORPHAN_MIN_AGE" (pos hour)
    ok (record {
      storage_dir = dir;
      s3 = s3;
      max_bytes = max_bytes;
      max_bytes_per_user = per_user;
      orphan_min_age = min_age;
    })

  unfoldable pub load_limits : Env → Loaded (Limits F)
  load_limits env = do
    proxies ← parse_cidr_list go env "TRUSTED_PROXIES"
    burst ← parse_positive_int env "RATE_LIMIT_BURST" (pos 60)
    per_sec ← parse_positive_float go env "RATE_LIMIT_PER_SEC" (go.ratio 20 1)
    auth_burst ← parse_positive_int env "AUTH_RATE_LIMIT_BURST" (pos 10)
    auth_per_sec ← parse_positive_float go env "AUTH_RATE_LIMIT_PER_SEC" (go.ratio 5 100)
    user_burst ← parse_positive_int env "USER_RATE_LIMIT_BURST" (pos 120)
    user_per_sec ← parse_positive_float go env "USER_RATE_LIMIT_PER_SEC" (go.ratio 40 1)
    ok (record {
      trusted_proxies = proxies;
      rate_limit_burst = burst;
      rate_limit_per_sec = per_sec;
      auth_rate_limit_burst = auth_burst;
      auth_rate_limit_per_sec = auth_per_sec;
      user_rate_limit_burst = user_burst;
      user_rate_limit_per_sec = user_per_sec;
    })

  unfoldable pub load_links : Env → Loaded Links
  load_links env = do
    enabled ← parse_bool env "LINK_SHORTENING_ENABLED" false
    let url = trim_right_char b'/' (trim_space (getenv env "LINK_PUBLIC_BASE_URL"))
    if enabled then validate_link_public_base_url go url else ok tt
    ok (record { shortening_enabled = enabled; public_base_url = url })

  unfoldable pub load_redis : Env → Loaded Redis
  unfolding fail_if
  load_redis env = do
    use_tls ← parse_bool env "REDIS_USE_TLS" false
    ttl ← parse_duration go env "REDIS_CACHE_TTL" (pos (5 * minute))
    l1_ttl ← parse_duration go env "REDIS_CACHE_L1_TTL" (pos (5 * second))
    fail_if (exceeds l1_ttl ttl) l1_beyond_ttl
    ok (record {
      redis_addr = trim_space (getenv env "REDIS_ADDR");
      redis_username = trim_space (getenv env "REDIS_USERNAME");
      redis_password = getenv env "REDIS_PASSWORD";
      redis_use_tls = use_tls;
      cache_ttl = ttl;
      cache_l1_ttl = l1_ttl;
    })

  -- What `Load` makes of the environment that the .env file has completed.
  unfoldable pub load_env : Env → Loaded (Config F)
  unfolding load_http load_database load_browser load_attachments load_limits load_links load_redis
  load_env env = do
    http ← load_http env
    database ← load_database env
    browser ← load_browser env
    attachments ← load_attachments env
    limits ← load_limits env
    links ← load_links env
    redis ← load_redis env
    ok (record {
      http = http;
      database = database;
      browser = browser;
      attachments = attachments;
      limits = limits;
      links = links;
      redis = redis;
    })

  -- `Load`, over the file system, with the environment as it leaves it.
  unfoldable pub load : (String → Opened) → Env → Loaded (Config F) × Env
  unfolding load_env parse_positive_int parse_bool parse_comma_separated parse_duration
      parse_non_negative_duration parse_positive_float parse_log_level validate_addr parse_cidr_list
      exceeds trim_right_char getenv contains
  load files env =
      let path = dotenv_path env in
      let (failure, env') = load_dot_env (files path) env in
      (elim failure [ none ↦ load_env env' | some e ↦ err (dotenv_failed path e) ], env')
