-- ===== src/Config/Settings.antt =====
-- internal/config/config.go: the settings, in the groups that Load fills in turn.
use Prim.Native.String.{String}
use task_api.Common.{ℕ, ◌*◌, Bool, List}
use task_api.Common.Int.{ℤ}
use task_api.Common.Log.{Level}

abbrev pub second : ℕ
second = 1_000_000_000

abbrev pub minute : ℕ
minute = 60 * second

abbrev pub hour : ℕ
hour = 60 * minute

abbrev pub mebibyte : ℕ
mebibyte = 1_048_576

pub record Http : Type 0 where
  pub addr : String
  pub read_timeout : ℤ
  pub write_timeout : ℤ
  pub idle_timeout : ℤ
  pub shutdown_timeout : ℤ
  pub pre_shutdown_delay : ℤ
  pub log_level : Level

pub record Database : Type 0 where
  pub database_url : String
  pub max_open_conns : ℤ
  pub max_idle_conns : ℤ
  pub conn_max_lifetime : ℤ
  pub db_call_timeout : ℤ
  pub storage_call_timeout : ℤ
  pub auto_migrate : Bool
  pub session_ttl : ℤ
  pub max_sessions_per_user : ℤ

pub record Browser : Type 0 where
  pub cors_allowed_origins : List String
  pub hsts_max_age : ℤ
  pub crier_otlp_endpoint : String
  pub csrf_secret : String
  pub cookie_insecure : Bool

pub record S3 : Type 0 where
  pub endpoint : String
  pub bucket : String
  pub access_key : String
  pub secret_key : String
  pub region : String
  pub use_ssl : Bool

pub record Attachments : Type 0 where
  pub storage_dir : String
  pub s3 : S3
  pub max_bytes : ℤ
  pub max_bytes_per_user : ℤ
  pub orphan_min_age : ℤ

pub record Limits (F : Type 0) : Type 0 where
  pub trusted_proxies : List String
  pub rate_limit_burst : ℤ
  pub rate_limit_per_sec : F
  pub auth_rate_limit_burst : ℤ
  pub auth_rate_limit_per_sec : F
  pub user_rate_limit_burst : ℤ
  pub user_rate_limit_per_sec : F

pub record Links : Type 0 where
  pub shortening_enabled : Bool
  pub public_base_url : String

pub record Redis : Type 0 where
  pub redis_addr : String
  pub redis_username : String
  pub redis_password : String
  pub redis_use_tls : Bool
  pub cache_ttl : ℤ
  pub cache_l1_ttl : ℤ

pub record Config (F : Type 0) : Type 0 where
  pub http : Http
  pub database : Database
  pub browser : Browser
  pub attachments : Attachments
  pub limits : Limits F
  pub links : Links
  pub redis : Redis
