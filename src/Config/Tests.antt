-- ===== src/Config/Tests.antt =====
-- Runs of internal/config, and the theorems about it at concrete inputs.
use task_api.Common.{
  ℕ, ◌*◌, ◌/◌, ◌≡◌, refl, true, false, none, some, [], ◌∷◌, ◌==◌, if◌then◌else◌, str_eq,
}
use task_api.Common.Dict.{lookup, insert}
use task_api.Common.Decimal.{atoi}
use task_api.Common.Int.{pos}
use task_api.Common.Text.{trim_space, to_lower}
use task_api.Common.Strings.{split}
use task_api.Config.Dotenv.{Opened, absent, opened, load_dot_env}
use task_api.Config.Dotenv.First.{first_definition, lines_of, or_else, lookup-load_dot_env}
use task_api.Common.Log.{info}
use task_api.Config.Parse.{Readers, ok, err, invalid, port_out_of_range, default_route}
use task_api.Config.Load.{second, minute, hour, mebibyte, no_s3, Config, load}
use task_api.Config.Bounds.{HasRates}
use task_api.Config.Within.{IsWithin, load-IsWithin}

-- Enough of Go's grammars for the runs below; rates are thousandths.
abbrev readers : Readers ℕ
readers = record {
  time_parse_duration = λ s.
      if str_eq s "5s"
      then some (pos (5 * second))
      else if str_eq s "1m"
      then some (pos minute)
      else none;
  parse_float = λ s. if str_eq s "0.5" then some 500 else none;
  is_nan = λ f. false;
  at_most_zero = λ f. f == 0;
  ratio = λ m n. 1000 * m / n;
  split_host_port =
      λ s. if str_eq s ":9090" then some "9090" else if str_eq s ":0" then some "0" else none;
  parse_prefix =
      λ s. if str_eq s "10.0.0.0/8" then some 8 else if str_eq s "0.0.0.0/0" then some 0 else none;
  parse_addr = λ s. str_eq s "::1";
  parse_url = λ s. none;
  lower = λ c. c;
}

readers-HasRates : HasRates readers
readers-HasRates = record { twenty = refl; a_twentieth = refl; forty = refl }

abbrev env_file : Opened
env_file = opened (record {
  text =
      "# local settings\nHTTP_ADDR = ':9090'\r\nmalformed\nTRUSTED_PROXIES=10.0.0.0/8, ::1\nHTTP_ADDR=:1\n";
  read_error = none;
})

-- `Config` with all defaults.
abbrev default_config : Config ℕ
default_config = record {
  http = record {
    addr = ":8080";
    read_timeout = pos (5 * second);
    write_timeout = pos (10 * second);
    idle_timeout = pos minute;
    shutdown_timeout = pos (10 * second);
    pre_shutdown_delay = pos 0;
    log_level = info;
  };
  database = record {
    database_url = "";
    max_open_conns = pos 25;
    max_idle_conns = pos 25;
    conn_max_lifetime = pos (5 * minute);
    db_call_timeout = pos (5 * second);
    storage_call_timeout = pos (30 * second);
    auto_migrate = true;
    session_ttl = pos (24 * hour);
    max_sessions_per_user = pos 10;
  };
  browser = record {
    cors_allowed_origins = [];
    hsts_max_age = pos (8760 * hour);
    crier_otlp_endpoint = "";
    csrf_secret = "";
    cookie_insecure = false;
  };
  attachments = record {
    storage_dir = "";
    s3 = no_s3;
    max_bytes = pos (10 * mebibyte);
    max_bytes_per_user = pos (500 * mebibyte);
    orphan_min_age = pos hour;
  };
  limits = record {
    trusted_proxies = [];
    rate_limit_burst = pos 60;
    rate_limit_per_sec = 20_000;
    auth_rate_limit_burst = pos 10;
    auth_rate_limit_per_sec = 50;
    user_rate_limit_burst = pos 120;
    user_rate_limit_per_sec = 40_000;
  };
  links = record { shortening_enabled = false; public_base_url = "" };
  redis = record {
    redis_addr = "";
    redis_username = "";
    redis_password = "";
    redis_use_tls = false;
    cache_ttl = pos (5 * minute);
    cache_l1_ttl = pos (5 * second);
  };
}

-- With no file and no variables every setting has its default.
defaults : load readers (λ path. absent) [] ≡ (ok default_config, [])
unfolding load load_dot_env lookup str_eq trim_space split atoi to_lower
defaults = refl

-- The variables of the file are there afterwards, the first definition of each.
file_run :
    (load readers (λ path. env_file) []).1
    ≡ ("HTTP_ADDR", ":9090") ∷ ("TRUSTED_PROXIES", "10.0.0.0/8, ::1") ∷ []
unfolding load load_dot_env lookup insert str_eq trim_space
file_run = refl

refusals :
    ((load readers (λ path. absent) (("HTTP_ADDR", ":0") ∷ [])).0
      ≡ err (invalid "HTTP_ADDR" port_out_of_range))
    × ((load readers (λ path. absent) (("TRUSTED_PROXIES", "::1,0.0.0.0/0") ∷ [])).0
        ≡ err (invalid "TRUSTED_PROXIES" (default_route "0.0.0.0/0")))
unfolding load load_dot_env lookup str_eq trim_space split atoi to_lower
refusals = (refl, refl)

abbrev file_config : Config ℕ
file_config = record default_config {
  http = record (default_config.http) { addr = ":9090" };
  limits = record (default_config.limits) { trusted_proxies = "10.0.0.0/8" ∷ "::1" ∷ [] };
}

load-IsWithin_example : IsWithin readers file_config
unfolding load load_dot_env lookup insert str_eq trim_space split atoi to_lower
load-IsWithin_example = load-IsWithin readers readers-HasRates (λ path. env_file) [] refl

lookup-load_dot_env_example :
    lookup "HTTP_ADDR" (load_dot_env env_file (("TRUSTED_PROXIES", "") ∷ [])).1
    ≡ or_else none (first_definition "HTTP_ADDR" (lines_of env_file))
unfolding lookup str_eq
lookup-load_dot_env_example =
    lookup-load_dot_env "HTTP_ADDR" env_file (("TRUSTED_PROXIES", "") ∷ [])
