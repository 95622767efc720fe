-- ===== src/Config/Within.antt =====
-- What holds of every configuration that `Load` returns.
use Prim.Native.String.{String}
use task_api.Common.{◌≡◌, inl, inr, Option-cases, arith}
use task_api.Config.Env.{Env}
use task_api.Config.Dotenv.{Opened, load_dot_env}
use task_api.Config.Parse.{Readers, ok}
use task_api.Config.Load.{Config, load_env, load, dotenv_path}
use task_api.Config.Ensures.{Ensures, value, Ensures-bind, Ensures-eq_ok}
use task_api.Config.Bounds.{
  HttpIsWithin, DatabaseIsWithin, BrowserIsWithin, AttachmentsAreWithin, LimitsAreWithin,
  LinksAreWithin, RedisIsWithin, HasRates, load_http-Ensures, load_database-Ensures,
  load_browser-Ensures, load_attachments-Ensures, load_limits-Ensures, load_links-Ensures,
  load_redis-Ensures,
}

module _ {F : Type 0} (go : Readers F) where
  pub record IsWithin (c : Config F) : Type 0 where
    pub http : HttpIsWithin go c.http
    pub database : DatabaseIsWithin go c.database
    pub browser : BrowserIsWithin go c.browser
    pub attachments : AttachmentsAreWithin go c.attachments
    pub limits : LimitsAreWithin go c.limits
    pub links : LinksAreWithin go c.links
    pub redis : RedisIsWithin go c.redis

  load_env-Ensures : HasRates go → (env : Env) → Ensures IsWithin (load_env go env)
  unfolding load_env
  load_env-Ensures rates env = Ensures-bind _ (load_http-Ensures go env) λ http h.
      Ensures-bind _ (load_database-Ensures go env) λ database d.
        Ensures-bind _ (load_browser-Ensures go env) λ browser b.
          Ensures-bind _ (load_attachments-Ensures go env) λ attachments a.
            Ensures-bind _ (load_limits-Ensures go rates env) λ limits l.
              Ensures-bind _ (load_links-Ensures go env) λ links k.
                Ensures-bind _ (load_redis-Ensures go env) λ redis r. value _ record {
                  http = h;
                  database = d;
                  browser = b;
                  attachments = a;
                  limits = l;
                  links = k;
                  redis = r;
                }

  -- A configuration that `Load` returns has positive timeouts, pool sizes, quotas, limits and rates,
  -- delays that are not negative, a port between 1 and 65535, at most one attachment backend, for S3
  -- with its required settings and no scheme, no default route among the trusted proxies, an
  -- absolute HTTP URL with a host if link shortening is on, a first-level cache lifetime within the
  -- second level's, and origins without spaces at their ends. That holds for any file and any
  -- environment, if the three constant rates are positive numbers.
  pub load-IsWithin :
      HasRates go
      → (files : String → Opened) (env : Env) {c : Config F} → (load go files env).0 ≡ ok c
      → IsWithin c
  unfolding load
  load-IsWithin rates files env h =
      elim (Option-cases (load_dot_env (files (dotenv_path env)) env).0) [
        | inl e ↦
            Ensures-eq_ok IsWithin
              (load_env-Ensures rates (load_dot_env (files (dotenv_path env)) env).1) (ground arith)
        | inr (failed, e) ↦ absurd (ground arith)
      ]
