-- ===== src/Config/Settings.antt =====
-- internal/config/config.go: what the environment sets, and the checks of `Load` on it.
pub mod Laws
use remnawave_subpage_proxy.Prelude.{
  ℕ, ◌*◌, is_some, Bool, true, false, not, ◌&&◌, ◌||◌, List, [], ◌∷◌, ◌++◌, Option, none, some,
  if◌then◌else◌, length, take,
}
use remnawave_subpage_proxy.Prelude.Int.{ℤ, pos, ltb_ℤ, is_neg}
use remnawave_subpage_proxy.Prelude.Text.{Bytes, codes, bytes_eq, contains, is_empty, trim_byte}
use remnawave_subpage_proxy.Prelude.Text.Case.{Unicode, to_lower}
use remnawave_subpage_proxy.Config.Patterns.{Regexp}
use remnawave_subpage_proxy.Config.File.{File, default_file}
use remnawave_subpage_proxy.Config.Validate.{FileProblem, validate}
use remnawave_subpage_proxy.Config.Env.{
  EnvProblem, no_url, bad_scheme, no_host, not_among, not_positive, negative_number, smaller_than,
  Reading, fine, flawed, cut_suffix, System, second,
}

-- `url.URL`, as far as the code reads and writes it; `rest` is everything else.
pub record Url : Type 0 where
  pub scheme : Bytes
  pub host : Bytes
  pub path : Bytes
  pub rest : Bytes

pub record Http : Type 0 where
  pub addr : Bytes
  pub read_timeout : ℤ
  pub write_timeout : ℤ
  pub idle_timeout : ℤ
  pub shutdown_timeout : ℤ
  pub health_addr : Bytes

pub record Upstream : Type 0 where
  pub url : Option Url
  pub timeout : ℤ
  pub sub_prefix : Bytes
  pub trust_proxy : Bytes
  pub force_https : Bool

pub record Panel : Type 0 where
  pub url : Option Url
  pub token : Bytes
  pub timeout : ℤ
  pub enabled : Bool
  pub always_fetch : Bool
  pub forward_real_ip : Bool
  pub caddy_auth_token : Bytes
  pub cloudflare_id : Bytes
  pub cloudflare_secret : Bytes

pub record Cache : Type 0 where
  pub ttl : ℤ
  pub negative_ttl : ℤ
  pub max_entries : ℤ

pub record SubCache : Type 0 where
  pub enabled : Bool
  pub ttl : ℤ
  pub max_bytes : ℤ
  pub max_body : ℤ

pub record Log : Type 0 where
  pub level : Bytes
  pub format : Bytes

pub record Settings : Type 0 where
  pub http : Http
  pub upstream : Upstream
  pub panel : Panel
  pub cache : Cache
  pub sub_cache : SubCache
  pub log : Log

abbrev pub noted_if : Bool → EnvProblem → List EnvProblem
noted_if b p = if b then p ∷ [] else []

abbrev pub formats : List Bytes
formats = codes "text" ∷ codes "json" ∷ []

abbrev pub levels : List Bytes
levels = codes "debug" ∷ codes "info" ∷ codes "warn" ∷ codes "error" ∷ []

-- The checks on an enabled fallback cache.
unfoldable pub sub_cache_problems : SubCache → List EnvProblem
sub_cache_problems c =
    noted_if (not (ltb_ℤ (pos 0) c.ttl)) (not_positive (codes "SUBSCRIPTION_CACHE_TTL"))
    ++ (noted_if (not (ltb_ℤ (pos 0) c.max_body))
          (not_positive (codes "SUBSCRIPTION_CACHE_MAX_BODY"))
        ++ noted_if (ltb_ℤ c.max_bytes c.max_body) (
            smaller_than (codes "SUBSCRIPTION_CACHE_MAX_BYTES")
              (codes "SUBSCRIPTION_CACHE_MAX_BODY")))

-- The checks of `Load` on the settings.
unfoldable pub setting_problems : Settings → List EnvProblem
setting_problems s =
    noted_if (not (contains formats s.log.format)) (not_among (codes "LOG_FORMAT") s.log.format)
    ++ (noted_if (not (contains levels s.log.level)) (not_among (codes "LOG_LEVEL") s.log.level)
        ++ (noted_if (is_neg s.cache.max_entries)
              (negative_number (codes "CACHE_MAX_ENTRIES") s.cache.max_entries)
            ++ (if s.sub_cache.enabled then sub_cache_problems s.sub_cache else [])))
