-- ===== src/Config/Load.antt =====
-- internal/config/config.go, and `loadFile` of file.go: the configuration that the program starts with.
-- net/url, the file system and the YAML decoder are parameters.
pub mod Laws
use remnawave_subpage_proxy.Prelude.{
  ℕ, ◌*◌, is_some, Bool, true, false, not, ◌&&◌, ◌||◌, List, [], ◌∷◌, ◌++◌, Option, none, some,
  if◌then◌else◌, length, take,
}
use Prim.Native.String.{String}
use remnawave_subpage_proxy.Prelude.Int.{ℤ, pos, ltb_ℤ, is_neg}
use remnawave_subpage_proxy.Prelude.Text.{Bytes, codes, bytes_eq, contains, is_empty, trim_byte}
use remnawave_subpage_proxy.Prelude.Text.Case.{Unicode, to_lower}
use remnawave_subpage_proxy.Config.Patterns.{Regexp}
use remnawave_subpage_proxy.Config.File.{File, default_file}
use remnawave_subpage_proxy.Config.Validate.{FileProblem, validate}
use remnawave_subpage_proxy.Config.Settings.{
  Url, Http, Upstream, Panel, Cache, SubCache, Log, Settings, noted_if, formats, levels,
  sub_cache_problems, setting_problems,
}
use remnawave_subpage_proxy.Config.Files.{
  FileRead, contents, missing, unreadable, Decoded, clean, at_end, other_error, type_error, Outside,
  LoadedFile, loaded, not_read, not_parsed, invalid, judged, split_errors, not_fatal, validated,
  decoded_file, read_result, load_file,
}
use remnawave_subpage_proxy.Config.Env.{
  EnvProblem, no_url, bad_scheme, no_host, not_among, not_positive, negative_number, smaller_than,
  Reading, fine, flawed, cut_suffix, System, second, env_lookup, env_string, required_string,
  duration, int_val, bool_val, size_val,
}

-- `Config`
pub record Config : Type 0 where
  pub settings : Settings
  pub file : File
  pub config_path : Bytes
  pub skipped : List Bytes

-- What `Load` returns.
pub data Loaded : Type 0 where
  configured : Config → Loaded
  bad_environment : List EnvProblem → Loaded
  bad_file : LoadedFile → Loaded

-- `strings.TrimSuffix(path, "/")`
abbrev pub without_slash : Bytes → Bytes
without_slash path = elim (cut_suffix path (codes "/")) [ none ↦ path | some rest ↦ rest ]

abbrev pub seconds : ℕ → ℤ
seconds n = pos (n * 1000000000)

abbrev pub concat : {A : Type 0} → List (List A) → List A
concat [] = []
concat (xs ∷ xss) = xs ++ concat xss

-- What is read only under a condition.
abbrev pub required_if : {A : Type 0} → Bool → Reading A → A → Reading A
required_if b r other = if b then r else fine other

abbrev pub path_or : Option Bytes → Bytes
path_or none = codes "config.yaml"
path_or (some path) = path

abbrev pub with_file : Settings → Bytes → LoadedFile → Loaded
with_file settings path (loaded file skipped) =
    configured (record { settings = settings; file = file; config_path = path; skipped = skipped })
with_file settings path not_read = bad_file not_read
with_file settings path (not_parsed skipped) = bad_file (not_parsed skipped)
with_file settings path (invalid skipped problems) = bad_file (invalid skipped problems)

abbrev pub with_problems : List EnvProblem → Loaded → Loaded
with_problems [] result = result
with_problems (p ∷ ps) result = bad_environment (p ∷ ps)

module _ (u : Unicode) (o : Outside) where
  abbrev pub checked_url : Bytes → Bytes → Option Url → Reading (Option Url)
  checked_url key raw none = flawed none (no_url key raw)
  checked_url key raw (some url) =
      if not (bytes_eq url.scheme (codes "http")) && not (bytes_eq url.scheme (codes "https"))
      then flawed none (bad_scheme key raw)
      else if is_empty url.host
      then flawed none (no_host key raw)
      else fine (some (record url { path = without_slash url.path }))

  -- `parseURL`
  unfoldable pub read_url : Bytes → Bytes → Reading (Option Url)
  read_url key raw = if is_empty raw then fine none else checked_url key raw (o.parse_url raw)

  -- A URL that is required.
  unfoldable pub required_url : Bytes → Reading (Option Url)
  unfolding read_url
  required_url key =
      let raw = required_string u o.system key in
      let url = read_url key raw.value in
      record { value = url.value; problems = raw.problems ++ url.problems }

  abbrev text : String → Bytes → Bytes
  text key other = env_string u o.system (codes key) other

  -- `%s:%d`
  abbrev address : Bytes → ℤ → Bytes
  address host port = host ++ (codes ":" ++ o.int_text port)

  -- What is read, in the order of the reading.
  abbrev pub app_port : Reading ℤ
  app_port = int_val u o.system (codes "APP_PORT") (pos 3020)

  abbrev pub read_timeout : Reading ℤ
  read_timeout = duration u o.system (codes "HTTP_READ_TIMEOUT") (seconds 30)

  abbrev pub write_timeout : Reading ℤ
  write_timeout = duration u o.system (codes "HTTP_WRITE_TIMEOUT") (seconds 90)

  abbrev pub idle_timeout : Reading ℤ
  idle_timeout = duration u o.system (codes "HTTP_IDLE_TIMEOUT") (seconds 120)

  abbrev pub shutdown_timeout : Reading ℤ
  shutdown_timeout = duration u o.system (codes "HTTP_SHUTDOWN_TIMEOUT") (seconds 15)

  abbrev pub upstream_timeout : Reading ℤ
  upstream_timeout = duration u o.system (codes "UPSTREAM_TIMEOUT") (seconds 60)

  abbrev pub force_https : Reading Bool
  force_https = bool_val u o.system (codes "UPSTREAM_FORCE_HTTPS") false

  abbrev pub panel_timeout : Reading ℤ
  panel_timeout = duration u o.system (codes "PANEL_TIMEOUT") (seconds 10)

  abbrev pub panel_enabled : Reading Bool
  panel_enabled = bool_val u o.system (codes "PANEL_ENABLED") true

  abbrev pub always_fetch : Reading Bool
  always_fetch = bool_val u o.system (codes "PANEL_ALWAYS_FETCH") false

  abbrev pub forward_real_ip : Reading Bool
  forward_real_ip = bool_val u o.system (codes "PANEL_FORWARD_REAL_IP") true

  abbrev pub cache_ttl : Reading ℤ
  cache_ttl = duration u o.system (codes "CACHE_TTL") (seconds 30)

  abbrev pub negative_ttl : Reading ℤ
  negative_ttl = duration u o.system (codes "CACHE_NEGATIVE_TTL") (seconds 10)

  abbrev pub max_entries : Reading ℤ
  max_entries = int_val u o.system (codes "CACHE_MAX_ENTRIES") (pos 10000)

  abbrev pub sub_enabled : Reading Bool
  sub_enabled = bool_val u o.system (codes "SUBSCRIPTION_CACHE_ENABLED") false

  abbrev pub sub_ttl : Reading ℤ
  sub_ttl = duration u o.system (codes "SUBSCRIPTION_CACHE_TTL") (seconds 3600)

  abbrev pub max_bytes : Reading ℤ
  max_bytes = size_val u o.system (codes "SUBSCRIPTION_CACHE_MAX_BYTES") (pos 67108864)

  abbrev pub max_body : Reading ℤ
  max_body = size_val u o.system (codes "SUBSCRIPTION_CACHE_MAX_BODY") (pos 1048576)

  abbrev pub health_port : Reading ℤ
  health_port = int_val u o.system (codes "HEALTH_PORT") (pos 3021)

  abbrev pub upstream_url : Reading (Option Url)
  upstream_url = required_url (codes "UPSTREAM_URL")

  abbrev pub panel_url : Reading (Option Url)
  panel_url = required_if panel_enabled.value (required_url (codes "REMNAWAVE_PANEL_URL")) none

  abbrev pub token : Reading Bytes
  token =
      required_if panel_enabled.value (required_string u o.system (codes "REMNAWAVE_API_TOKEN")) []

  abbrev pub reading_problems : List (List EnvProblem)
  reading_problems =
      app_port.problems ∷ read_timeout.problems ∷ write_timeout.problems ∷ idle_timeout.problems
      ∷ shutdown_timeout.problems ∷ upstream_timeout.problems ∷ force_https.problems
      ∷ panel_timeout.problems ∷ panel_enabled.problems ∷ always_fetch.problems
      ∷ forward_real_ip.problems ∷ cache_ttl.problems ∷ negative_ttl.problems ∷ max_entries.problems
      ∷ sub_enabled.problems ∷ sub_ttl.problems ∷ max_bytes.problems ∷ max_body.problems
      ∷ health_port.problems ∷ []

  abbrev pub required_problems : List EnvProblem
  required_problems = upstream_url.problems ++ (panel_url.problems ++ token.problems)

  -- The settings that the environment gives, beside the problems.
  unfoldable pub environment : Reading Settings
  unfolding required_url
  environment = record {
    value = record {
      http = record {
        addr = address (text "APP_HOST" (codes "0.0.0.0")) app_port.value;
        read_timeout = read_timeout.value;
        write_timeout = write_timeout.value;
        idle_timeout = idle_timeout.value;
        shutdown_timeout = shutdown_timeout.value;
        health_addr =
            if ltb_ℤ (pos 0) health_port.value
            then address (text "HEALTH_HOST" (codes "0.0.0.0")) health_port.value
            else [];
      };
      upstream = record {
        url = upstream_url.value;
        timeout = upstream_timeout.value;
        sub_prefix = trim_byte b'/' (text "CUSTOM_SUB_PREFIX" []);
        trust_proxy = text "TRUST_PROXY" (codes "1");
        force_https = force_https.value;
      };
      panel = record {
        url = panel_url.value;
        token = token.value;
        timeout = panel_timeout.value;
        enabled = panel_enabled.value;
        always_fetch = always_fetch.value;
        forward_real_ip = forward_real_ip.value;
        caddy_auth_token = text "CADDY_AUTH_API_TOKEN" [];
        cloudflare_id = text "CLOUDFLARE_ZERO_TRUST_CLIENT_ID" [];
        cloudflare_secret = text "CLOUDFLARE_ZERO_TRUST_CLIENT_SECRET" [];
      };
      cache = record {
        ttl = cache_ttl.value;
        negative_ttl = negative_ttl.value;
        max_entries = max_entries.value;
      };
      sub_cache = record {
        enabled = sub_enabled.value;
        ttl = sub_ttl.value;
        max_bytes = max_bytes.value;
        max_body = max_body.value;
      };
      log = record {
        level = to_lower u (text "LOG_LEVEL" (codes "info"));
        format = to_lower u (text "LOG_FORMAT" (codes "text"));
      };
    };
    problems = concat reading_problems ++ required_problems;
  }

  -- `Load`
  unfoldable pub load : Loaded
  unfolding environment load_file
  load =
      let explicit = env_lookup u o.system (codes "CONFIG_PATH") in
      let path = path_or explicit in
      let settings = environment.value in
      with_problems (environment.problems ++ setting_problems settings)
        (with_file settings path (load_file u o path (is_some explicit)))
