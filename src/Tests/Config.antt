-- ===== src/Tests/Config.antt =====
-- The configuration at concrete files and environments.
use remnawave_subpage_proxy.Prelude.{
  ℕ, ◌*◌, ◌≤◌, ◌≡◌, ◌⊎◌, refl, true, false, List, [], ◌∷◌, none, some, arith,
}
use remnawave_subpage_proxy.Prelude.Int.{pos, negsuc, max_int64}
use remnawave_subpage_proxy.Prelude.Text.{
  Bytes, codes, bytes_eq, contains, split, trim_byte, trim_space,
}
use remnawave_subpage_proxy.Prelude.Text.Case.{to_lower, to_upper}
use remnawave_subpage_proxy.Prelude.Text.Decimal.{parse_int}
use remnawave_subpage_proxy.Prelude.Assoc.{lookup}
use remnawave_subpage_proxy.Config.Patterns.{
  compile_block, compile_hosts, compile_patterns, compile_from, compile_pattern,
}
use remnawave_subpage_proxy.Config.UserAgents.{compile_user_agents}
use remnawave_subpage_proxy.Config.File.{
  Encoding, Condition, HeaderRule, File, default_file, is_unconditional, valid_var_name,
}
use remnawave_subpage_proxy.Config.Validate.{
  unreachable, validate, filled_file, file_problems, check_rules, filled_rule, rule_problems,
  shadow, has_agent, traffic_problems, width_problems, var_problems, pattern_problems,
  agent_problems,
}
use remnawave_subpage_proxy.Config.Validate.Laws.{IsSound, validate-IsSound}
use remnawave_subpage_proxy.Config.Env.{
  System, mul_int64, cut_suffix, parse_size, parse_bool, env_lookup, env_string, required_string,
  duration, int_val, bool_val, size_val, given_duration,
}
use remnawave_subpage_proxy.Config.Env.Laws.{IsLasting, duration-IsLasting}
use remnawave_subpage_proxy.Config.Settings.{setting_problems, sub_cache_problems}
use remnawave_subpage_proxy.Config.Files.{Outside, missing, at_end, load_file}
use remnawave_subpage_proxy.Config.Load.{
  Config, configured, load, environment, read_url, required_url,
}
use remnawave_subpage_proxy.Config.Load.Laws.{IsReady, load-IsReady}
use remnawave_subpage_proxy.RealIp
use remnawave_subpage_proxy.RealIp.{Parsed, parse}
use remnawave_subpage_proxy.Proxy.Stages.{Proxy}
use remnawave_subpage_proxy.Start.{NewHandler, new_handler, new_sub_cache, run_healthcheck}
use remnawave_subpage_proxy.Start.Laws.{load_starts}
use remnawave_subpage_proxy.Tests.Data.{plain_case, texts}
use remnawave_subpage_proxy.Tests.Data as Data

program : Unit {0}
unfolding bytes_eq contains split trim_byte trim_space to_lower to_upper parse_int lookup
    compile_block compile_hosts compile_patterns compile_from compile_pattern compile_user_agents
    is_unconditional valid_var_name validate filled_file file_problems check_rules filled_rule
    rule_problems shadow has_agent traffic_problems width_problems var_problems pattern_problems
    agent_problems mul_int64 cut_suffix parse_size parse_bool env_lookup env_string required_string
    duration int_val bool_val size_val given_duration load load_file environment setting_problems
    sub_cache_problems read_url required_url
program = tt

abbrev always : Condition
always = record {
  client_types = [];
  user_statuses = [];
  user_agent = [];
  exists = none;
  has_traffic_limit = none;
  user_agent_re = none;
}

abbrev title : HeaderRule
title = record {
  name = codes " profile-title ";
  template = some (codes "x");
  encode = Encoding.unset;
  remove = false;
  when = always;
  max_length = pos 0;
}

abbrev for_clash : HeaderRule
for_clash = record title { when = record always { client_types = codes "Clash" ∷ [] } }

abbrev file : File
file = record default_file { headers = for_clash ∷ title ∷ [] }

no_problems : (validate plain_case (λ s. none) (λ n. []) some file).1 ≡ []
unfolding program
no_problems = refl

-- The rule above has no condition.
dead_rule :
    (validate plain_case
      (λ s. none)
      (λ n. [])
      some
      (record file { headers = title ∷ for_clash ∷ [] })).1
    ≡ unreachable 1 (codes "profile-title") 0 ∷ []
unfolding program
dead_rule = refl

validate-IsSound_example :
    IsSound plain_case
      (λ s. none)
      (λ n. [])
      some
      file
      (validate plain_case (λ s. none) (λ n. []) some file).0
validate-IsSound_example = validate-IsSound plain_case (λ s. none) (λ n. []) some file no_problems

abbrev variables : List (Bytes × Bytes)
variables =
    (codes "UPSTREAM_URL", codes "http://u/")
    ∷ (codes "REMNAWAVE_PANEL_URL", codes "http://p")
    ∷ (codes "REMNAWAVE_API_TOKEN", codes "t")
    ∷ (codes "UPSTREAM_TIMEOUT", codes "5")
    ∷ (codes "SUBSCRIPTION_CACHE_ENABLED", codes "true")
    ∷ (codes "SUBSCRIPTION_CACHE_MAX_BYTES", codes "2 MiB")
    ∷ []

abbrev system : System
system = record { look_up = λ k. lookup k variables; parse_duration = λ s. none }

abbrev outside : Outside
outside = record {
  system = system;
  parse_url =
      λ s. some (record { scheme = codes "http"; host = codes "u"; path = codes "/"; rest = [] });
  int_text = λ n. codes "1";
  itoa = λ n. [];
  compile = λ s. none;
  load_location = some;
  read_file = λ p. missing;
  decode = λ f s. (f, at_end);
  unknown_section = λ s. true;
}

sized :
    (size_val plain_case system (codes "SUBSCRIPTION_CACHE_MAX_BYTES") (pos 0)).value ≡ pos 2097152
unfolding program
sized = refl

-- A bare number of seconds that is too large wraps around.
wrapped_seconds :
    given_duration plain_case system (codes "K") (pos 0) [] (parse_int (codes "10000000000")) none
    ≡ record { value = negsuc 8446744073709551615; problems = [] }
unfolding program
wrapped_seconds = refl

upstream_text : env_lookup plain_case system (codes "UPSTREAM_TIMEOUT") ≡ some (codes "5")
unfolding program
upstream_text = refl

read_well : (duration plain_case system (codes "UPSTREAM_TIMEOUT") (pos 0)).problems ≡ []
unfolding program
read_well = refl

five_parsed : parse_int (codes "5") ≡ some (pos 5)
unfolding program
five_parsed = refl

small_seconds :
    (raw : Bytes) (n : ℕ)
    → env_lookup plain_case system (codes "UPSTREAM_TIMEOUT") ≡ some raw
    → parse_int raw ≡ some (pos n)
    → n * 1000000000 ≤ max_int64
small_seconds raw n there e =
    let found = upstream_text in
    let same : codes "5" ≡ raw = cc in
    let five : parse_int (codes "5") ≡ some (pos n) = rw same e in
    let known = five_parsed in let counted : 5 ≡ n = cc in ground (arith, counted)

duration-IsLasting_example :
    ((env_lookup plain_case system (codes "UPSTREAM_TIMEOUT") ≡ none)
      × ((duration plain_case system (codes "UPSTREAM_TIMEOUT") (pos 0)).value ≡ pos 0))
    ⊎ ((raw : Bytes) × ((env_lookup plain_case system (codes "UPSTREAM_TIMEOUT") ≡ some raw)
          × IsLasting plain_case system raw
              (duration plain_case system (codes "UPSTREAM_TIMEOUT") (pos 0)).value))
duration-IsLasting_example =
    duration-IsLasting plain_case system (codes "UPSTREAM_TIMEOUT") (pos 0) small_seconds read_well

abbrev config : Config
config = record {
  settings = (environment plain_case outside).value;
  file = default_file;
  config_path = codes "config.yaml";
  skipped = [];
}

loaded_config : load plain_case outside ≡ configured config
unfolding program
loaded_config = refl

load-IsReady_example : IsReady plain_case outside config
load-IsReady_example = load-IsReady plain_case outside config loaded_config

trusting_one :
    RealIp.parse plain_case texts config.settings.upstream.trust_proxy
    ≡ Parsed.made (record { trust_all = false; hops = 1; nets = [] })
unfolding program parse
trusting_one = refl

load_starts_example :
    (p : Proxy Data.outside) × (new_handler Data.outside outside.compile outside.itoa
        (λ g n. [])
        (λ uuid ip. none)
        config
      ≡ NewHandler.made p (new_sub_cache config.settings.sub_cache))
load_starts_example =
    load_starts outside Data.outside (λ g n. []) (λ uuid ip. none) config plain_case
      (record { trust_all = false; hops = 1; nets = [] }) loaded_config trusting_one

-- A port that turns the health server off is still asked.
off_but_asked : run_healthcheck (some (codes "-1")) (λ url. none) ≡ 1
unfolding run_healthcheck bytes_eq
off_but_asked = refl
