-- ===== src/Config/Validate.antt =====
-- internal/config/file.go: `validate`, which fills in what the file leaves out and collects every
-- problem. A problem is its kind and what its text names.
pub mod Rules
pub mod Laws
use remnawave_subpage_proxy.Prelude.{
  ℕ, suc, Bool, true, false, not, ◌&&◌, ◌||◌, List, [], ◌∷◌, ◌++◌, Option, none, some, is_some, ltb,
  ◌==◌, if◌then◌else◌, length, map,
}
use remnawave_subpage_proxy.Prelude.Int.{ℤ, pos, ltb_ℤ, is_neg}
use remnawave_subpage_proxy.Prelude.Text.{Bytes, codes, is_empty, trim_space}
use remnawave_subpage_proxy.Prelude.Text.Case.{Unicode, to_lower, to_upper}
use remnawave_subpage_proxy.Prelude.Assoc.{lookup}
use remnawave_subpage_proxy.Config.Patterns.{
  Regexp, Patterns, all_compiled, problems, PatternError, Problem, compiled, Compiled,
  compile_pattern, compile_block, compile_hosts,
}
use remnawave_subpage_proxy.Config.UserAgents.{
  CompiledRules, rules, refused_rules, compile_user_agents,
}
use remnawave_subpage_proxy.Config.File.{
  Encoding, UnknownPolicy, TrafficFormat, DateTimeFormat, ProgressBar, TemplateOpts, Condition,
  HeaderRule, File, is_unconditional, infinity, bar_filled, bar_empty, valid_var_name,
}

pub data FileProblem : Type 0 where
  bad_decimals : ℤ → FileProblem
  few_units : ℕ → FileProblem
  unknown_zone : Bytes → FileProblem
  bad_width : ℤ → FileProblem
  bad_block : Problem → FileProblem
  bad_host : Problem → FileProblem
  bad_agent_rule : Problem → FileProblem
  bad_var : Bytes → FileProblem
  unnamed : ℕ → FileProblem
  unreachable : ℕ → Bytes → ℕ → FileProblem
  remove_and_template : ℕ → Bytes → FileProblem
  negative_length : ℕ → Bytes → FileProblem
  bad_user_agent : ℕ → Bytes → PatternError → FileProblem

abbrev pub or_default : Bytes → Bytes → Bytes
or_default s other = if is_empty s then other else s

abbrev pub found_if : Bool → FileProblem → List FileProblem
found_if b problem = if b then problem ∷ [] else []

-- Whether an integer lies outside the range from 0 to a number.
abbrev pub outside : ℤ → ℕ → Bool
outside n top = is_neg n || ltb_ℤ (pos top) n

unfoldable pub traffic_problems : TrafficFormat → List FileProblem
traffic_problems t =
    found_if (outside t.decimals 6) (bad_decimals t.decimals)
    ++ found_if (not (length t.units == 0) && ltb (length t.units) 5) (few_units (length t.units))

unfoldable pub filled_traffic : TrafficFormat → TrafficFormat
filled_traffic t = record t { unlimited = or_default t.unlimited infinity }

unfoldable pub width_problems : ProgressBar → List FileProblem
width_problems b = found_if (outside b.width 100) (bad_width b.width)

unfoldable pub filled_bar : ProgressBar → ProgressBar
filled_bar b = record b {
  filled = or_default b.filled bar_filled;
  empty = or_default b.empty bar_empty;
}

abbrev pub policy_or_keep : UnknownPolicy → UnknownPolicy
policy_or_keep UnknownPolicy.unset = UnknownPolicy.keep
policy_or_keep UnknownPolicy.keep = UnknownPolicy.keep
policy_or_keep UnknownPolicy.blank = UnknownPolicy.blank

abbrev pub encoding_or_auto : Encoding → Encoding
encoding_or_auto Encoding.unset = Encoding.auto
encoding_or_auto Encoding.auto = Encoding.auto
encoding_or_auto Encoding.plain = Encoding.plain
encoding_or_auto Encoding.base64 = Encoding.base64
encoding_or_auto Encoding.base64_prefixed = Encoding.base64_prefixed

-- `problemList`, of a list of patterns and of the rules for user agents.
unfoldable pub pattern_problems : (Problem → FileProblem) → Patterns Regexp → List FileProblem
pattern_problems say (all_compiled _) = []
pattern_problems say (problems ps) = map say ps

unfoldable pub agent_problems : CompiledRules → List FileProblem
agent_problems (rules _ _) = []
agent_problems (refused_rules ps) = map bad_agent_rule ps

-- The loop over the variables, in the order of its visits, which the list is taken to have.
unfoldable pub var_problems : List (Bytes × Bytes) → List FileProblem
var_problems [] = []
var_problems ((name, _) ∷ vars) =
    found_if (not (valid_var_name name)) (bad_var name) ++ var_problems vars

unfoldable pub has_agent : Condition → Bool
has_agent c = not (is_empty (trim_space c.user_agent))

abbrev pub regexp_of : Option Regexp → Compiled Regexp → Option Regexp
regexp_of before (compiled re) = some re
regexp_of before (Compiled.refused _) = none

abbrev pub agent_error : ℕ → Bytes → Compiled Regexp → List FileProblem
agent_error i name (compiled _) = []
agent_error i name (Compiled.refused e) = bad_user_agent i name e ∷ []

-- The rule that makes the rules below it for the same header dead.
abbrev pub dead_problem : ℕ → Bytes → Option ℕ → List FileProblem
dead_problem i name none = []
dead_problem i name (some prev) = unreachable i name prev ∷ []

unfoldable pub shadow : Bytes → ℕ → Condition → List (Bytes × ℕ) → List (Bytes × ℕ)
shadow key i when shadowed =
    if is_some (lookup key shadowed)
    then shadowed
    else if is_unconditional when
    then (key, i) ∷ shadowed
    else shadowed

-- The rules as they are left, and the problems.
pub record Checked : Type 0 where
  pub rules : List HeaderRule
  pub problems : List FileProblem

abbrev pub onto_checked : HeaderRule → List FileProblem → Checked → Checked
onto_checked r ps c = record { rules = r ∷ c.rules; problems = ps ++ c.problems }

abbrev pub zone_text : DateTimeFormat → Bytes
zone_text d = or_default d.timezone (codes "UTC")

abbrev pub zone_problem : Bytes → Option Bytes → List FileProblem
zone_problem name none = unknown_zone name ∷ []
zone_problem name (some _) = []

abbrev pub zone_or_utc : Option Bytes → Bytes
zone_or_utc none = codes "UTC"
zone_or_utc (some zone) = zone

module _ (u : Unicode) (compile : Bytes → Option Regexp) where
  unfoldable pub filled_condition : Condition → Condition
  filled_condition c = record c {
    user_agent_re =
        if has_agent c
        then regexp_of c.user_agent_re (compile_pattern compile c.user_agent)
        else c.user_agent_re;
    user_statuses = map (λ s. to_upper u (trim_space s)) c.user_statuses;
    client_types = map (λ s. to_lower u (trim_space s)) c.client_types;
  }

  unfoldable pub filled_rule : HeaderRule → HeaderRule
  unfolding filled_condition
  filled_rule r = record r {
    name = trim_space r.name;
    encode = encoding_or_auto r.encode;
    when = filled_condition r.when;
  }

  -- The problems of a rule that has a name, apart from one above it.
  unfoldable pub rule_problems : ℕ → HeaderRule → List FileProblem
  rule_problems i r =
      let name = trim_space r.name in
      found_if (r.remove && is_some r.template) (remove_and_template i name)
      ++ (found_if (is_neg r.max_length) (negative_length i name)
          ++ (if has_agent r.when
              then agent_error i name (compile_pattern compile r.when.user_agent)
              else []))

  -- The loop over the rules, from index `i` on.
  unfoldable pub check_rules : ℕ → List (Bytes × ℕ) → List HeaderRule → Checked
  unfolding filled_rule rule_problems
  check_rules i shadowed [] = record { rules = []; problems = [] }
  check_rules i shadowed (r ∷ rs) =
      let name = trim_space r.name in
      let key = to_lower u name in
      let skipped = check_rules (suc i) shadowed rs in
      let rest = check_rules (suc i) (shadow key i r.when shadowed) rs in
      if is_empty name
      then onto_checked (record r { name = name }) (unnamed i ∷ []) skipped
      else onto_checked (filled_rule r)
          (dead_problem i name (lookup key shadowed) ++ rule_problems i r) rest

  module _ (itoa : ℕ → Bytes) (load_location : Bytes → Option Bytes) where
    unfoldable pub filled_datetime : DateTimeFormat → DateTimeFormat
    filled_datetime d = record {
      layout = or_default d.layout (codes "02.01.2006");
      time_layout = or_default d.time_layout (codes "15:04");
      timezone = zone_text d;
      never = or_default d.never infinity;
      location = some (zone_or_utc (load_location (zone_text d)));
    }

    unfoldable pub filled_file : File → File
    unfolding filled_traffic filled_datetime filled_bar check_rules
    filled_file f = record f {
      traffic = filled_traffic f.traffic;
      datetime = filled_datetime f.datetime;
      progress_bar = filled_bar f.progress_bar;
      template = record f.template { unknown = policy_or_keep f.template.unknown };
      headers = (check_rules 0 [] f.headers).rules;
    }

    unfoldable pub file_problems : File → List FileProblem
    unfolding traffic_problems width_problems pattern_problems agent_problems var_problems
        check_rules
    file_problems f =
        traffic_problems f.traffic
        ++ (zone_problem (zone_text f.datetime) (load_location (zone_text f.datetime))
            ++ (width_problems f.progress_bar
                ++ (pattern_problems bad_block (compile_block compile f.block)
                    ++ (pattern_problems bad_host (compile_hosts compile f.hosts)
                        ++ (agent_problems (compile_user_agents compile itoa f.user_agents)
                            ++ (var_problems f.vars ++ (check_rules 0 [] f.headers).problems))))))

    -- `validate`: the file as it is left, and the problems.
    unfoldable pub validate : File → File × List FileProblem
    unfolding filled_file file_problems
    validate f = (filled_file f, file_problems f)
