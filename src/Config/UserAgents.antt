-- ===== src/Config/UserAgents.antt =====
-- internal/config/useragents.go: the rules that catch a broken User-Agent.
use remnawave_subpage_proxy.Prelude.{
  ℕ, suc, Bool, true, false, List, [], ◌∷◌, ◌++◌, Option, if◌then◌else◌,
}
use remnawave_subpage_proxy.Prelude.Text.{Bytes, codes, trim_space, is_empty}
use remnawave_subpage_proxy.Config.Patterns.{Regexp, compiled, refused, compile_pattern, Problem}

-- `unset` is the empty string, which the compiler of the rules turns into `notice`.
pub data UserAgentAction : Type 0 where
  unset notice block : UserAgentAction

pub record UserAgentRule : Type 0 where
  pub name : Bytes
  pub pattern : Bytes
  pub action : UserAgentAction
  pub message : Bytes
  pub announce : Bool

pub record CompiledUserAgentRule : Type 0 where
  pub rule : UserAgentRule
  pub regexp : Regexp

abbrev pub default_action : UserAgentAction → UserAgentAction
default_action unset = notice
default_action notice = notice
default_action block = block

-- The compiled rules beside the indices of those that are disabled; or the problems.
pub data CompiledRules : Type 0 where
  rules : List CompiledUserAgentRule → List ℕ → CompiledRules
  refused_rules : List Problem → CompiledRules

-- `itoa` is `fmt.Sprintf("%d", i)`.
module _ (compile : Bytes → Option Regexp) (itoa : ℕ → Bytes) where
  -- The rule's own name, trimmed, or `rule-i`.
  unfoldable pub rule_name : ℕ → Bytes → Bytes
  rule_name i name =
      let trimmed = trim_space name in if is_empty trimmed then codes "rule-" ++ itoa i else trimmed

  unfoldable pub named_rule : ℕ → UserAgentRule → UserAgentRule
  unfolding rule_name
  named_rule i r = record r { name = rule_name i r.name; action = default_action r.action }

  -- The loop of `CompileUserAgents`, and the test behind it.
  unfoldable pub compile_rules :
      ℕ → List UserAgentRule → List CompiledUserAgentRule → List ℕ → List Problem → CompiledRules
  unfolding named_rule
  compile_rules i [] done off [] = rules done off
  compile_rules i [] done off (p ∷ ps) = refused_rules (p ∷ ps)
  compile_rules i (r ∷ rs) done off found = elim (compile_pattern compile r.pattern) [
    | refused e ↦ compile_rules (suc i) rs done off (found ++ (i, e) ∷ [])
    | compiled re ↦ elim (is_empty (trim_space r.message)) [
      | true ↦ compile_rules (suc i) rs done (off ++ i ∷ []) found
      | false ↦
          compile_rules (suc i) rs (done ++ record { rule = named_rule i r; regexp = re } ∷ []) off
            found
    ]
  ]

  unfoldable pub compile_user_agents : List UserAgentRule → CompiledRules
  unfolding compile_rules
  compile_user_agents rs = compile_rules 0 rs [] [] []
