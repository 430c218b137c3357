-- ===== src/Config/Validate/Laws.antt =====
-- internal/config/file.go: what a validated file is.
use remnawave_subpage_proxy.Prelude.{
  ℕ, cons_not_nil, Bool-cases, suc, ◌≤◌, ◌≡◌, ◌≢◌, ◌⊎◌, refl, inl, inr, true, false, not, ◌&&◌,
  List, [], ◌∷◌, ◌++◌, Option, none, some, ltb, ◌==◌, length, arith, All,
}
use remnawave_subpage_proxy.Prelude.Text.{is_empty, trim_space, Bytes}
use remnawave_subpage_proxy.Prelude.Text.Case.{Unicode}
use remnawave_subpage_proxy.Config.Patterns.{
  Regexp, Patterns, all_compiled, problems, PatternError, Problem, compile_block, compile_hosts,
  compile_from, compile_patterns, compile_pattern, Compiled,
}
use remnawave_subpage_proxy.Config.UserAgents.{
  UserAgentRule, CompiledUserAgentRule, CompiledRules, rules, refused_rules, compile_user_agents,
  compile_rules, named_rule,
}
use remnawave_subpage_proxy.Config.File.{File, valid_var_name}
use remnawave_subpage_proxy.Config.Validate.{
  FileProblem, bad_decimals, bad_var, bad_block, bad_host, found_if, outside, traffic_problems,
  width_problems, pattern_problems, agent_problems, var_problems, zone_text, zone_problem,
  zone_or_utc, filled_file, filled_traffic, filled_bar, filled_datetime, file_problems, validate,
}
use remnawave_subpage_proxy.Config.Validate.Rules.{
  append-nothing, not_found, IsWithin, inside, IsRule, AllReachable, rules-AreRules,
  rules-AllReachable,
}

enough_units : (n : ℕ) → not (n == 0) && ltb n 5 ≡ false → (n ≡ 0) ⊎ (5 ≤ n)
enough_units n h = ground arith

vars_valid :
    (vars : List (Bytes × Bytes))
    → var_problems vars ≡ []
    → All (λ (v : Bytes × Bytes). valid_var_name v.0 ≡ true) vars
unfolding var_problems
vars_valid [] h = tt
vars_valid ((name, v) ∷ vars) h =
    let (here, rest) = append-nothing (found_if (not (valid_var_name name)) (bad_var name)) _ h in
    let ok = not_found (not (valid_var_name name)) _ here in
    (ground (arith, ok), vars_valid vars rest)

-- The patterns that a list of patterns compiles to.
abbrev pub AllCompiled : Patterns Regexp → Type 0
AllCompiled p = (rs : List Regexp) × (p ≡ all_compiled rs)

Compiled-cases :
    (c : Compiled Regexp)
    → ((e : PatternError) × (c ≡ Compiled.refused e)) ⊎ ((re : Regexp) × (c ≡ Compiled.compiled re))
Compiled-cases (Compiled.refused e) = inl (e, refl)
Compiled-cases (Compiled.compiled re) = inr (re, refl)

-- A refusal names a problem.
compile_from_refused :
    (compile : Bytes → Option Regexp) (i : ℕ) (ps : List Bytes) (done : List Regexp)
    (bad : List Problem)
    → compile_from compile i ps done bad ≢ problems []
unfolding compile_from
compile_from_refused compile i [] done [] = cc
compile_from_refused compile i [] done (e ∷ es) = cc
compile_from_refused compile i (p ∷ ps) done bad =
    elim (Compiled-cases (compile_pattern compile p)) [
      | inl (e, off) ↦
          rw (off, compile_from) (compile_from_refused compile (suc i) ps done (bad ++ (i, e) ∷ []))
      | inr (re, on) ↦
          rw (on, compile_from) (compile_from_refused compile (suc i) ps (done ++ re ∷ []) bad)
    ]

no_pattern_problems :
    (say : Problem → FileProblem) (p : Patterns Regexp)
    → p ≢ problems []
    → pattern_problems say p ≡ []
    → AllCompiled p
unfolding pattern_problems
no_pattern_problems say (all_compiled rs) named h = (rs, refl)
no_pattern_problems say (problems []) named h = absurd (named refl)
no_pattern_problems say (problems (e ∷ es)) named h = absurd (cons_not_nil h)

patterns-AllCompiled :
    (compile : Bytes → Option Regexp) (say : Problem → FileProblem) (ps : List Bytes)
    → pattern_problems say (compile_patterns compile ps) ≡ []
    → AllCompiled (compile_patterns compile ps)
unfolding compile_patterns
patterns-AllCompiled compile say ps h =
    no_pattern_problems say (compile_from compile 0 ps [] [])
      (compile_from_refused compile 0 ps [] []) h

-- The rules that a list of user-agent rules compiles to.
abbrev pub AllRules : CompiledRules → Type 0
AllRules c = (rs : List CompiledUserAgentRule) × ((off : List ℕ) × (c ≡ rules rs off))

compile_rules_refused :
    (compile : Bytes → Option Regexp) (itoa : ℕ → Bytes) (i : ℕ) (rs : List UserAgentRule)
    (done : List CompiledUserAgentRule) (off : List ℕ) (bad : List Problem)
    → compile_rules compile itoa i rs done off bad ≢ refused_rules []
unfolding compile_rules
compile_rules_refused compile itoa i [] done off [] = cc
compile_rules_refused compile itoa i [] done off (e ∷ es) = cc
compile_rules_refused compile itoa i (r ∷ rs) done off bad =
    elim (Compiled-cases (compile_pattern compile r.pattern)) [
      | inl (e, refused) ↦
          rw (refused, compile_rules)
            (compile_rules_refused compile itoa (suc i) rs done off (bad ++ (i, e) ∷ []))
      | inr (re, ok) ↦ elim (Bool-cases (is_empty (trim_space r.message))) [
        | inl silent ↦
            rw (ok, silent, compile_rules)
              (compile_rules_refused compile itoa (suc i) rs done (off ++ i ∷ []) bad)
        | inr spoken ↦
            rw (ok, spoken, compile_rules)
              (compile_rules_refused compile itoa (suc i) rs
                (done ++ record { rule = named_rule compile itoa i r; regexp = re } ∷ []) off bad)
      ]
    ]

no_agent_problems : (c : CompiledRules) → c ≢ refused_rules [] → agent_problems c ≡ [] → AllRules c
unfolding agent_problems
no_agent_problems (rules rs off) named h = (rs, (off, refl))
no_agent_problems (refused_rules []) named h = absurd (named refl)
no_agent_problems (refused_rules (e ∷ es)) named h = absurd (cons_not_nil h)

agents-AllRules :
    (compile : Bytes → Option Regexp) (itoa : ℕ → Bytes) (rs : List UserAgentRule)
    → agent_problems (compile_user_agents compile itoa rs) ≡ []
    → AllRules (compile_user_agents compile itoa rs)
unfolding compile_user_agents
agents-AllRules compile itoa rs h =
    no_agent_problems (compile_rules compile itoa 0 rs [] [] [])
      (compile_rules_refused compile itoa 0 rs [] [] []) h

zone_found : (name : Bytes) (z : Option Bytes) → zone_problem name z ≡ [] → z ≡ some (zone_or_utc z)
zone_found name none h = absurd (cons_not_nil h)
zone_found name (some zone) h = refl

module _ (u : Unicode) (compile : Bytes → Option Regexp) (itoa : ℕ → Bytes)
    (load_location : Bytes → Option Bytes) where
  -- What a file is that has no problem.
  pub record IsSound (f g : File) : Type 0 where
    pub decimals : IsWithin g.traffic.decimals 6
    pub units : (length g.traffic.units ≡ 0) ⊎ (5 ≤ length g.traffic.units)
    pub width : IsWithin g.progress_bar.width 100
    pub zone : load_location (zone_text f.datetime) ≡ g.datetime.location
    pub block : AllCompiled (compile_block compile g.block)
    pub hosts : AllCompiled (compile_hosts compile g.hosts)
    pub agents : AllRules (compile_user_agents compile itoa g.user_agents)
    pub vars : All (λ (v : Bytes × Bytes). valid_var_name v.0 ≡ true) g.vars
    pub rules : All (IsRule u compile) g.headers
    pub reachable : AllReachable u compile g.headers

  -- A file that is validated without a problem is sound: its numbers are in their ranges, its time zone is
  -- loaded, its patterns and its rules for user agents compile and its variables have valid names; every header rule has a name, does
  -- not both remove and set, has no negative length, and has its condition on the user agent compiled;
  -- and no rule stands below one for the same header without a condition.
  pub validate-IsSound :
      (f : File)
      → (validate u compile itoa load_location f).1 ≡ []
      → IsSound f (validate u compile itoa load_location f).0
  unfolding validate filled_file file_problems traffic_problems width_problems filled_traffic
      filled_bar filled_datetime compile_block compile_hosts
  validate-IsSound f h =
      let (traffic, h1) = append-nothing (traffic_problems f.traffic) _ h in
      let (zone, h2) =
        append-nothing (zone_problem (zone_text f.datetime) (load_location (zone_text f.datetime)))
          _ h1 in
      let (bar, h3) = append-nothing (width_problems f.progress_bar) _ h2 in
      let (block, h4) =
        append-nothing (pattern_problems bad_block (compile_block compile f.block)) _ h3 in
      let (hosts, h5) =
        append-nothing (pattern_problems bad_host (compile_hosts compile f.hosts)) _ h4 in
      let (agents, h6) =
        append-nothing (agent_problems (compile_user_agents compile itoa f.user_agents)) _ h5 in
      let (vars, headers) = append-nothing (var_problems f.vars) _ h6 in
      let (decimals, units) =
        append-nothing (found_if (outside f.traffic.decimals 6) (bad_decimals f.traffic.decimals)) _
          traffic in
      record {
        decimals = inside f.traffic.decimals 6 (not_found _ _ decimals);
        units = enough_units (length f.traffic.units) (not_found _ _ units);
        width = inside f.progress_bar.width 100 (not_found _ _ bar);
        zone = zone_found (zone_text f.datetime) (load_location (zone_text f.datetime)) zone;
        block = patterns-AllCompiled compile bad_block f.block.patterns block;
        hosts = patterns-AllCompiled compile bad_host f.hosts.shuffle hosts;
        agents = agents-AllRules compile itoa f.user_agents agents;
        vars = vars_valid f.vars vars;
        rules = rules-AreRules u compile 0 [] f.headers headers;
        reachable = rules-AllReachable u compile 0 [] f.headers headers;
      }
