-- ===== src/Start/Laws.antt =====
-- cmd/subpage-proxy/main.go: a configuration that loads starts the program.
use remnawave_subpage_proxy.Prelude.{ℕ, ◌≡◌, refl, ap, ◌∙◌, inl, inr, List, []}
use remnawave_subpage_proxy.Prelude.Text.Case.{Unicode}
use remnawave_subpage_proxy.Config.Patterns.{
  Regexp, all_compiled, compile_block, compile_hosts, compile_patterns, compile_from,
}
use remnawave_subpage_proxy.Config.UserAgents.{
  CompiledUserAgentRule, rules, compile_user_agents, compile_rules,
}
use remnawave_subpage_proxy.Config.File.{File, default_file}
use remnawave_subpage_proxy.Config.Validate.Laws.{AllCompiled, AllRules}
use remnawave_subpage_proxy.Config.Files
use remnawave_subpage_proxy.Config.Files.Laws.{IsFile}
use remnawave_subpage_proxy.Config.Load.{Config, configured, load}
use remnawave_subpage_proxy.Config.Load.Laws.{load-IsReady}
use remnawave_subpage_proxy.RealIp
use remnawave_subpage_proxy.RealIp.{Resolver, Parsed}
use remnawave_subpage_proxy.Rewrite.Engine.{Fetcher}
use remnawave_subpage_proxy.Proxy.Block.{Blocker, NewBlocker, new_blocker}
use remnawave_subpage_proxy.Proxy.Outside.{Outside}
use remnawave_subpage_proxy.Proxy.UserAgent.{NewFilter, new_filter}
use remnawave_subpage_proxy.Proxy.Stages.{Proxy}
use remnawave_subpage_proxy.Start.{
  made, with_agents, with_hosts, with_blocker, with_resolver, new_sub_cache, new_handler,
}

module _ (e : Files.Outside) (o : Outside) where
  -- What the start compiles of a file.
  pub record IsCompiled (f : File) : Type 0 where
    block : AllCompiled (compile_block e.compile f.block)
    hosts : AllCompiled (compile_hosts e.compile f.hosts)
    agents : AllRules (compile_user_agents e.compile e.itoa f.user_agents)

  default-IsCompiled : IsCompiled default_file
  unfolding compile_block compile_hosts compile_patterns compile_from compile_user_agents
      compile_rules
  default-IsCompiled = record { block = ([], refl); hosts = ([], refl); agents = ([], ([], refl)) }

  file-IsCompiled : (u : Unicode) (f : File) → IsFile u e f → IsCompiled f
  file-IsCompiled u f (inl same) = rw same default-IsCompiled
  file-IsCompiled u f (inr (g, sound)) = record {
    block = sound.block;
    hosts = sound.hosts;
    agents = sound.agents;
  }

  module _ (swaps : ℕ → ℕ → List (ℕ × ℕ)) (panel : Fetcher) (c : Config) where
    blocker_made :
        (patterns : List Regexp)
        → compile_block e.compile c.file.block ≡ all_compiled patterns
        → new_blocker e.compile c.file.block c.settings.upstream.sub_prefix
          ≡ NewBlocker.made (record {
            enabled = c.file.block.enabled;
            prefix = c.settings.upstream.sub_prefix;
            patterns = patterns;
          })
    unfolding new_blocker
    blocker_made patterns h = rw (h, new_blocker) refl

    filter_made :
        (rs : List CompiledUserAgentRule) (off : List ℕ)
        → compile_user_agents e.compile e.itoa c.file.user_agents ≡ rules rs off
        → new_filter e.compile e.itoa c.file.user_agents
          ≡ NewFilter.made (record { rules = rs; disabled = off })
    unfolding new_filter
    filter_made rs off h = rw (h, new_filter) refl

    compiled_starts :
        (r : Resolver o.readers.unicode o.net)
        → IsCompiled c.file
        → (p : Proxy o) × (with_resolver o e.compile e.itoa swaps panel c (Parsed.made r)
            ≡ made p (new_sub_cache c.settings.sub_cache))
    compiled_starts r ready =
        let (patterns, block) = ready.block in
        let (groups, hosts) = ready.hosts in
        let (rs, (off, agents)) = ready.agents in
        let b : Blocker = record {
          enabled = c.file.block.enabled;
          prefix = c.settings.upstream.sub_prefix;
          patterns = patterns;
        } in
        (
          _,
          ap (with_blocker o e.compile e.itoa swaps panel c r) (blocker_made patterns block)
              ∙ ap (with_hosts o e.compile e.itoa swaps panel c r b) hosts
              ∙ ap (with_agents o e.compile e.itoa swaps panel c r b groups)
                  (filter_made rs off agents),
        )

    -- A program whose configuration loads, and whose list of trusted proxies can be read, starts with a
    -- proxy: neither the patterns of the file nor its rules for user agents can be refused behind the
    -- validation.
    pub load_starts :
        (u : Unicode) (r : Resolver o.readers.unicode o.net)
        → load u e ≡ configured c
        → RealIp.parse o.readers.unicode o.net c.settings.upstream.trust_proxy ≡ Parsed.made r
        → (p : Proxy o) × (new_handler o e.compile e.itoa swaps panel c
            ≡ made p (new_sub_cache c.settings.sub_cache))
    unfolding new_handler
    load_starts u r loads trusted =
        rw trusted (compiled_starts r (file-IsCompiled u c.file (load-IsReady u e c loads).file))
