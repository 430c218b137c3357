-- ===== src/Start.antt =====
-- cmd/subpage-proxy/main.go: how the parts are put together, and the probes of the program's health.
pub mod Laws
use remnawave_subpage_proxy.Prelude.{
  ℕ, Bool, true, false, not, List, [], ◌∷◌, ◌++◌, Option, none, some, ◌==◌, if◌then◌else◌,
}
use remnawave_subpage_proxy.Prelude.Int.{ℤ, pos_part}
use remnawave_subpage_proxy.Prelude.Text.{Bytes, codes, bytes_eq, is_empty}
use remnawave_subpage_proxy.Config.Patterns.{
  Regexp, Problem, Patterns, all_compiled, problems, compile_hosts,
}
use remnawave_subpage_proxy.Config.Settings.{Settings, SubCache}
use remnawave_subpage_proxy.Config.Load.{Config}
use remnawave_subpage_proxy.Hosts.Shuffle.{Shuffler}
use remnawave_subpage_proxy.RealIp
use remnawave_subpage_proxy.RealIp.{Resolver, Parsed}
use remnawave_subpage_proxy.Rewrite.Engine
use remnawave_subpage_proxy.Rewrite.Engine.{Fetcher}
use remnawave_subpage_proxy.Subcache
use remnawave_subpage_proxy.Proxy.Block.{Blocker, NewBlocker, new_blocker}
use remnawave_subpage_proxy.Proxy.Outside.{Outside}
use remnawave_subpage_proxy.Proxy.UserAgent.{UserAgentFilter, NewFilter, new_filter}
use remnawave_subpage_proxy.Proxy.Stages.{Proxy, new_proxy}

-- The fallback cache that the settings ask for; a duration and a size are not negative there.
unfoldable pub new_sub_cache : SubCache → Option Subcache.Cache
new_sub_cache c =
    if c.enabled
    then some (Subcache.new (pos_part c.ttl) (pos_part c.max_bytes) (pos_part c.max_body))
    else none

-- `newFetcher`; `panel` is the cached client.
unfoldable pub new_fetcher : Config → Fetcher → Option Fetcher
new_fetcher c panel = if c.settings.panel.enabled then some panel else none

abbrev pub text_of : Option Bytes → Bytes
text_of none = []
text_of (some s) = s

-- `runHealthcheck`: the exit code, where `ask` gives the status of an answer to a URL.
unfoldable pub run_healthcheck : Option Bytes → (Bytes → Option ℕ) → ℕ
run_healthcheck variable ask =
    let given = text_of variable in
    let port = if is_empty given then codes "3021" else given in
    if bytes_eq port (codes "0")
    then 0
    else elim (ask (codes "http://127.0.0.1:" ++ (port ++ codes "/healthz"))) [
      | none ↦ 1
      | some status ↦ if status == 200 then 0 else 1
    ]

-- The address that `/readyz` dials: `has_port` is whether `net.SplitHostPort` succeeds, `join` is
-- `net.JoinHostPort`.
unfoldable pub ready_target : (Bytes → Bool) → (Bytes → Bytes → Bytes) → Bytes → Bytes
ready_target has_port join host = if has_port host then host else join host (codes "80")

module _ (o : Outside) where
  -- What `newHandler` returns: the proxy beside its cache, or the part that refuses its settings.
  pub data NewHandler : Type 0 where
    made : Proxy o → Option Subcache.Cache → NewHandler
    bad_trust_proxy : NewHandler
    bad_block : List Problem → NewHandler
    bad_hosts : List Problem → NewHandler
    bad_user_agents : List Problem → NewHandler

  module _ (compile : Bytes → Option Regexp) (itoa : ℕ → Bytes) (swaps : ℕ → ℕ → List (ℕ × ℕ))
      (panel : Fetcher) (c : Config) where
    abbrev pub engine_of : Engine.Engine
    engine_of =
        Engine.new c.file (new_fetcher c panel) c.settings.panel.always_fetch
          c.settings.panel.forward_real_ip

    abbrev pub handler_of :
        Resolver o.readers.unicode o.net → Blocker → List Regexp → UserAgentFilter → NewHandler
    handler_of real_ip blocker groups user_agents =
        made
          (new_proxy o (some blocker) c.settings.upstream.sub_prefix real_ip
            (some (record { groups = groups; swaps = swaps })) (some user_agents) (some engine_of)
            c.settings.upstream.force_https c.settings.sub_cache.enabled)
          (new_sub_cache c.settings.sub_cache)

    abbrev pub with_agents :
        Resolver o.readers.unicode o.net → Blocker → List Regexp → NewFilter → NewHandler
    with_agents real_ip blocker groups (NewFilter.made f) = handler_of real_ip blocker groups f
    with_agents real_ip blocker groups (NewFilter.refused ps) = bad_user_agents ps

    abbrev pub with_hosts :
        Resolver o.readers.unicode o.net → Blocker → Patterns Regexp → NewHandler
    with_hosts real_ip blocker (all_compiled groups) =
        with_agents real_ip blocker groups (new_filter compile itoa c.file.user_agents)
    with_hosts real_ip blocker (problems ps) = bad_hosts ps

    abbrev pub with_blocker : Resolver o.readers.unicode o.net → NewBlocker → NewHandler
    with_blocker real_ip (NewBlocker.made b) =
        with_hosts real_ip b (compile_hosts compile c.file.hosts)
    with_blocker real_ip (NewBlocker.refused ps) = bad_block ps

    abbrev pub with_resolver : Parsed o.readers.unicode o.net → NewHandler
    with_resolver (Parsed.made r) =
        with_blocker r (new_blocker compile c.file.block c.settings.upstream.sub_prefix)
    with_resolver (Parsed.bad_hops n) = bad_trust_proxy
    with_resolver (Parsed.bad_entry s) = bad_trust_proxy
    with_resolver Parsed.no_networks = bad_trust_proxy

    -- `newHandler`
    unfoldable pub new_handler : NewHandler
    unfolding new_sub_cache new_fetcher
    new_handler =
        with_resolver (RealIp.parse o.readers.unicode o.net c.settings.upstream.trust_proxy)
