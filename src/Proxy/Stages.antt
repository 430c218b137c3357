-- ===== src/Proxy/Stages.antt =====
-- internal/proxy: what happens to a response. The hook `ModifyResponse` of proxy.go, with the stages
-- of cache.go and shuffle.go, and the handler of an upstream that cannot be reached. The fallback cache
-- is state that each stage hands on; a nil cache is `none`. The clock is an argument.
pub mod Laws
pub mod Replay
use remnawave_subpage_proxy.Prelude.{
  ℕ, Bool, true, false, not, ◌&&◌, ◌||◌, List, [], ◌∷◌, Option, none, some, is_some, ltb,
  if◌then◌else◌, map,
}
use remnawave_subpage_proxy.Prelude.Text.{Bytes, codes, is_empty}
use remnawave_subpage_proxy.Prelude.Assoc.{remove}
use remnawave_subpage_proxy.Config.UserAgents.{CompiledUserAgentRule}
use remnawave_subpage_proxy.Hosts.Shuffle.{Shuffler, shuffles_any}
use remnawave_subpage_proxy.Hosts.Apply
use remnawave_subpage_proxy.RealIp.{Resolver}
use remnawave_subpage_proxy.Rewrite.Header.{Header}
use remnawave_subpage_proxy.Rewrite.Engine
use remnawave_subpage_proxy.Rewrite.Engine.{Request}
use remnawave_subpage_proxy.Rewrite.Engine.Loop
use remnawave_subpage_proxy.Subcache
use remnawave_subpage_proxy.Subcache.{Entry, Entries, Cache}
use remnawave_subpage_proxy.Proxy.Block.{Blocker}
use remnawave_subpage_proxy.Proxy.Body.{
  Body, no_body, Response, drain_body, rewritable, is_compressed, set_body,
}
use remnawave_subpage_proxy.Proxy.Outside.{Outside}
use remnawave_subpage_proxy.Proxy.UserAgent.{
  UserAgentFilter, filters_any, Answer, max_shuffle_body, notice_message, apply_notice, write_body,
}

-- `requestInfo`
pub record RequestInfo : Type 0 where
  pub rq : Request
  pub cache_key : Bytes
  pub notice : Option CompiledUserAgentRule

-- A response beside the fallback cache.
pub record Staged : Type 0 where
  pub cache : Option Cache
  pub resp : Response

-- What `handleError` does: nothing for a request that was cancelled, an answer from the cache, a dropped
-- connection, or status 502.
pub data Handled : Type 0 where
  ignored : Handled
  replayed : Answer → Handled
  dropped : Handled
  bad_gateway : Handled

abbrev pub texts_of : Option Bytes → Bytes
texts_of none = []
texts_of (some b) = b

module _ (o : Outside) where
  pub record Proxy : Type 0 where
    pub blocker : Option Blocker
    pub sub_prefix : Bytes
    pub real_ip : Resolver o.readers.unicode o.net
    pub shuffler : Option Shuffler
    pub user_agents : Option UserAgentFilter
    pub engine : Option Engine.Engine
    pub force_https : Bool
    pub caches : Bool
    pub rewrites : Bool
    pub observes : Bool

  abbrev pub enabled_engine : Option Engine.Engine → Bool
  enabled_engine none = false
  enabled_engine (some e) = Engine.enabled e

  -- `New`, apart from the transport.
  unfoldable pub new_proxy :
      Option Blocker
      → Bytes
      → Resolver o.readers.unicode o.net
      → Option Shuffler
      → Option UserAgentFilter
      → Option Engine.Engine
      → Bool
      → Bool
      → Proxy
  new_proxy blocker sub_prefix real_ip shuffler user_agents engine force_https caches = record {
    blocker = blocker;
    sub_prefix = sub_prefix;
    real_ip = real_ip;
    shuffler = shuffler;
    user_agents = user_agents;
    engine = engine;
    force_https = force_https;
    caches = caches;
    rewrites = enabled_engine engine;
    observes = enabled_engine engine || caches || shuffles_any shuffler || filters_any user_agents;
  }

  -- `cached`
  unfoldable pub cached_entry : ℕ → Option Cache → RequestInfo → Option Entry × Option Cache
  cached_entry now none info = (none, none)
  cached_entry now (some c) info =
      let (found, c') = Subcache.get now info.cache_key c in
      if is_empty info.cache_key then (none, some c) else (found, some c')

  unfoldable pub shuffles : Proxy → RequestInfo → Bool
  shuffles p info = shuffles_any p.shuffler && not (is_empty info.rq.short_uuid)

  abbrev pub shuffled_to : Response → Option Bytes → Bytes × Bool → Response
  shuffled_to resp none out = resp
  shuffled_to resp (some b) (out, changed) = if changed then set_body o.itoa out resp else resp

  abbrev pub shuffled : Proxy → Response → Option Bytes × Body → Response
  shuffled p resp (b, left) =
      shuffled_to (record resp { body = left }) b (Apply.apply o.readers p.shuffler (texts_of b))

  -- `shuffle`
  unfoldable pub shuffle : Proxy → RequestInfo → Response → Response
  unfolding shuffles
  shuffle p info resp =
      if not (shuffles p info) || not (rewritable o.readers.unicode resp)
      then resp
      else if is_compressed o.readers.unicode resp.header
      then resp
      else shuffled p resp (drain_body max_shuffle_body resp.body)

  -- `replaceWithCache` behind the lookup. A replayed response has the status, the header and the body of
  -- the entry.
  abbrev pub replaced_by : Response → Entry → Response
  replaced_by resp e = set_body o.itoa e.body (record resp { status = e.status; header = e.header })

  -- `replaceWithCache`: the response, where it was replaced, beside the cache.
  unfoldable pub replace_with_cache :
      ℕ → RequestInfo → Option Cache → Response → Option Response × Option Cache
  unfolding cached_entry
  replace_with_cache now info c resp =
      let (found, c') = cached_entry now c info in
      if ltb resp.status 500
      then (none, c)
      else elim found [ none ↦ (none, c') | some e ↦ (some (replaced_by resp e), c') ]

  -- `store` behind the reading of the body.
  abbrev pub stored_entry : ℕ → RequestInfo → Cache → Response → Option Bytes × Body → Staged
  stored_entry now info c resp (none, left) = record {
    cache = some c;
    resp = record resp { body = left };
  }
  stored_entry now info c resp (some b, left) = record {
    cache = some (
        Subcache.put o.order_entries now info.cache_key
          (some (record { status = resp.status; header = resp.header; body = b; stored_at = 0 }))
          c);
    resp = record resp { body = left };
  }

  -- `store`
  unfoldable pub store_response : ℕ → RequestInfo → Option Cache → Response → Staged
  store_response now info none resp = record { cache = none; resp = resp }
  store_response now info (some c) resp =
      if is_empty info.cache_key || not (rewritable o.readers.unicode resp)
      then record { cache = some c; resp = resp }
      else stored_entry now info c resp (drain_body c.max_body resp.body)

  abbrev pub applied_to : Option Engine.Engine → Request → Header → Header
  applied_to none rq h = h
  applied_to (some e) rq h =
      (Loop.apply o.readers.unicode o.readers.base64 o.platform o.order e rq h).header

  unfoldable pub rewritten : Proxy → RequestInfo → Response → Response
  rewritten p info resp =
      if p.rewrites then record resp { header = applied_to p.engine info.rq resp.header } else resp

  -- `ModifyResponse` for a response that was not replaced. The message is rendered from the header as it
  -- came.
  unfoldable pub modify_fresh : ℕ → Proxy → RequestInfo → Option Cache → Response → Staged
  unfolding shuffle store_response rewritten
  modify_fresh now p info c resp = elim info.notice [
    | some rule ↦
        let message = notice_message o p.engine resp.header info.rq rule in
        record { cache = c; resp = apply_notice o (rewritten p info resp) info.rq rule message }
    | none ↦ store_response now info c (shuffle p info (rewritten p info resp))
  ]

  abbrev pub modified : ℕ → Proxy → RequestInfo → Response → Option Response × Option Cache → Staged
  modified now p info resp (none, c) = modify_fresh now p info c resp
  modified now p info resp (some r, c) = record { cache = c; resp = shuffle p info r }

  -- `ModifyResponse`; a request without an info is `none`.
  unfoldable pub modify_response : ℕ → Proxy → Option RequestInfo → Option Cache → Response → Staged
  unfolding replace_with_cache modify_fresh
  modify_response now p none c resp = record { cache = c; resp = resp }
  modify_response now p (some info) c resp =
      modified now p info resp (replace_with_cache now info c resp)

  -- `header[key] = values` for each header of an entry.
  unfoldable pub copy_header : Header → Header → Header
  copy_header [] h = h
  copy_header ((k, vs) ∷ rest) h = copy_header rest ((k, vs) ∷ remove k h)

  -- `writeFromCache` behind the lookup, onto a header that may already hold fields.
  unfoldable pub replay : Proxy → RequestInfo → Header → Entry → Answer
  unfolding copy_header shuffles
  replay p info h e =
      let header = copy_header e.header h in
      let moved = (Apply.apply o.readers p.shuffler e.body).0 in
      write_body o header e.status
        (if shuffles p info && not (is_compressed o.readers.unicode header) then moved else e.body)

  abbrev pub dropped_or_not : Bool → Handled
  dropped_or_not true = dropped
  dropped_or_not false = bad_gateway

  abbrev pub replayed_or :
      Handled → Proxy → RequestInfo → Header → Option Entry × Option Cache → Handled × Option Cache
  replayed_or other p info h (none, c) = (other, c)
  replayed_or other p info h (some e, c) = (replayed (replay p info h e), c)

  -- `handleError`: whether the request was cancelled, and whether the connection can be taken over.
  unfoldable pub handle_error :
      ℕ → Proxy → Option RequestInfo → Option Cache → Header → Bool → Bool → Handled × Option Cache
  unfolding replay cached_entry
  handle_error now p info c h cancelled hijacks = elim cancelled [
    | true ↦ (ignored, c)
    | false ↦ elim info [
      | none ↦ (dropped_or_not hijacks, c)
      | some i ↦ replayed_or (dropped_or_not hijacks) p i h (cached_entry now c i)
    ]
  ]
