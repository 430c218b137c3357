-- ===== src/Proxy/Serve/Laws.antt =====
-- internal/proxy/proxy.go: which requests are forwarded, and with what.
use remnawave_subpage_proxy.Prelude.{
  ℕ, ◌≡◌, ◌≢◌, refl, sym, ap, ◌∙◌, inl, inr, Bool, true, false, [], Option, none, some, arith,
  Bool-cases, none_not_some,
}
use remnawave_subpage_proxy.Prelude.Text.{codes, is_empty}
use remnawave_subpage_proxy.Config.UserAgents.{CompiledUserAgentRule}
use remnawave_subpage_proxy.Rewrite.Header.{get}
use remnawave_subpage_proxy.Subcache.{Cache, key_of}
use remnawave_subpage_proxy.Proxy.Block.{blocked}
use remnawave_subpage_proxy.Proxy.Body.{Response}
use remnawave_subpage_proxy.Proxy.Route.{Route, parse_route}
use remnawave_subpage_proxy.Proxy.Outside.{Outside}
use remnawave_subpage_proxy.Proxy.UserAgent.{Answer}
use remnawave_subpage_proxy.Proxy.Stages.{RequestInfo, Proxy, modify_response}
use remnawave_subpage_proxy.Proxy.Stages.Laws.{modify_response_noticed}
use remnawave_subpage_proxy.Proxy.Serve.{
  Incoming, refused, answered, forwarded, blocks, request_key, request_info, template_request,
  served_with, notice_for, serve,
}

true_not_false : true ≢ false
true_not_false = cc

not_answered : {a : Answer} → {i : Option RequestInfo} → answered a ≢ forwarded i
not_answered = cc

not_refused : {i : Option RequestInfo} → refused ≢ forwarded i
not_refused = cc

not_bare : {i : RequestInfo} → forwarded none ≢ forwarded (some i)
not_bare = cc

module _ (o : Outside) (p : Proxy o) (r : Incoming) where
  abbrev pub route_of_request : Route
  route_of_request = parse_route o.readers.unicode r.path p.sub_prefix

  -- What holds of the info of a request that is forwarded.
  pub record IsInfo (info : RequestInfo) : Type 0 where
    pub free : blocked o.readers.unicode p.blocker r.path ≡ false
    pub named : info.rq.short_uuid ≡ route_of_request.short_uuid
    pub noticed :
        (rule : CompiledUserAgentRule)
        → info.notice ≡ some rule
        → (info.cache_key ≡ [])
          × (is_empty info.rq.short_uuid ≡ false)
          × (blocks rule.rule.action ≡ false)
    pub keyed :
        is_empty info.cache_key ≡ false
        → (info.notice ≡ none)
          × (p.caches ≡ true)
          × (is_empty info.rq.short_uuid ≡ false)
          × (info.cache_key
              ≡ key_of info.rq.short_uuid info.rq.client_type info.rq.user_agent
                  (get r.header (codes "Accept-Encoding")))

  key-plain :
      (noticed : Bool)
      → is_empty (request_key o p r route_of_request noticed) ≡ false
      → (noticed ≡ false)
        × (p.caches ≡ true)
        × (is_empty route_of_request.short_uuid ≡ false)
        × (request_key o p r route_of_request noticed
            ≡ key_of route_of_request.short_uuid route_of_request.client_type
                (get r.header (codes "User-Agent"))
                (get r.header (codes "Accept-Encoding")))
  unfolding request_key
  key-plain noticed h = ground arith

  key-noticed : request_key o p r route_of_request true ≡ []
  unfolding request_key
  key-noticed = ground arith

  plain-IsInfo :
      blocked o.readers.unicode p.blocker r.path ≡ false
      → IsInfo (request_info o p r route_of_request none)
  unfolding request_info template_request
  plain-IsInfo free = record {
    free = free;
    named = refl;
    noticed = λ rule h. absurd (none_not_some h);
    keyed = λ h. let (_, on, present, key) = key-plain false h in (refl, on, present, key);
  }

  noticed-IsInfo :
      (rule : CompiledUserAgentRule)
      → blocked o.readers.unicode p.blocker r.path ≡ false
      → is_empty route_of_request.short_uuid ≡ false
      → blocks rule.rule.action ≡ false
      → IsInfo (request_info o p r route_of_request (some rule))
  unfolding request_info template_request
  noticed-IsInfo rule free present kind = record {
    free = free;
    named = refl;
    noticed = λ other h.
        let same : rule ≡ other = cc in
        (key-noticed, present, sym (ap (λ t. blocks t.rule.action) same) ∙ kind);
    keyed = λ h. let (off, _, _, _) = key-plain true h in absurd (true_not_false off);
  }

  notice_for-names :
      (rule : CompiledUserAgentRule)
      → notice_for o p r route_of_request ≡ some rule
      → is_empty route_of_request.short_uuid ≡ false
  unfolding notice_for
  notice_for-names rule h = ground arith

  with-IsInfo :
      (rule : Option CompiledUserAgentRule) (info : RequestInfo)
      → blocked o.readers.unicode p.blocker r.path ≡ false
      → notice_for o p r route_of_request ≡ rule
      → served_with o p r route_of_request rule ≡ forwarded (some info)
      → IsInfo info
  with-IsInfo none info free picked h =
      let same : request_info o p r route_of_request none ≡ info = cc in
      rw (sym same) (plain-IsInfo free)
  with-IsInfo (some rule) info free picked h = elim (Bool-cases (blocks rule.rule.action)) [
    | inl on ↦ let other = rw on at h in absurd (not_answered other)
    | inr off ↦
        let forward : forwarded (some (request_info o p r route_of_request (some rule)))
            ≡ forwarded (some info) =
          rw off at h in
        let same : request_info o p r route_of_request (some rule) ≡ info = cc in
        rw (sym same) (noticed-IsInfo rule free (notice_for-names rule picked) off)
  ]

  -- A request that is forwarded with an info has a path that is not blocked, and the info names the
  -- subscription of the path. With a notice it has no key, it names a subscription, and the rule does
  -- not block. With a key it has no notice, there is a cache, it names a subscription, and the key is
  -- made of its short UUID, client type, User-Agent and accepted encodings.
  pub serve-IsInfo : (info : RequestInfo) → serve o p r ≡ forwarded (some info) → IsInfo info
  unfolding serve
  serve-IsInfo info h = elim (Bool-cases (blocked o.readers.unicode p.blocker r.path)) [
    | inl on ↦ let gone : refused ≡ forwarded (some info) = rw on at h in absurd (not_refused gone)
    | inr off ↦ elim (Bool-cases p.observes) [
      | inr blind ↦
          let bare : forwarded none ≡ forwarded (some info) = rw (off, blind) at h in
          absurd (not_bare bare)
      | inl sees ↦ with-IsInfo _ info off refl (rw (off, sees) at h)
    ]
  ]

  -- Serving a request with a notice, and handling the response to it, leaves the cache as it is,
  -- whatever the response.
  pub noticed_uncached :
      (info : RequestInfo) (rule : CompiledUserAgentRule) (now : ℕ) (c : Option Cache)
      (resp : Response)
      → serve o p r ≡ forwarded (some info)
      → info.notice ≡ some rule
      → (modify_response o now p (some info) c resp).cache ≡ c
  noticed_uncached info rule now c resp h on =
      let (bare, _, _) = (serve-IsInfo info h).noticed rule on in
      modify_response_noticed o p info now c resp rule on (ap is_empty bare)
