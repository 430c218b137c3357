-- ===== src/Proxy/Serve.antt =====
-- internal/proxy/proxy.go and headercase.go: what the proxy does with a request, up to the forwarding by
-- net/http/httputil, and the names of the headers it sends.
pub mod Fields
pub mod Laws
pub mod Forward
pub mod Keys
use remnawave_subpage_proxy.Prelude.{
  ℕ, Bool, true, false, not, ◌&&◌, ◌||◌, List, [], ◌∷◌, ◌++◌, Option, none, some, is_some,
  if◌then◌else◌,
}
use remnawave_subpage_proxy.Prelude.Text.{
  Bytes, codes, bytes_eq, contains, is_empty, split, trim_space,
}
use remnawave_subpage_proxy.Prelude.Text.Case.{Unicode, to_lower}
use remnawave_subpage_proxy.Prelude.Assoc.{lookup, remove}
use remnawave_subpage_proxy.Config.UserAgents.{CompiledUserAgentRule, UserAgentAction}
use remnawave_subpage_proxy.RealIp.{client_ip}
use remnawave_subpage_proxy.Rewrite.Header.{Header, canonical, get, set, del}
use remnawave_subpage_proxy.Rewrite.Engine.{Request}
use remnawave_subpage_proxy.Subcache.{Cache, key_of}
use remnawave_subpage_proxy.Proxy.Block.{blocked}
use remnawave_subpage_proxy.Proxy.Route.{Route, parse_route}
use remnawave_subpage_proxy.Proxy.Outside.{Outside}
use remnawave_subpage_proxy.Proxy.UserAgent.{Answer, match_agent, write_block}
use remnawave_subpage_proxy.Proxy.Stages.{RequestInfo, Proxy, shuffles}

-- `http.Request`, as far as the proxy reads it. `over_tls` is whether `TLS` is set.
pub record Incoming : Type 0 where
  pub path : Bytes
  pub header : Header
  pub host : Bytes
  pub remote : Bytes
  pub over_tls : Bool

-- What `ServeHTTP` does: status 404, an answer of its own, or the forwarding, with the info that it
-- attaches to the request.
pub data Served : Type 0 where
  refused : Served
  answered : Answer → Served
  forwarded : Option RequestInfo → Served

-- The part before the first comma is the first part of a split.
abbrev pub head_part : List Bytes → Bytes
head_part [] = []
head_part (s ∷ _) = s

unfoldable pub first_list_value : Bytes → Bytes
first_list_value value = trim_space (head_part (split b',' value))

abbrev pub values_of : Option (List Bytes) → List Bytes
values_of none = []
values_of (some vs) = vs

abbrev pub or_else_text : Bytes → Bytes → Bytes
or_else_text s t = if is_empty s then t else s

abbrev pub blocks : UserAgentAction → Bool
blocks UserAgentAction.block = true
blocks UserAgentAction.notice = false
blocks UserAgentAction.unset = false

abbrev pub set_unless_empty : Header → Bytes → Bytes → Header
set_unless_empty h name value = if is_empty value then h else set h name value

-- The names that `net/http` looks up itself.
abbrev pub transport_headers : List Bytes
transport_headers =
    codes "Content-Length"
    ∷ codes "Content-Type"
    ∷ codes "Transfer-Encoding"
    ∷ codes "Connection"
    ∷ codes "Trailer"
    ∷ codes "Date"
    ∷ codes "Upgrade"
    ∷ []

-- One round of the loop of `lowercaseKeys`.
unfoldable pub lowercase_key : Unicode → Bytes → List Bytes → Header → Header
lowercase_key u key values h =
    let lower = to_lower u key in
    if contains transport_headers key
    then h
    else if bytes_eq lower key
    then h
    else (lower, values) ∷ remove lower (remove key h)

-- `lowercaseKeys`, of the headers in the order in which the loop visits them.
unfoldable pub lowercase_keys : Unicode → Header → Header → Header
unfolding lowercase_key
lowercase_keys u [] h = h
lowercase_keys u ((key, values) ∷ visits) h = lowercase_keys u visits (lowercase_key u key values h)

module _ (o : Outside) where
  -- `ClientIP` of a request.
  unfoldable pub request_ip : Proxy o → Incoming → Bytes
  request_ip p r =
      client_ip o.readers.unicode o.net p.real_ip r.remote
        (values_of (lookup (codes "X-Forwarded-For") r.header))

  unfoldable pub subscription_scheme : Proxy o → Incoming → Bytes
  unfolding first_list_value
  subscription_scheme p r =
      let scheme = first_list_value (get r.header (codes "X-Forwarded-Proto")) in
      if p.force_https
      then codes "https"
      else if is_empty scheme
      then (if r.over_tls then codes "https" else codes "http")
      else scheme

  unfoldable pub subscription_path : Bytes → Bytes → Bytes
  subscription_path prefix short_uuid =
      let path = codes "/" ++ o.writers.path_escape short_uuid in
      if is_empty prefix then path else codes "/" ++ (prefix ++ path)

  -- `subscriptionURL`
  unfoldable pub subscription_url : Proxy o → Incoming → Bytes → Bytes
  unfolding subscription_scheme subscription_path first_list_value
  subscription_url p r short_uuid =
      let host = or_else_text (first_list_value (get r.header (codes "X-Forwarded-Host"))) r.host in
      if is_empty short_uuid
      then []
      else if is_empty host
      then []
      else subscription_scheme p r
        ++ (codes "://" ++ (host ++ subscription_path p.sub_prefix short_uuid))

  unfoldable pub template_request : Proxy o → Incoming → Route → Bool → Request
  unfolding request_ip subscription_url
  template_request p r route full = record {
    short_uuid = route.short_uuid;
    client_type = route.client_type;
    user_agent = get r.header (codes "User-Agent");
    client_ip = if full then request_ip p r else [];
    subscription_url = if full then subscription_url p r route.short_uuid else [];
  }

  -- The key under which a response may be stored.
  unfoldable pub request_key : Proxy o → Incoming → Route → Bool → Bytes
  request_key p r route noticed =
      if p.caches && not (is_empty route.short_uuid) && not noticed
      then key_of route.short_uuid route.client_type (get r.header (codes "User-Agent"))
          (get r.header (codes "Accept-Encoding"))
      else []

  -- The info of a request that is forwarded.
  unfoldable pub request_info :
      Proxy o → Incoming → Route → Option CompiledUserAgentRule → RequestInfo
  unfolding template_request request_key
  request_info p r route rule = record {
    rq = template_request p r route (p.rewrites || is_some rule);
    cache_key = request_key p r route (is_some rule);
    notice = rule;
  }

  abbrev pub served_with : Proxy o → Incoming → Route → Option CompiledUserAgentRule → Served
  served_with p r route none = forwarded (some (request_info p r route none))
  served_with p r route (some rule) =
      if blocks rule.rule.action
      then answered (write_block o p.engine (template_request p r route true) rule)
      else forwarded (some (request_info p r route (some rule)))

  -- The rule for the User-Agent of a path that names a subscription.
  unfoldable pub notice_for : Proxy o → Incoming → Route → Option CompiledUserAgentRule
  notice_for p r route =
      if is_empty route.short_uuid
      then none
      else match_agent p.user_agents (get r.header (codes "User-Agent"))

  -- `ServeHTTP`
  unfoldable pub serve : Proxy o → Incoming → Served
  unfolding notice_for request_info
  serve p r =
      let route = parse_route o.readers.unicode r.path p.sub_prefix in
      let known = served_with p r route (notice_for p r route) in
      if blocked o.readers.unicode p.blocker r.path
      then refused
      else if p.observes
      then known
      else forwarded none

  unfoldable pub forwarded_proto : Proxy o → Incoming → Bytes
  forwarded_proto p r =
      let proto = get r.header (codes "X-Forwarded-Proto") in
      if p.force_https
      then codes "https"
      else if is_empty proto
      then (if r.over_tls then codes "https" else codes "http")
      else proto

  -- `forwardHeaders`, of the header that goes out.
  unfoldable pub forward_headers : Proxy o → Incoming → Header → Header
  unfolding request_ip forwarded_proto
  forward_headers p r h =
      let with_client = set_unless_empty h (codes "X-Forwarded-For") (request_ip p r) in
      let with_proto = set with_client (codes "X-Forwarded-Proto") (forwarded_proto p r) in
      set_unless_empty with_proto (codes "X-Forwarded-Host")
        (or_else_text (get r.header (codes "X-Forwarded-Host")) r.host)

  abbrev pub wants_plain : Proxy o → Option RequestInfo → Bool
  wants_plain p none = false
  wants_plain p (some info) = shuffles o p info || is_some info.notice

  -- What the hook `Rewrite` makes of the header that goes out.
  unfoldable pub rewrite_hook : Proxy o → Incoming → Option RequestInfo → Header → Header
  unfolding forward_headers
  rewrite_hook p r info h =
      let out = forward_headers p r h in
      if wants_plain p info then del out (codes "Accept-Encoding") else out
