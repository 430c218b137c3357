-- ===== src/Proxy/Serve/Forward.antt =====
-- internal/proxy/proxy.go: the headers of a request that goes to the upstream.
use remnawave_subpage_proxy.Prelude.{
  ◌≡◌, refl, sym, ap, ◌∙◌, inl, inr, true, false, List, [], ◌++◌, Option, none, some, Bool-cases,
  arith,
}
use remnawave_subpage_proxy.Prelude.Text.{Bytes, codes, bytes_eq, is_empty}
use remnawave_subpage_proxy.Prelude.Assoc.{lookup, IsMap}
use remnawave_subpage_proxy.Config.UserAgents.{CompiledUserAgentRule}
use remnawave_subpage_proxy.Hosts.Shuffle.{shuffles_any}
use remnawave_subpage_proxy.RealIp.{nothing_in, peer_ip, forwarded_chain, client_ip}
use remnawave_subpage_proxy.RealIp.Spoofing.{IsDecided, client_ip-spoofed}
use remnawave_subpage_proxy.Rewrite.Header.{Header, canonical, get, set}
use remnawave_subpage_proxy.Proxy.Outside.{Outside}
use remnawave_subpage_proxy.Proxy.Stages.{RequestInfo, Proxy, shuffles}
use remnawave_subpage_proxy.Proxy.Serve.{
  Incoming, values_of, set_unless_empty, or_else_text, request_ip, forwarded_proto, forward_headers,
  wants_plain, rewrite_hook,
}
use remnawave_subpage_proxy.Proxy.Serve.Fields.{
  get-set_self, get-set_ne, get-del_ne, get-del_self, names_apart, accept_apart, accept_host,
  get-unless_ne, get-unless_self, set-IsMap, unless-IsMap,
}

module _ (o : Outside) (p : Proxy o) (r : Incoming) where
  -- What the upstream is told: the client's address, the scheme, the host, and the codings that are
  -- accepted.
  pub record IsTold (info : Option RequestInfo) (before after : Header) : Type 0 where
    pub client :
        is_empty (
            client_ip o.readers.unicode o.net p.real_ip r.remote
              (values_of (lookup (codes "X-Forwarded-For") r.header)))
          ≡ false
        → get after (codes "X-Forwarded-For")
          ≡ client_ip o.readers.unicode o.net p.real_ip r.remote
              (values_of (lookup (codes "X-Forwarded-For") r.header))
    pub forced : p.force_https ≡ true → get after (codes "X-Forwarded-Proto") ≡ codes "https"
    pub passed :
        p.force_https ≡ false
        → is_empty (get r.header (codes "X-Forwarded-Proto")) ≡ false
        → get after (codes "X-Forwarded-Proto") ≡ get r.header (codes "X-Forwarded-Proto")
    pub seen_tls :
        p.force_https ≡ false
        → is_empty (get r.header (codes "X-Forwarded-Proto")) ≡ true
        → r.over_tls ≡ true
        → get after (codes "X-Forwarded-Proto") ≡ codes "https"
    pub seen_bare :
        p.force_https ≡ false
        → is_empty (get r.header (codes "X-Forwarded-Proto")) ≡ true
        → r.over_tls ≡ false
        → get after (codes "X-Forwarded-Proto") ≡ codes "http"
    pub passed_host :
        is_empty (get r.header (codes "X-Forwarded-Host")) ≡ false
        → get after (codes "X-Forwarded-Host") ≡ get r.header (codes "X-Forwarded-Host")
    pub seen_host :
        is_empty (get r.header (codes "X-Forwarded-Host")) ≡ true
        → is_empty r.host ≡ false
        → get after (codes "X-Forwarded-Host") ≡ r.host
    pub noticed :
        (i : RequestInfo) (rule : CompiledUserAgentRule)
        → info ≡ some i
        → i.notice ≡ some rule
        → IsMap before
        → get after (codes "Accept-Encoding") ≡ []
    pub shuffled :
        (i : RequestInfo)
        → info ≡ some i
        → shuffles_any p.shuffler ≡ true
        → is_empty i.rq.short_uuid ≡ false
        → IsMap before
        → get after (codes "Accept-Encoding") ≡ []
    pub other :
        (i : RequestInfo)
        → info ≡ some i
        → i.notice ≡ none
        → shuffles_any p.shuffler ≡ false
        → get after (codes "Accept-Encoding") ≡ get before (codes "Accept-Encoding")

  client_told :
      (h : Header)
      → is_empty (request_ip o p r) ≡ false
      → get (forward_headers o p r h) (codes "X-Forwarded-For") ≡ request_ip o p r
  unfolding forward_headers
  client_told h given =
      let (proto_for, host_for, _, _, _) = names_apart in
      rw
        (
          get-unless_ne _ (codes "X-Forwarded-Host")
              (or_else_text (get r.header (codes "X-Forwarded-Host")) r.host)
              (codes "X-Forwarded-For") host_for,
          get-set_ne (set_unless_empty h (codes "X-Forwarded-For") (request_ip o p r))
              (codes "X-Forwarded-Proto") (forwarded_proto o p r) (codes "X-Forwarded-For")
              proto_for,
        )
        (get-unless_self h (codes "X-Forwarded-For") (request_ip o p r) given)

  proto_told :
      (h : Header)
      → get (forward_headers o p r h) (codes "X-Forwarded-Proto") ≡ forwarded_proto o p r
  unfolding forward_headers
  proto_told h =
      let (_, _, host_proto, _, _) = names_apart in
      get-unless_ne _ (codes "X-Forwarded-Host")
        (or_else_text (get r.header (codes "X-Forwarded-Host")) r.host) (codes "X-Forwarded-Proto")
        host_proto
      ∙ get-set_self _ (codes "X-Forwarded-Proto") (forwarded_proto o p r)

  forward-IsMap : (h : Header) → IsMap h → IsMap (forward_headers o p r h)
  unfolding forward_headers
  forward-IsMap h m =
      unless-IsMap _ (codes "X-Forwarded-Host") _
        (set-IsMap _ (codes "X-Forwarded-Proto") _ (unless-IsMap h (codes "X-Forwarded-For") _ m))

  hook_other :
      (info : Option RequestInfo) (h : Header) (name : Bytes)
      → bytes_eq (canonical (codes "Accept-Encoding")) (canonical name) ≡ false
      → get (rewrite_hook o p r info h) name ≡ get (forward_headers o p r h) name
  unfolding rewrite_hook
  hook_other info h name apart = elim (Bool-cases (wants_plain o p info)) [
    | inl on ↦ rw on (get-del_ne (forward_headers o p r h) (codes "Accept-Encoding") name apart)
    | inr off ↦ rw off refl
  ]

  hook_plain :
      (info : Option RequestInfo) (h : Header)
      → wants_plain o p info ≡ true
      → IsMap h
      → get (rewrite_hook o p r info h) (codes "Accept-Encoding") ≡ []
  unfolding rewrite_hook
  hook_plain info h on m =
      rw on (get-del_self (forward_headers o p r h) (codes "Accept-Encoding") (forward-IsMap h m))

  hook_proto :
      (info : Option RequestInfo) (h : Header)
      → get (rewrite_hook o p r info h) (codes "X-Forwarded-Proto") ≡ forwarded_proto o p r
  hook_proto info h =
      let (_, _, _, _, ae_proto) = names_apart in
      hook_other info h (codes "X-Forwarded-Proto") ae_proto ∙ proto_told h

  host_told :
      (h : Header) (host : Bytes)
      → or_else_text (get r.header (codes "X-Forwarded-Host")) r.host ≡ host
      → is_empty host ≡ false
      → get (forward_headers o p r h) (codes "X-Forwarded-Host") ≡ host
  unfolding forward_headers
  host_told h host e given = rw e (
      get-unless_self
        (set (set_unless_empty h (codes "X-Forwarded-For") (request_ip o p r))
          (codes "X-Forwarded-Proto") (forwarded_proto o p r))
        (codes "X-Forwarded-Host") host given)

  hook_host :
      (info : Option RequestInfo) (h : Header) (host : Bytes)
      → or_else_text (get r.header (codes "X-Forwarded-Host")) r.host ≡ host
      → is_empty host ≡ false
      → get (rewrite_hook o p r info h) (codes "X-Forwarded-Host") ≡ host
  hook_host info h host e given =
      hook_other info h (codes "X-Forwarded-Host") accept_host ∙ host_told h host e given

  forward_accepts :
      (h : Header)
      → get (forward_headers o p r h) (codes "Accept-Encoding") ≡ get h (codes "Accept-Encoding")
  unfolding forward_headers
  forward_accepts h =
      let (for_ae, proto_ae, host_ae) = accept_apart in
      get-unless_ne _ (codes "X-Forwarded-Host") _ (codes "Accept-Encoding") host_ae
      ∙ get-set_ne _ (codes "X-Forwarded-Proto") _ (codes "Accept-Encoding") proto_ae
      ∙ get-unless_ne h (codes "X-Forwarded-For") _ (codes "Accept-Encoding") for_ae

  hook_accepts :
      (info : Option RequestInfo) (h : Header)
      → wants_plain o p info ≡ false
      → get (rewrite_hook o p r info h) (codes "Accept-Encoding") ≡ get h (codes "Accept-Encoding")
  unfolding rewrite_hook
  hook_accepts info h off = rw off (forward_accepts h)

  -- The request that goes to the upstream names the client that the trusted proxies tell, where
  -- there is one. It names the scheme https where that is forced, or else the one that came in
  -- the header, or else the one of the connection; and the host that came in the header, or else
  -- the one that was asked, where there is one. Where the request has a notice, or the hosts are
  -- shuffled and it names a subscription, it asks for no compression, if no field stands twice in
  -- the header that goes out; where it has an info but no notice and nothing is shuffled, the
  -- accepted encodings are left alone.
  pub rewrite_hook-IsTold :
      (info : Option RequestInfo) (h : Header) → IsTold info h (rewrite_hook o p r info h)
  unfolding forwarded_proto shuffles request_ip
  rewrite_hook-IsTold info h =
      let (_, _, _, ae_for, _) = names_apart in
      record {
        client = λ given. hook_other info h (codes "X-Forwarded-For") ae_for ∙ client_told h given;
        forced = λ on. hook_proto info h ∙ rw on refl;
        passed = λ off given. hook_proto info h ∙ rw (off, given) refl;
        seen_tls = λ off bare tls. hook_proto info h ∙ rw (off, bare, tls) refl;
        seen_bare = λ off bare plain. hook_proto info h ∙ rw (off, bare, plain) refl;
        passed_host = λ given. hook_host info h _ (rw given refl) given;
        seen_host = λ bare given. hook_host info h _ (rw bare refl) given;
        noticed =
            λ i rule e on m. hook_plain info h (ap (wants_plain o p) e ∙ ground (arith, on)) m;
        shuffled = λ i e on given m.
            hook_plain info h (ap (wants_plain o p) e ∙ ground (arith, on, given)) m;
        other = λ i e off still.
            hook_accepts info h (ap (wants_plain o p) e ∙ ground (arith, off, still));
      }

module _ (o : Outside) (p : Proxy o) where
  same_ip :
      (r s : Incoming) (spoofed values : List Bytes)
      → lookup (codes "X-Forwarded-For") r.header ≡ some values
      → lookup (codes "X-Forwarded-For") s.header ≡ some (spoofed ++ values)
      → s.remote ≡ r.remote
      → nothing_in (forwarded_chain o.readers.unicode o.net values) ≡ false
      → IsDecided o.readers.unicode o.net p.real_ip
          (peer_ip o.readers.unicode o.net r.remote)
          (forwarded_chain o.readers.unicode o.net values)
      → request_ip o p s ≡ request_ip o p r
  unfolding request_ip
  same_ip r s spoofed values plain more same present decided =
      rw (plain, more, same)
        (client_ip-spoofed o.readers.unicode o.net p.real_ip r.remote spoofed values present
          decided)

  -- Lines of X-Forwarded-For that a client sends ahead of those of the trusted proxies do not change what
  -- the upstream reads there, where the proxies decide the address and it is not empty.
  pub told_spoofed :
      (r s : Incoming) (spoofed values : List Bytes) (info : Option RequestInfo) (h : Header)
      → lookup (codes "X-Forwarded-For") r.header ≡ some values
      → lookup (codes "X-Forwarded-For") s.header ≡ some (spoofed ++ values)
      → s.remote ≡ r.remote
      → nothing_in (forwarded_chain o.readers.unicode o.net values) ≡ false
      → IsDecided o.readers.unicode o.net p.real_ip
          (peer_ip o.readers.unicode o.net r.remote)
          (forwarded_chain o.readers.unicode o.net values)
      → is_empty (request_ip o p r) ≡ false
      → get (rewrite_hook o p s info h) (codes "X-Forwarded-For")
        ≡ get (rewrite_hook o p r info h) (codes "X-Forwarded-For")
  unfolding request_ip
  told_spoofed r s spoofed values info h plain more same present decided given =
      let ip : request_ip o p s ≡ request_ip o p r =
        same_ip r s spoofed values plain more same present decided in
      (rewrite_hook-IsTold o p s info h).client (ap is_empty ip ∙ given)
      ∙ ip
      ∙ sym ((rewrite_hook-IsTold o p r info h).client given)
