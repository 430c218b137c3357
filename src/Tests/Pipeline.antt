-- ===== src/Tests/Pipeline.antt =====
-- Requests on their way through the proxy, and responses on their way back.
use remnawave_subpage_proxy.Prelude.{
  ◌≤◌, ◌≡◌, ◌++◌, refl, true, false, List, [], ◌∷◌, none, some, arith,
}
use remnawave_subpage_proxy.Prelude.Int.{add_int64, max_int64}
use remnawave_subpage_proxy.Prelude.Text.{
  Bytes, codes, is_empty, bytes_eq, contains, has_byte, has_prefix, split, trim_byte, trim_space,
}
use remnawave_subpage_proxy.Prelude.Text.Case.{to_lower}
use remnawave_subpage_proxy.Prelude.Assoc.{IsMap, lookup, remove}
use remnawave_subpage_proxy.Config.UserAgents.{CompiledUserAgentRule, UserAgentAction}
use remnawave_subpage_proxy.RealIp.{
  Resolver, nothing_in, normalize, peer_ip, addresses, forwarded_chain, trusted, last_untrusted,
  client_of, client_ip,
}
use remnawave_subpage_proxy.RealIp.Spoofing.{IsDecided}
use remnawave_subpage_proxy.Rewrite.Header.{canonical, capitalise, first_value, get, set}
use remnawave_subpage_proxy.Subcache.{
  Cache, stored, size, size_values, size_header, remove_locked, key_of,
}
use remnawave_subpage_proxy.Hosts.Clash.{contains_text}
use remnawave_subpage_proxy.Hosts.Shuffle.{shuffles_any}
use remnawave_subpage_proxy.Proxy.Route.{
  parse_route, split_path, strip_prefix, strip_parts, client_type_of, plausible_short_uuid,
}
use remnawave_subpage_proxy.Proxy.Block.{blocked}
use remnawave_subpage_proxy.Proxy.Body.{
  Body, streamed, buffered, chunk, end_of_body, Response, read_limited, read_limit, drain_body,
  is_html, rewritable,
}
use remnawave_subpage_proxy.Proxy.UserAgent.{first_match, match_agent, filters_any}
use remnawave_subpage_proxy.Proxy.Stages.{
  RequestInfo, Proxy, new_proxy, shuffles, rewritten, modify_response, handle_error,
}
use remnawave_subpage_proxy.Proxy.Stages.Laws.{last_good, replays_last_good}
use remnawave_subpage_proxy.Proxy.Stages.Replay.{IsReplayed}
use remnawave_subpage_proxy.Proxy.Serve.{
  Incoming, forwarded, serve, request_ip, request_info, request_key, template_request,
  subscription_url, notice_for, rewrite_hook,
}
use remnawave_subpage_proxy.Proxy.Serve.Laws.{IsInfo, serve-IsInfo, noticed_uncached}
use remnawave_subpage_proxy.Proxy.Serve.Forward.{IsTold, rewrite_hook-IsTold, told_spoofed}
use remnawave_subpage_proxy.Tests.Data.{plain_case, texts, outside}

program : Unit {0}
unfolding bytes_eq contains has_byte has_prefix split trim_byte trim_space to_lower lookup remove
    canonical capitalise first_value get set contains_text normalize peer_ip addresses
    forwarded_chain trusted last_untrusted client_of client_ip size size_values size_header
    remove_locked stored key_of parse_route split_path strip_prefix strip_parts client_type_of
    plausible_short_uuid blocked read_limited read_limit add_int64 drain_body is_html rewritable
    first_match match_agent filters_any shuffles_any new_proxy shuffles rewritten serve request_ip
    request_info request_key template_request subscription_url notice_for
program = tt

abbrev two_chunks : Body
two_chunks = streamed (chunk (codes "ab") (chunk (codes "cd") end_of_body))

drained : drain_body 4 two_chunks ≡ (some (codes "abcd"), buffered (codes "abcd"))
unfolding program
drained = refl

-- With the largest int64 as the limit the body is lost.
drained_wrapped : drain_body max_int64 two_chunks ≡ (some [], buffered [])
unfolding program
drained_wrapped = refl

abbrev behind_one : Resolver plain_case texts
behind_one = record { trust_all = false; hops = 0; nets = codes "10.0.0.1" ∷ [] }

-- A rule for pasted links.
abbrev pasted : CompiledUserAgentRule
pasted = record {
  rule = record {
    name = codes "link";
    pattern = codes "^https:";
    action = UserAgentAction.notice;
    message = codes "Reload";
    announce = true;
  };
  regexp = λ agent. has_prefix agent (codes "https:");
}

abbrev proxy : Proxy outside
proxy = record {
  blocker = none;
  sub_prefix = [];
  real_ip = behind_one;
  shuffler = none;
  user_agents = some (record { rules = pasted ∷ []; disabled = [] });
  engine = none;
  force_https = false;
  caches = true;
  rewrites = false;
  observes = true;
}

made_proxy :
    new_proxy outside none [] behind_one none
      (some (record { rules = pasted ∷ []; disabled = [] }))
      none
      false
      true
    ≡ proxy
unfolding program
made_proxy = refl

abbrev chain : List Bytes
chain = codes "8.8.8.8" ∷ []

abbrev incoming : Bytes → List Bytes → Incoming
incoming agent values = record {
  path = codes "/abc/clash";
  header = (codes "User-Agent", agent ∷ []) ∷ (codes "X-Forwarded-For", values) ∷ [];
  host = codes "h";
  remote = codes "10.0.0.1";
  over_tls = true;
}

abbrev clash_info : RequestInfo
clash_info = record {
  rq = record {
    short_uuid = codes "abc";
    client_type = codes "clash";
    user_agent = codes "x";
    client_ip = [];
    subscription_url = [];
  };
  cache_key = key_of (codes "abc") (codes "clash") (codes "x") [];
  notice = none;
}

abbrev noticed_info : RequestInfo
noticed_info = record {
  rq = record {
    short_uuid = codes "abc";
    client_type = codes "clash";
    user_agent = codes "https://a";
    client_ip = codes "8.8.8.8";
    subscription_url = codes "https://h/abc";
  };
  cache_key = [];
  notice = some pasted;
}

served : serve outside proxy (incoming (codes "x") chain) ≡ forwarded (some clash_info)
unfolding program
served = refl

served_noticed :
    serve outside proxy (incoming (codes "https://a") chain) ≡ forwarded (some noticed_info)
unfolding program
served_noticed = refl

serve-IsInfo_example : IsInfo outside proxy (incoming (codes "x") chain) clash_info
serve-IsInfo_example = serve-IsInfo outside proxy (incoming (codes "x") chain) clash_info served

abbrev cache : Cache
cache = record { ttl = 100; max_bytes = 1000; max_body = 10; entries = []; bytes = 0 }

abbrev good : Response
good = record {
  status = 200;
  header = (codes "Etag", codes "e" ∷ []) ∷ [];
  body = two_chunks;
  content_length = none;
  is_chunked = true;
}

abbrev bad : Response
bad = record good { status = 502 }

noticed_uncached_example :
    (modify_response outside 5 proxy (some noticed_info) (some cache) good).cache ≡ some cache
noticed_uncached_example =
    noticed_uncached outside proxy (incoming (codes "https://a") chain) noticed_info pasted 5
      (some cache) good served_noticed refl

good-rewritable : rewritable plain_case (rewritten outside proxy clash_info good) ≡ true
unfolding program
good-rewritable = refl

good_read :
    (drain_body cache.max_body (rewritten outside proxy clash_info good).body).0
    ≡ some (codes "abcd")
unfolding program
good_read = refl

unmoved : shuffles outside proxy clash_info ≡ false
unfolding program
unmoved = refl

keyed : is_empty clash_info.cache_key ≡ false
unfolding program
keyed = refl

room :
    (stored
      (λ es. es)
      5
      clash_info.cache_key
      (last_good outside proxy clash_info 0
        (rewritten outside proxy clash_info good)
        (codes "abcd"))
      cache).bytes
    ≤ cache.max_bytes
unfolding program
room = omega arith

good-IsMap : IsMap (rewritten outside proxy clash_info good).header
unfolding program
good-IsMap = (refl, tt)

replays_last_good_example :
    ((modify_response outside 90 proxy
        (some clash_info)
        (modify_response outside 5 proxy (some clash_info) (some cache) good).cache
        bad).resp
      ≡ record {
        status = 200;
        header =
            set
              (rewritten outside proxy clash_info good).header
              (codes "Content-Length")
              (outside.itoa 4);
        body = buffered (codes "abcd");
        content_length = some 4;
        is_chunked = false;
      })
    × IsReplayed outside (rewritten outside proxy clash_info good).header [] (codes "abcd") (
        (handle_error outside 90 proxy
          (some clash_info)
          (modify_response outside 5 proxy (some clash_info) (some cache) good).cache
          []
          false
          true).0)
replays_last_good_example =
    replays_last_good outside proxy clash_info 5 cache good (codes "abcd") keyed refl unmoved
      good-rewritable good_read room (omega arith) good-IsMap 90 bad [] true (omega arith) refl

rewrite_hook-IsTold_example :
    IsTold outside proxy
      (incoming (codes "https://a") chain)
      (some noticed_info)
      ((codes "Accept-Encoding", codes "gzip" ∷ []) ∷ [])
      (rewrite_hook outside proxy
        (incoming (codes "https://a") chain)
        (some noticed_info)
        ((codes "Accept-Encoding", codes "gzip" ∷ []) ∷ []))
rewrite_hook-IsTold_example =
    rewrite_hook-IsTold outside proxy (incoming (codes "https://a") chain) (some noticed_info)
      ((codes "Accept-Encoding", codes "gzip" ∷ []) ∷ [])

abbrev forged : List Bytes
forged = codes "1.2.3.4" ∷ []

lines_of :
    (values : List Bytes)
    → lookup (codes "X-Forwarded-For") (incoming (codes "x") values).header ≡ some values
unfolding program
lines_of values = refl

seen : nothing_in (forwarded_chain plain_case texts chain) ≡ false
unfolding program
seen = refl

decided :
    IsDecided plain_case texts behind_one
      (peer_ip plain_case texts (codes "10.0.0.1"))
      (forwarded_chain plain_case texts chain)
unfolding program
decided = record { checked = refl; counted = omega arith; found = λ e. refl }

named_client : is_empty (request_ip outside proxy (incoming (codes "x") chain)) ≡ false
unfolding program
named_client = refl

told_spoofed_example :
    get
      (rewrite_hook outside proxy (incoming (codes "x") (forged ++ chain)) (some clash_info) [])
      (codes "X-Forwarded-For")
    ≡ get
        (rewrite_hook outside proxy (incoming (codes "x") chain) (some clash_info) [])
        (codes "X-Forwarded-For")
told_spoofed_example =
    told_spoofed outside proxy (incoming (codes "x") chain) (incoming (codes "x") (forged ++ chain))
      forged chain (some clash_info) [] (lines_of chain) (lines_of (forged ++ chain)) refl seen
      decided named_client

abbrev other_incoming : Incoming
other_incoming = record (incoming (codes "x") []) { path = codes "/abc//clash/" }
