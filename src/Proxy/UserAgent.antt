-- ===== src/Proxy/UserAgent.antt =====
-- internal/proxy/useragent.go: the answer to a User-Agent that no client sends.
use remnawave_subpage_proxy.Prelude.{
  ℕ, Bool, not, List, [], ◌∷◌, Option, none, some, ltb, if◌then◌else◌, length,
}
use remnawave_subpage_proxy.Prelude.Text.{Bytes, codes, is_empty, split, trim_space}
use remnawave_subpage_proxy.Config.UserAgents.{
  UserAgentRule, CompiledUserAgentRule, compile_user_agents, rules, refused_rules,
}
use remnawave_subpage_proxy.Config.Patterns.{Regexp, Problem}
use remnawave_subpage_proxy.Hosts.Shuffle.{
  Format, unknown, links, xray, singbox, clash, format_for_client_type,
}
use remnawave_subpage_proxy.Hosts.Apply.{sniff}
use remnawave_subpage_proxy.Hosts.Placeholder.{placeholder}
use remnawave_subpage_proxy.Rewrite.Codec
use remnawave_subpage_proxy.Rewrite.Header.{Header, set, del}
use remnawave_subpage_proxy.Rewrite.Engine.{Request, Engine}
use remnawave_subpage_proxy.Rewrite.Engine.Loop.{render_template}
use remnawave_subpage_proxy.Proxy.Outside.{Outside}
use remnawave_subpage_proxy.Proxy.Body.{Response, drain_body, rewritable, is_compressed, set_body}

abbrev pub announce_header : Bytes
announce_header = codes "announce"

-- `maxShuffleBody`, 8 << 20
abbrev pub max_shuffle_body : ℕ
max_shuffle_body = 8388608

pub record UserAgentFilter : Type 0 where
  pub rules : List CompiledUserAgentRule
  pub disabled : List ℕ

pub data NewFilter : Type 0 where
  made : UserAgentFilter → NewFilter
  refused : List Problem → NewFilter

-- `NewUserAgentFilter`
unfoldable pub new_filter : (Bytes → Option Regexp) → (ℕ → Bytes) → List UserAgentRule → NewFilter
new_filter compile itoa c = elim (compile_user_agents compile itoa c) [
  | rules rs off ↦ made (record { rules = rs; disabled = off })
  | refused_rules ps ↦ refused ps
]

-- `Len` and `Enabled`, of a filter that may be nil
abbrev pub filter_len : Option UserAgentFilter → ℕ
filter_len none = 0
filter_len (some f) = length f.rules

unfoldable pub filters_any : Option UserAgentFilter → Bool
filters_any f = ltb 0 (filter_len f)

unfoldable pub first_match : List CompiledUserAgentRule → Bytes → Option CompiledUserAgentRule
first_match [] agent = none
first_match (r ∷ rs) agent =
    let rest = first_match rs agent in if r.regexp agent then some r else rest

-- `Match`
unfoldable pub match_agent : Option UserAgentFilter → Bytes → Option CompiledUserAgentRule
unfolding first_match
match_agent none agent = none
match_agent (some f) agent = first_match f.rules agent

-- What the proxy writes itself.
pub record Answer : Type 0 where
  pub status : ℕ
  pub header : Header
  pub body : Bytes

unfoldable pub content_type_for : Format → Bytes
content_type_for xray = codes "application/json; charset=utf-8"
content_type_for singbox = codes "application/json; charset=utf-8"
content_type_for clash = codes "text/yaml; charset=utf-8"
content_type_for links = codes "text/plain; charset=utf-8"
content_type_for unknown = codes "text/plain; charset=utf-8"

abbrev pub known_or : Format → Format → Format
known_or format unknown = format
known_or format links = links
known_or format xray = xray
known_or format singbox = singbox
known_or format clash = clash

module _ (o : Outside) where
  unfoldable pub rendered_message : Option Engine → Header → Request → Bytes → Bytes
  rendered_message none h rq message = message
  rendered_message (some e) h rq message =
      render_template o.readers.unicode o.readers.base64 o.platform e rq h message

  -- `noticeMessage`: what renders to nothing falls back to the raw text.
  unfoldable pub notice_message : Option Engine → Header → Request → CompiledUserAgentRule → Bytes
  unfolding rendered_message
  notice_message engine h rq rule =
      let message = rendered_message engine h rq rule.rule.message in
      trim_space (if is_empty (trim_space message) then rule.rule.message else message)

  unfoldable pub notice_body : Format → Bytes → Bytes
  notice_body format message = placeholder o.readers.base64 o.writers format (split 10 message)

  unfoldable pub set_announce : Header → CompiledUserAgentRule → Bytes → Header
  set_announce h rule message =
      if rule.rule.announce
      then set h announce_header (Codec.encode o.readers.base64 message Codec.base64_prefixed)
      else h

  -- The format that the body of a response names, or else the one of the client type.
  unfoldable pub notice_format : Response → Bytes → Format
  notice_format resp client_type =
      let format = format_for_client_type client_type in
      if is_compressed o.readers.unicode resp.header
      then format
      else elim (drain_body max_shuffle_body resp.body).0 [
        | none ↦ format
        | some b ↦ known_or format (sniff b)
      ]

  -- `applyNotice`
  unfoldable pub apply_notice : Response → Request → CompiledUserAgentRule → Bytes → Response
  unfolding notice_format notice_body set_announce
  apply_notice resp rq rule message =
      if not (rewritable o.readers.unicode resp)
      then resp
      else let stripped = del (del resp.header (codes "Content-Encoding")) (codes "ETag") in
        let out =
          set_body o.itoa (notice_body (notice_format resp rq.client_type) message)
            (record resp { header = stripped }) in
        record out { header = set_announce out.header rule message }

  -- `writeBody`
  unfoldable pub write_body : Header → ℕ → Bytes → Answer
  write_body h status b = record {
    status = status;
    header = set h (codes "Content-Length") (o.itoa (length b));
    body = b;
  }

  -- `writeBlock`
  unfoldable pub write_block : Option Engine → Request → CompiledUserAgentRule → Answer
  unfolding notice_message content_type_for set_announce notice_body write_body
  write_block engine rq rule =
      let message = notice_message engine [] rq rule in
      let format = format_for_client_type rq.client_type in
      let typed = set [] (codes "Content-Type") (content_type_for format) in
      let h = set typed (codes "Cache-Control") (codes "no-store") in
      write_body (set_announce h rule message) 200 (notice_body format message)
