-- ===== src/Panel/Client.antt =====
-- internal/panel/client.go: the client of the panel's API. `send` is the HTTP client: what the panel
-- answers to a request for a path with a header, if it answers.
pub mod Laws
use remnawave_subpage_proxy.Prelude.{
  ℕ, Bool, true, false, not, ◌&&◌, ◌||◌, List, [], ◌∷◌, ◌++◌, Option, none, some, is_some, leb,
  ◌==◌, if◌then◌else◌, length, all,
}
use remnawave_subpage_proxy.Prelude.Text.{Bytes, codes, bytes_eq, is_empty, trim_space}
use remnawave_subpage_proxy.Rewrite.Header.{Header, set}
use remnawave_subpage_proxy.Config.Env.{cut_suffix}
use remnawave_subpage_proxy.Config.Settings.{Url}
use remnawave_subpage_proxy.Panel.Info.{Info}

pub record Options : Type 0 where
  pub base_url : Option Url
  pub token : Bytes
  pub caddy_auth_token : Bytes
  pub cloudflare_id : Bytes
  pub cloudflare_secret : Bytes

pub record Client : Type 0 where
  pub base : Option Url
  pub common : Header

-- A request that the client sends.
pub record Query : Type 0 where
  pub path : Bytes
  pub header : Header

-- A response: its status, and its body up to the limit of the reader.
pub record Reply : Type 0 where
  pub status : ℕ
  pub body : Bytes

-- What `SubscriptionInfo` returns.
pub data Lookup : Type 0 where
  found : Info → Lookup
  not_found : Lookup
  unreachable : Lookup
  token_rejected : ℕ → Lookup
  bad_status : ℕ → Lookup
  undecodable : Lookup

-- What `Ping` returns.
pub data Pinged : Type 0 where
  version_of : Bytes → Pinged
  no_answer : Pinged
  refused_with : ℕ → Pinged
  unread : Pinged

abbrev pub real_ip_header : Bytes
real_ip_header = codes "x-remnawave-real-ip"

abbrev pub is_uuid_byte : ℕ → Bool
is_uuid_byte c =
    leb b'A' c && leb c b'Z'
    || leb b'a' c && leb c b'z'
    || leb b'0' c && leb c b'9'
    || c == b'_'
    || c == b'-'

-- `shortUUIDPattern`
unfoldable pub is_short_uuid : Bytes → Bool
is_short_uuid s = not (is_empty s) && leb (length s) 128 && all is_uuid_byte s

abbrev pub set_if : Bool → Header → Bytes → Bytes → Header
set_if b h name value = if b then set h name value else h

abbrev pub over_http : Option Url → Bool
over_http none = false
over_http (some url) = bytes_eq url.scheme (codes "http")

-- The headers of every request; `agent` and `version` are those of internal/version.
unfoldable pub common_header : Bytes → Bytes → Options → Header
common_header agent version o =
    let h = set [] (codes "Authorization") (codes "Bearer " ++ o.token) in
    let h = set h (codes "User-Agent") agent in
    let h = set h (codes "Accept") (codes "application/json") in
    let h = set h (codes "X-Subpage-Proxy-Version") version in
    let h = set_if (not (is_empty o.caddy_auth_token)) h (codes "X-Api-Key") o.caddy_auth_token in
    let flare = not (is_empty o.cloudflare_id) && not (is_empty o.cloudflare_secret) in
    let h = set_if flare h (codes "CF-Access-Client-Id") o.cloudflare_id in
    let h = set_if flare h (codes "CF-Access-Client-Secret") o.cloudflare_secret in
    let h = set_if (over_http o.base_url) h (codes "X-Forwarded-Proto") (codes "https") in
    set_if (over_http o.base_url) h (codes "X-Forwarded-For") (codes "127.0.0.1")

unfoldable pub new_client : Bytes → Bytes → Options → Client
unfolding common_header
new_client agent version o = record { base = o.base_url; common = common_header agent version o }

abbrev pub path_of : Option Url → Bytes
path_of none = []
path_of (some url) = url.path

-- `strings.TrimSuffix(path, "/")`
abbrev pub trimmed_base : Option Url → Bytes
trimmed_base base = elim (cut_suffix (path_of base) (codes "/")) [
  | none ↦ path_of base
  | some rest ↦ rest
]

-- What the client takes of other packages; `join` is `JoinPath` of the base for the metadata, `decode`
-- and `decode_version` read the field `response` of an answer.
pub record Network : Type 0 where
  pub path_escape : Bytes → Bytes
  pub join : Option Url → Bytes
  pub send : Query → Option Reply
  pub decode : Bytes → Option Info
  pub decode_version : Bytes → Option Bytes

module _ (n : Network) where
  abbrev pub decoded : Option Info → Lookup
  decoded none = undecodable
  decoded (some info) = if info.is_found then found info else not_found

  unfoldable pub answered : Option Reply → Lookup
  answered none = unreachable
  answered (some r) =
      if r.status == 404
      then not_found
      else if r.status == 401 || r.status == 403
      then token_rejected r.status
      else if not (r.status == 200)
      then bad_status r.status
      else decoded (n.decode r.body)

  unfoldable pub info_query : Client → Bytes → Bytes → Query
  info_query c short_uuid real_ip = record {
    path =
        trimmed_base c.base ++ (codes "/api/sub/" ++ (n.path_escape short_uuid ++ codes "/info"));
    header = set_if (not (is_empty real_ip)) c.common real_ip_header real_ip;
  }

  -- `SubscriptionInfo`
  unfoldable pub subscription_info : Client → Bytes → Bytes → Lookup
  unfolding is_short_uuid answered info_query
  subscription_info c short_uuid real_ip =
      if not (is_short_uuid short_uuid)
      then not_found
      else answered (n.send (info_query c short_uuid real_ip))

  abbrev pub version_or : Option Bytes → Pinged
  version_or none = unread
  version_or (some v) =
      let trimmed = trim_space v in
      version_of (if is_empty trimmed then codes "unknown" else trimmed)

  abbrev pub pinged : Option Reply → Pinged
  pinged none = no_answer
  pinged (some r) =
      if not (r.status == 200) then refused_with r.status else version_or (n.decode_version r.body)

  -- `Ping`
  unfoldable pub ping : Client → Pinged
  ping c = pinged (n.send (record { path = n.join c.base; header = c.common }))
