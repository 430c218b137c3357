-- ===== src/Hosts/Apply.antt =====
-- internal/hosts/shuffle.go: `Sniff` and `Apply`.
use remnawave_subpage_proxy.Prelude.{
  Bool, false, not, ◌||◌, [], ◌∷◌, Option, none, some, ◌==◌, if◌then◌else◌,
}
use remnawave_subpage_proxy.Prelude.Text.{Bytes, is_empty, trim_space}
use remnawave_subpage_proxy.Prelude.Text.Case.{Unicode}
use remnawave_subpage_proxy.B64.{Base64}
use remnawave_subpage_proxy.Hosts.Shuffle.{
  Shuffler, shuffles_any, Format, unknown, links, xray, singbox, clash,
}
use remnawave_subpage_proxy.Hosts.Links.{LinkReaders, apply_links}
use remnawave_subpage_proxy.Hosts.Json.{Json}
use remnawave_subpage_proxy.Hosts.Documents.{apply_xray, apply_singbox}
use remnawave_subpage_proxy.Hosts.Clash.{Yaml, looks_like_clash, apply_clash}

unfoldable pub sniff_trimmed : Bytes → Format
unfolding looks_like_clash
sniff_trimmed [] = unknown
sniff_trimmed (c ∷ s) =
    if c == b'['
    then xray
    else if c == b'{'
    then singbox
    else if looks_like_clash (c ∷ s)
    then clash
    else links

-- `Sniff`
unfoldable pub sniff : Bytes → Format
unfolding sniff_trimmed
sniff body = sniff_trimmed (trim_space body)

-- What the formats need of other packages.
pub record Readers : Type 1 where
  pub unicode : Unicode
  pub base64 : Base64
  pub link_readers : LinkReaders
  pub json : Json
  pub yaml : Yaml

module _ (r : Readers) where
  unfoldable pub apply_format : Shuffler → Bytes → Format → Bytes × Bool
  apply_format s body unknown = (body, false)
  apply_format s body links = apply_links r.unicode r.base64 r.link_readers s body
  apply_format s body xray = apply_xray r.json s body
  apply_format s body singbox = apply_singbox r.json s body
  apply_format s body clash = apply_clash r.yaml s body

  -- `Apply`, of a shuffler that may be nil.
  unfoldable pub apply : Option Shuffler → Bytes → Bytes × Bool
  unfolding apply_format
  apply none body = (body, false)
  apply (some s) body =
      if not (shuffles_any (some s)) || is_empty body
      then (body, false)
      else apply_format s body (sniff body)
