-- ===== src/Proxy/Route.antt =====
-- internal/proxy/route.go: how a path names a subscription.
pub mod Laws
use remnawave_subpage_proxy.Prelude.{
  ℕ, ◌+◌, Bool, true, false, not, ◌&&◌, ◌||◌, List, [], ◌∷◌, ltb, ◌==◌, if◌then◌else◌, length,
}
use remnawave_subpage_proxy.Prelude.Text.{
  Bytes, codes, bytes_eq, is_empty, contains, has_byte, split, trim_byte,
}
use remnawave_subpage_proxy.Prelude.Text.Case.{Unicode, to_lower}

abbrev pub client_types : List Bytes
client_types =
    codes "stash"
    ∷ codes "singbox"
    ∷ codes "mihomo"
    ∷ codes "json"
    ∷ codes "v2ray-json"
    ∷ codes "clash"
    ∷ []

abbrev pub assets_dir : Bytes
assets_dir = codes "assets"

abbrev pub reserved_segments : List Bytes
reserved_segments =
    assets_dir ∷ codes "api" ∷ codes "internal" ∷ codes "favicon" ∷ codes "robots" ∷ []

-- An empty `short_uuid` is a path that names no subscription.
pub record Route : Type 0 where
  pub short_uuid : Bytes
  pub client_type : Bytes

abbrev pub no_route : Route
no_route = record { short_uuid = []; client_type = [] }

-- The loop of `splitPath`: what is left of the parts.
unfoldable pub non_empty : List Bytes → List Bytes
non_empty [] = []
non_empty (p ∷ ps) = if is_empty p then non_empty ps else p ∷ non_empty ps

unfoldable pub split_path : Bytes → List Bytes
unfolding non_empty
split_path path =
    let trimmed = trim_byte b'/' path in
    if is_empty trimmed then [] else non_empty (split b'/' trimmed)

-- The loop of `stripPrefix`. Each round cuts one part off the prefix, so the rounds go through the
-- parts of the prefix between its slashes.
unfoldable pub strip_parts : List Bytes → List Bytes → List Bytes × Bool
strip_parts segments [] = (segments, true)
strip_parts [] (want ∷ wants) = if is_empty want then strip_parts [] wants else ([], false)
strip_parts (s ∷ segments) (want ∷ wants) =
    let skip = strip_parts (s ∷ segments) wants in
    let next = strip_parts segments wants in
    if is_empty want then skip else if bytes_eq s want then next else (s ∷ segments, false)

unfoldable pub strip_prefix : List Bytes → Bytes → List Bytes × Bool
strip_prefix segments prefix = strip_parts segments (split b'/' prefix)

module _ (u : Unicode) where
  unfoldable pub plausible_short_uuid : Bytes → Bool
  plausible_short_uuid segment =
      if is_empty segment || ltb 128 (length segment) || has_byte b'.' segment
      then false
      else not (contains reserved_segments (to_lower u segment))

  -- The client type that the second segment names, if it is a known one.
  unfoldable pub client_type_of : List Bytes → Bytes
  client_type_of [] = []
  client_type_of (segment ∷ _) =
      let client_type = to_lower u segment in
      if contains client_types client_type then client_type else []

  -- The part of `ParseRoute` behind the prefix.
  unfoldable pub route_of : List Bytes → Route
  unfolding plausible_short_uuid client_type_of
  route_of [] = no_route
  route_of (segment ∷ rest) =
      if ltb 2 (length rest + 1) || not (plausible_short_uuid segment)
      then no_route
      else record { short_uuid = segment; client_type = client_type_of rest }

  unfoldable pub parse_route : Bytes → Bytes → Route
  unfolding route_of
  parse_route path prefix =
      let (rest, matched) = strip_prefix (split_path path) prefix in
      if matched then route_of rest else no_route
