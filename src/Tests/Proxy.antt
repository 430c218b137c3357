-- ===== src/Tests/Proxy.antt =====
-- Paths that name subscriptions, and paths that are refused.
use remnawave_subpage_proxy.Prelude.{
  ◌≡◌, ◌≢◌, ◌++◌, ◌||◌, refl, inl, inr, true, false, [], ◌∷◌, some, any, arith,
}
use remnawave_subpage_proxy.Prelude.Text.{
  Bytes, codes, contains, has_byte, split, trim_byte, bytes_eq, has_prefix,
}
use remnawave_subpage_proxy.Prelude.Text.Case.{to_lower, equal_fold}
use remnawave_subpage_proxy.Proxy.Route.{
  Route, split_path, strip_prefix, parse_route, client_type_of, strip_parts,
}
use remnawave_subpage_proxy.Proxy.Route.Laws.{
  IsShortUuid, IsRoute, parse_route-IsRoute, parse_route_complete,
}
use remnawave_subpage_proxy.Proxy.Block.{
  Blocker, blocked, extension, from_last, scanner_extensions, scanner_names,
}
use remnawave_subpage_proxy.Proxy.Block.Laws.{blocked_relative, blocked-IsRoute}
use remnawave_subpage_proxy.Tests.Data.{plain_case}

abbrev path : Bytes
path = codes "/sub/aB3_x/Clash/"

abbrev prefix : Bytes
prefix = codes "/sub"

program : Unit {0}
unfolding parse_route split_path strip_prefix strip_parts split trim_byte contains has_byte to_lower
    bytes_eq
program = tt

route_of_path :
    parse_route plain_case path prefix
    ≡ record { short_uuid = codes "aB3_x"; client_type = codes "clash" }
unfolding program
route_of_path = refl

favicon :
    parse_route plain_case (codes "/favicon.ico") [] ≡ record { short_uuid = []; client_type = [] }
unfolding program
favicon = refl

uuid_found : (parse_route plain_case path prefix).short_uuid ≢ []
unfolding program
uuid_found = cc

parse_route-IsRoute_example : IsRoute plain_case path prefix (parse_route plain_case path prefix)
parse_route-IsRoute_example = parse_route-IsRoute plain_case path prefix uuid_found

segments_of_path : split_path path ≡ split_path prefix ++ codes "aB3_x" ∷ codes "Clash" ∷ []
unfolding program
segments_of_path = refl

uuid-IsShortUuid : IsShortUuid plain_case (codes "aB3_x")
unfolding program
uuid-IsShortUuid = record {
  present = cc;
  bounded = omega arith;
  undotted = refl;
  unreserved = refl;
}

parse_route_complete_example : parse_route plain_case path prefix ≡ record {
  short_uuid = codes "aB3_x";
  client_type = client_type_of plain_case (codes "Clash" ∷ []);
}
parse_route_complete_example =
    parse_route_complete plain_case path prefix (codes "aB3_x") (codes "Clash" ∷ [])
      segments_of_path (omega arith) uuid-IsShortUuid

abbrev blocker : Blocker
blocker = record { enabled = true; prefix = codes "/sub"; patterns = [] }

relative_segment :
    (strip_prefix (split_path (codes "/sub/x/../y")) (codes "/sub")).0
    ≡ codes "x" ∷ codes ".." ∷ codes "y" ∷ []
unfolding program
relative_segment = refl

blocked_relative_example : blocked plain_case (some blocker) (codes "/sub/x/../y") ≡ true
blocked_relative_example =
    blocked_relative plain_case blocker (codes "/sub/x/../y") refl
      (rw relative_segment (inr (inr (inl refl))))

abbrev route : Route
route = record { short_uuid = codes "aB3_x"; client_type = codes "clash" }

path-IsRoute : IsRoute plain_case path blocker.prefix route
path-IsRoute = record {
  rest = codes "Clash" ∷ [];
  segments = segments_of_path;
  few = omega arith;
  uuid = uuid-IsShortUuid;
  client = inr (inr (inr (inr (inr (inr (inl refl))))));
}

blocked-IsRoute_example : blocked plain_case (some blocker) path ≡ (
    any (λ re. re path) blocker.patterns
    || any (λ t. contains scanner_extensions (extension plain_case t)) (split_path blocker.prefix)
    || contains scanner_names (to_lower plain_case route.short_uuid))
unfolding path-IsRoute has_byte
blocked-IsRoute_example = blocked-IsRoute plain_case blocker path route path-IsRoute refl (refl, tt)

env_is_blocked : blocked plain_case (some blocker) (codes "/.env") ≡ true
unfolding program blocked extension from_last has_prefix equal_fold
env_is_blocked = refl

app_config_passes : blocked plain_case (some blocker) (codes "/assets/.app-config-v2.json") ≡ false
unfolding program blocked extension from_last has_prefix equal_fold
app_config_passes = refl

nested_config_is_blocked :
    blocked plain_case (some blocker) (codes "/assets/x/.app-config-v2.json") ≡ true
unfolding program blocked extension from_last has_prefix equal_fold
nested_config_is_blocked = refl
