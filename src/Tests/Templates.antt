-- ===== src/Tests/Templates.antt =====
-- Templates, the traffic header and the values of placeholders at concrete inputs.
use remnawave_subpage_proxy.Prelude.{
  ◌≡◌, ◌≢◌, ◌++◌, refl, true, false, [], ◌∷◌, none, some, is_some, All, arith, if◌then◌else◌,
}
use remnawave_subpage_proxy.Prelude.Int.{pos, add_int64}
use remnawave_subpage_proxy.Prelude.Text.{
  Bytes, codes, bytes_eq, has_byte, contains, trim_space, split, cut, join,
}
use remnawave_subpage_proxy.Prelude.Text.Case.{to_lower, to_upper, equal_fold}
use remnawave_subpage_proxy.Prelude.Text.Decimal.{parse_int}
use remnawave_subpage_proxy.Prelude.Text.Utf8.{runes, concat}
use remnawave_subpage_proxy.Prelude.Assoc.{lookup}
use remnawave_subpage_proxy.Config.File.{default_file}
use remnawave_subpage_proxy.Tmpl.{
  Lookup, keep, blank, is_name_byte, pieces, any_hole, names, truncate, render, default_of,
  parse_modifiers, apply_modifiers,
}
use remnawave_subpage_proxy.Tmpl.Laws.{AllHoles, HasNoDefault, render-agrees, render_unresolved}
use remnawave_subpage_proxy.Tmpl.Substitution.{render_substitutes}
use remnawave_subpage_proxy.Panel.Info.{Info}
use remnawave_subpage_proxy.Subinfo.UserInfo.{
  UserInfo, used, parse_user_info, force_unlimited_total,
}
use remnawave_subpage_proxy.Subinfo.UserInfo.Fields.{IsParsed, parse_user_info-IsParsed}
use remnawave_subpage_proxy.Subinfo.Catalog.{name_of, days_left, catalog}
use remnawave_subpage_proxy.Subinfo.Vars.{
  Source, Resolver, format_bytes, percent_used, lookup_var, needs_panel,
}
use remnawave_subpage_proxy.Subinfo.Vars.Formats.{format_bytes-total}
use remnawave_subpage_proxy.Subinfo.Vars.PanelFree.{IsComplete, with_panel, render-panel_free}
use remnawave_subpage_proxy.Tests.Data.{plain_case, whole_numbers}

program : Unit {0}
unfolding bytes_eq has_byte contains trim_space split cut join to_lower to_upper equal_fold
    parse_int runes concat pieces any_hole names truncate render default_of parse_modifiers
    apply_modifiers parse_user_info force_unlimited_total lookup
program = tt

abbrev template : Bytes
template = codes "Used {TRAFFIC_USED|trim}, {X|default:none|upper} {x}"

abbrev one_value : Lookup
one_value name = if bytes_eq name (codes "TRAFFIC_USED") then some (codes " 1 GB ") else none

rendered :
    render plain_case template
      (λ n. if bytes_eq n (codes "TRAFFIC_USED") then some (codes " 1 GB ") else none)
      keep
    ≡ codes "Used 1 GB, NONE {x}"
unfolding program
rendered = refl

names_of_template : names template ≡ codes "TRAFFIC_USED" ∷ codes "X" ∷ []
unfolding program
names_of_template = refl

cut_short : truncate (codes "abcdef") (pos 4) ≡ codes "abc" ++ 0xE2 ∷ 0x80 ∷ 0xA6 ∷ []
unfolding program
cut_short = refl

forced :
    force_unlimited_total (codes "upload=1; Total=500;expire=7")
    ≡ codes "upload=1; total=0; expire=7"
unfolding program
forced = refl

user_name : All (λ b. is_name_byte b ≡ true) (codes "TRAFFIC_USED")
user_name = ground arith

render_substitutes_example :
    render plain_case (codes "Used {TRAFFIC_USED} of it") one_value keep
    ≡ codes "Used " ++ (codes " 1 GB " ++ render plain_case (codes " of it") one_value keep)
unfolding program
render_substitutes_example =
    render_substitutes plain_case one_value keep (codes "Used ") (codes "TRAFFIC_USED")
      (codes " 1 GB ") (codes " of it") refl user_name refl refl

-- It differs at a name that the template does not use.
abbrev two_values : Lookup
two_values name = if bytes_eq name (codes "OTHER") then some (codes "z") else one_value name

agree : All (λ n. one_value n ≡ two_values n) (names template)
unfolding names_of_template program
agree = (refl, (refl, tt))

render-agrees_example :
    render plain_case template one_value keep ≡ render plain_case template two_values keep
render-agrees_example = render-agrees plain_case template one_value two_values keep agree

no_defaults : AllHoles (HasNoDefault plain_case) (pieces (codes "a {B|trim}"))
unfolding program
no_defaults = (refl, tt)

render_unresolved_example :
    (render plain_case (codes "a {B|trim}") (λ _. none) keep ≡ codes "a {B|trim}")
    × (render plain_case (codes "a {B|trim}") (λ _. none) blank ≡ codes "a ")
unfolding program
render_unresolved_example = render_unresolved plain_case (codes "a {B|trim}") no_defaults

abbrev traffic_header : Bytes
traffic_header = codes "Upload=5; total=x;upload = 7"

parse_user_info-IsParsed_example :
    IsParsed plain_case traffic_header (parse_user_info plain_case traffic_header)
parse_user_info-IsParsed_example = parse_user_info-IsParsed plain_case traffic_header

abbrev quota : UserInfo
quota = record { upload = pos 5; download = pos 7; total = pos 100; expire = pos 1000 }

format_bytes-total_example :
    is_some (format_bytes whole_numbers (pos 5) default_file.traffic) ≡ true
format_bytes-total_example = format_bytes-total whole_numbers (pos 5) default_file.traffic

two_percent : percent_used whole_numbers (pos 400) (pos 200) ≡ some (pos 100)
unfolding percent_used
two_percent = refl

abbrev source : Source
source = record {
  short_uuid = codes "abc";
  client_type = [];
  user_agent = [];
  client_ip = [];
  subscription_url = [];
  user_info = some quota;
  panel = none;
}

abbrev resolver : Resolver
resolver = record {
  traffic = default_file.traffic;
  datetime = default_file.datetime;
  bar = default_file.progress_bar;
  custom = [];
}

abbrev answer : Info
answer = record {
  user = record {
    short_uuid = codes "abc";
    username = codes "ann";
    days_left = pos 3;
    traffic_used = codes "1 KiB";
    traffic_limit = codes "2 KiB";
    lifetime_traffic_used = [];
    traffic_used_bytes = codes "1024";
    traffic_limit_bytes = codes "2048";
    lifetime_traffic_used_bytes = [];
    traffic_limit_strategy = [];
    expires_at = [];
    user_status = codes "ACTIVE";
    is_active = true;
  };
  is_found = true;
  subscription_url = [];
}

quota-IsComplete : IsComplete quota
unfolding used add_int64
quota-IsComplete = record { counted = refl; limited = refl; dated = refl }

abbrev usage : Bytes
usage = codes "{TRAFFIC_USED}"

not_days : All (λ t. name_of t ≢ some days_left) (names usage)
unfolding program name_of
not_days = (cc, tt)

no_lookup : needs_panel resolver (names usage) true ≡ false
unfolding program name_of needs_panel catalog
no_lookup = refl

render-panel_free_example :
    render plain_case usage
      (lookup_var whole_numbers resolver (with_panel source (some answer)))
      keep
    ≡ render plain_case usage (lookup_var whole_numbers resolver (with_panel source none)) keep
render-panel_free_example =
    render-panel_free whole_numbers resolver source quota quota-IsComplete plain_case usage keep
      (some answer) not_days no_lookup
