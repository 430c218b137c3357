-- ===== src/Tests/Rewrite.antt =====
-- The header rewrite at a concrete response.
use remnawave_subpage_proxy.Prelude.{arith, ◌≡◌, refl, inr, true, false, [], ◌∷◌, none, some}
use remnawave_subpage_proxy.Prelude.Int.{pos}
use remnawave_subpage_proxy.Prelude.Text.{
  Bytes, codes, bytes_eq, has_byte, contains, trim_space, split, cut, has_prefix,
}
use remnawave_subpage_proxy.Prelude.Text.Utf8.{runes, is_valid}
use remnawave_subpage_proxy.Prelude.Text.Case.{equal_fold, to_lower, to_upper}
use remnawave_subpage_proxy.Prelude.Text.Decimal.{parse_int}
use remnawave_subpage_proxy.Prelude.Assoc.{lookup, remove}
use remnawave_subpage_proxy.Config.File.{Encoding, HeaderRule, Condition, File, default_file}
use remnawave_subpage_proxy.Tmpl.{
  Lookup, render, names, pieces, apply_modifiers, parse_modifiers, truncate, has_placeholder,
}
use remnawave_subpage_proxy.B64.{plausible, decode}
use remnawave_subpage_proxy.Subinfo.UserInfo.{parse_user_info}
use remnawave_subpage_proxy.Subinfo.Vars.{
  new_resolver, lookup_var, limit_of, needs_panel, resolve, resolve_local, traffic_counters,
  header_counters, fill_counters,
}
use remnawave_subpage_proxy.Subinfo.Catalog.{catalog, name_of}
use remnawave_subpage_proxy.Rewrite.Codec.{
  decode_any, plain, base64, base64_prefixed, is_text, decode_base64, encode,
}
use remnawave_subpage_proxy.Rewrite.Codec.RoundTrip.{IsEncoded, decode_base64-encode}
use remnawave_subpage_proxy.Rewrite.Header.{Header, canonical, first_value, get, set, del}
use remnawave_subpage_proxy.Rewrite.Engine.{
  Request, Engine, Candidate, new, collect, candidate_for, unwrap, override_form, rule_candidate,
  rule_candidates, matches_request,
}
use remnawave_subpage_proxy.Rewrite.Engine.Loop.{
  apply_loop, apply, apply_candidates, forced, holds, user_info_from, needed, all_names,
  written_value, fetch_info, source_for, write, matches_traffic_limit, matches_status,
  with_original, asks,
}
use remnawave_subpage_proxy.Rewrite.Engine.Frame.{outcome, Avoids, apply_loop-first, apply-Avoids}
use remnawave_subpage_proxy.Tests.Data.{plain_case, whole_numbers, one_text}

program : Unit {0}
unfolding bytes_eq has_byte contains trim_space split cut to_lower to_upper equal_fold parse_int
    runes canonical lookup remove apply new render user_info_from apply_candidates forced collect
    first_value decode_base64 get is_text parse_user_info set del apply_loop holds needed all_names
    written_value fetch_info source_for new_resolver lookup_var limit_of needs_panel encode
    plausible decode names decode_any has_prefix is_valid pieces apply_modifiers parse_modifiers
    truncate catalog resolve name_of write candidate_for matches_traffic_limit matches_status unwrap
    override_form rule_candidate with_original asks rule_candidates matches_request traffic_counters
    header_counters fill_counters has_placeholder resolve_local
program = tt

abbrev always : Condition
always = record {
  client_types = [];
  user_statuses = [];
  user_agent = [];
  exists = none;
  has_traffic_limit = none;
  user_agent_re = none;
}

abbrev title_rule : HeaderRule
title_rule = record {
  name = codes "profile-title";
  template = some (codes "{SHORT_UUID}!");
  encode = Encoding.plain;
  remove = false;
  when = always;
  max_length = pos 0;
}

abbrev limited_rule : HeaderRule
limited_rule = record title_rule {
  template = some (codes "limited");
  when = record always { has_traffic_limit = some true };
}

abbrev file : File
file = record default_file { headers = limited_rule ∷ title_rule ∷ [] }

abbrev engine : Engine
engine = new file none false false

abbrev request : Request
request = record {
  short_uuid = codes "abc";
  client_type = [];
  user_agent = [];
  client_ip = [];
  subscription_url = [];
}

abbrev response : Header
response = (codes "Etag", codes "x" ∷ []) ∷ (codes "Profile-Title", codes "old" ∷ []) ∷ []

rewritten :
    (apply plain_case one_text whole_numbers (λ h. h) engine request response).header
    ≡ (codes "Profile-Title", codes "abc!" ∷ []) ∷ (codes "Etag", codes "x" ∷ []) ∷ []
unfolding program
rewritten = refl

abbrev candidate : HeaderRule → Bytes → Candidate
candidate rule source = record {
  name = rule.name;
  source = source;
  form = plain;
  remove = false;
  rule = some rule;
  original = none;
}

abbrev limited : Candidate
limited = candidate limited_rule (codes "limited")

abbrev titled : Candidate
titled = candidate title_rule (codes "title")

abbrev nothing : Lookup
nothing name = none

titled-holds : holds plain_case one_text whole_numbers none none titled ≡ true
unfolding holds
titled-holds = refl

limited_fails : holds plain_case one_text whole_numbers none none limited ≡ false
unfolding holds
limited_fails = refl

apply_loop-first_example :
    lookup (canonical titled.name) (
      apply_loop plain_case one_text whole_numbers engine nothing none none
        (limited ∷ titled ∷ limited ∷ [])
        []
        response)
    ≡ outcome plain_case one_text whole_numbers engine nothing none none titled
unfolding program
apply_loop-first_example =
    apply_loop-first plain_case one_text whole_numbers engine nothing none none (limited ∷ [])
      titled (limited ∷ []) [] response (refl, (refl, tt)) refl (inr limited_fails, tt) titled-holds

etag_avoided : Avoids (codes "Etag") (limited ∷ titled ∷ [])
unfolding program
etag_avoided = (refl, (refl, tt))

avoided : Avoids (codes "Etag") (
    collect plain_case one_text whole_numbers
      (λ h. h)
      engine
      (forced plain_case one_text whole_numbers engine
        (user_info_from plain_case one_text whole_numbers response)
        response)
      request)
unfolding program
avoided = (refl, (refl, tt))

apply-Avoids_example :
    lookup
      (codes "Etag")
      (apply plain_case one_text whole_numbers (λ h. h) engine request response).header
    ≡ lookup (codes "Etag") response
unfolding has_byte canonical bytes_eq
apply-Avoids_example =
    apply-Avoids plain_case one_text whole_numbers (λ h. h) engine request response (codes "Etag")
      refl avoided

hi_is_text : is_text (codes "hi") ≡ true
unfolding program
hi_is_text = refl

hi-IsEncoded : IsEncoded one_text (codes "hi")
hi-IsEncoded = record { digits = ground arith; size = omega arith; decoded = refl }

decode_base64-encode_example :
    (decode_base64 one_text (encode one_text (codes "hi") base64) ≡ some (codes "hi", base64))
    × (decode_base64 one_text (encode one_text (codes "hi") base64_prefixed)
        ≡ some (codes "hi", base64_prefixed))
decode_base64-encode_example = decode_base64-encode one_text (codes "hi") hi_is_text hi-IsEncoded
