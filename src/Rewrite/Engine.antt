-- ===== src/Rewrite/Engine.antt =====
-- internal/rewrite/engine.go: which headers are rewritten, and to what.
pub mod Loop
pub mod Frame
use remnawave_subpage_proxy.Prelude.{
  ℕ, Bool, true, false, not, ◌&&◌, ◌||◌, List, [], ◌∷◌, ◌++◌, Option, none, some, is_some,
  if◌then◌else◌, map,
}
use remnawave_subpage_proxy.Prelude.Int.{ℤ, pos, is_neg, ltb_ℤ}
use remnawave_subpage_proxy.Prelude.Text.{Bytes, codes, bytes_eq, is_empty, contains}
use remnawave_subpage_proxy.Prelude.Text.Case.{Unicode, to_lower, to_upper}
use remnawave_subpage_proxy.Config.File.{
  Encoding, HeaderRule, Condition, TemplateOpts, UnknownPolicy, File, no_texts,
}
use remnawave_subpage_proxy.Panel.Info.{Info}
use remnawave_subpage_proxy.Subinfo.UserInfo.{
  UserInfo, user_info_header, parse_user_info, force_unlimited_total,
}
use remnawave_subpage_proxy.Subinfo.Floats.{Platform}
use remnawave_subpage_proxy.Subinfo.Vars.{
  Source, Resolver, new_resolver, lookup_var, limit_of, needs_panel,
}
use remnawave_subpage_proxy.Tmpl
use remnawave_subpage_proxy.Tmpl.{Unknown, Lookup, names, has_placeholder, render, truncate}
use remnawave_subpage_proxy.B64.{Base64}
use remnawave_subpage_proxy.Rewrite.Codec.{
  Form, plain, base64, base64_prefixed, decode_base64, encode,
}
use remnawave_subpage_proxy.Rewrite.Header.{Header, canonical, first_value, get, set, del}

pub record Request : Type 0 where
  pub short_uuid : Bytes
  pub client_type : Bytes
  pub user_agent : Bytes
  pub client_ip : Bytes
  pub subscription_url : Bytes

-- The panel's answer to a short UUID and a client address; every error is `none`.
abbrev pub Fetcher : Type 0
Fetcher = Bytes → Bytes → Option Info

pub record Engine : Type 0 where
  pub rules : List HeaderRule
  pub opts : TemplateOpts
  pub resolver : Resolver
  pub force_unlimited : Bool
  pub fetcher : Option Fetcher
  pub always_fetch : Bool
  pub forward_real_ip : Bool
  pub unknown : Unknown

abbrev pub unknown_of : UnknownPolicy → Unknown
unknown_of UnknownPolicy.blank = Unknown.blank
unknown_of UnknownPolicy.keep = Unknown.keep
unknown_of UnknownPolicy.unset = Unknown.keep

unfoldable pub new : File → Option Fetcher → Bool → Bool → Engine
new file fetcher always_fetch forward_real_ip = record {
  rules = file.headers;
  opts = file.template;
  resolver = new_resolver file;
  force_unlimited = file.traffic.force_unlimited;
  fetcher = fetcher;
  always_fetch = always_fetch;
  forward_real_ip = forward_real_ip;
  unknown = unknown_of file.template.unknown;
}

abbrev pub no_rules : List HeaderRule → Bool
no_rules [] = true
no_rules (_ ∷ _) = false

unfoldable pub enabled : Engine → Bool
enabled e = not (no_rules e.rules) || e.opts.scan_all_headers || e.force_unlimited

-- `original` is `none` where the source has `hasOriginal` false.
pub record Candidate : Type 0 where
  pub name : Bytes
  pub source : Bytes
  pub form : Form
  pub remove : Bool
  pub rule : Option HeaderRule
  pub original : Option Bytes

abbrev pub original_value_name : Bytes
original_value_name = codes "ORIGINAL_VALUE"

unfoldable pub override_form : Form → Encoding → Form
override_form detected Encoding.plain = plain
override_form detected Encoding.base64 = base64
override_form detected Encoding.base64_prefixed = base64_prefixed
override_form detected Encoding.auto = detected
override_form detected Encoding.unset = detected

abbrev pub encode_of : Option HeaderRule → Encoding
encode_of none = Encoding.auto
encode_of (some rule) = rule.encode

abbrev pub template_of : Option HeaderRule → Option Bytes
template_of none = none
template_of (some rule) = rule.template

-- What `candidateFor` makes of a current value: the text as placeholders see it, the form that was
-- detected, and whether the text was unwrapped.
pub record Unwrapped : Type 0 where
  pub text : Bytes
  pub form : Form
  pub unwrapped : Bool

abbrev pub same_bool : Bool → Bool → Bool
same_bool true b = b
same_bool false b = not b

abbrev pub passes_exists : Option Bool → Bool → Bool
passes_exists none present = true
passes_exists (some want) present = same_bool want present

abbrev pub passes_regexp : Option (Bytes → Bool) → Bytes → Bool
passes_regexp none agent = true
passes_regexp (some re) agent = re agent

module _ (u : Unicode) (b : Base64) (p : Platform) where
  unfoldable pub unwrap : Bool → Bytes → Unwrapped
  unwrap decode current = elim (decode_base64 b current) [
    | none ↦ record { text = current; form = plain; unwrapped = false }
    | some (decoded, detected) ↦
        if decode
        then record { text = decoded; form = detected; unwrapped = true }
        else record { text = current; form = detected; unwrapped = false }
  ]

  -- The end of `candidateFor`, for a header that is present.
  abbrev pub present_candidate : Bytes → Option HeaderRule → Unwrapped → Option Candidate
  present_candidate name rule w = elim (template_of rule) [
    | some template ↦ some (record {
      name = name;
      source = template;
      form = override_form w.form (encode_of rule);
      remove = false;
      rule = rule;
      original = some w.text;
    })
    | none ↦
        if has_placeholder w.text
        then some (record {
          name = name;
          source = w.text;
          form = override_form (if w.unwrapped then w.form else plain) (encode_of rule);
          remove = false;
          rule = rule;
          original = some w.text;
        })
        else none
  ]

  -- `candidateFor`; an absent header is `none`.
  unfoldable pub candidate_for :
      TemplateOpts → Bytes → Option Bytes → Option HeaderRule → Option Candidate
  unfolding unwrap override_form
  candidate_for opts name (some current) rule =
      present_candidate name rule (unwrap opts.decode_base64 current)
  candidate_for opts name none rule = elim (template_of rule) [
    | none ↦ none
    | some template ↦ some (record {
      name = name;
      source = template;
      form = override_form plain (encode_of rule);
      remove = false;
      rule = rule;
      original = none;
    })
  ]

  unfoldable pub matches_request : Condition → Request → Bool → Bool
  matches_request cond rq present =
      passes_exists cond.exists present
      && (no_texts cond.client_types || contains cond.client_types (to_lower u rq.client_type))
      && passes_regexp cond.user_agent_re rq.user_agent

  abbrev pub removal : HeaderRule → Candidate
  removal rule = record {
    name = rule.name;
    source = [];
    form = plain;
    remove = true;
    rule = some rule;
    original = none;
  }

  -- The candidate of one rule, if it has one.
  unfoldable pub rule_candidate : TemplateOpts → Header → Request → HeaderRule → Option Candidate
  unfolding candidate_for matches_request
  rule_candidate opts h rq rule =
      let current = first_value h rule.name in
      if not (matches_request rule.when rq (is_some current))
      then none
      else if rule.remove
      then (if is_some current then some (removal rule) else none)
      else candidate_for opts rule.name current (some rule)

  abbrev pub onto : Option Candidate → List Candidate → List Candidate
  onto none cs = cs
  onto (some c) cs = c ∷ cs

  unfoldable pub rule_candidates :
      TemplateOpts → Header → Request → List HeaderRule → List Candidate
  unfolding rule_candidate
  rule_candidates opts h rq [] = []
  rule_candidates opts h rq (rule ∷ rules) =
      onto (rule_candidate opts h rq rule) (rule_candidates opts h rq rules)

  unfoldable pub scan_candidate : TemplateOpts → List Bytes → Bytes → List Bytes → Option Candidate
  unfolding candidate_for
  scan_candidate opts handled key [] = none
  scan_candidate opts handled key (v ∷ vs) =
      if contains handled key then none else candidate_for opts key (some v) none

  -- The loop of `collect` over the headers, in the order in which they are visited.
  unfoldable pub scan_candidates : TemplateOpts → List Bytes → Header → List Candidate
  unfolding scan_candidate
  scan_candidates opts handled [] = []
  scan_candidates opts handled ((key, values) ∷ rest) =
      onto (scan_candidate opts handled key values) (scan_candidates opts handled rest)

  abbrev pub handled_by : List HeaderRule → List Bytes
  handled_by rules = map (λ (rule : HeaderRule). canonical rule.name) rules

  module _ (order : Header → Header) where
    unfoldable pub collect : Engine → Header → Request → List Candidate
    unfolding rule_candidates scan_candidates
    collect e h rq =
        rule_candidates e.opts h rq e.rules
        ++ (if e.opts.scan_all_headers
            then scan_candidates e.opts (handled_by e.rules) (order h)
            else [])
