-- ===== src/Rewrite/Engine/Loop.antt =====
-- internal/rewrite/engine.go: `Apply` and `Render`, over the candidates that `collect` finds.
use remnawave_subpage_proxy.Prelude.{
  Bool, true, false, not, ◌&&◌, ◌||◌, List, [], ◌∷◌, ◌++◌, Option, none, some, is_some, any,
  if◌then◌else◌,
}
use remnawave_subpage_proxy.Prelude.Int.{ℤ, pos, is_neg, ltb_ℤ}
use remnawave_subpage_proxy.Prelude.Text.{Bytes, bytes_eq, is_empty, contains}
use remnawave_subpage_proxy.Prelude.Text.Case.{Unicode, to_upper}
use remnawave_subpage_proxy.Config.File.{HeaderRule, no_texts}
use remnawave_subpage_proxy.Panel.Info.{Info}
use remnawave_subpage_proxy.Subinfo.UserInfo.{
  UserInfo, user_info_header, parse_user_info, force_unlimited_total,
}
use remnawave_subpage_proxy.Subinfo.Floats.{Platform}
use remnawave_subpage_proxy.Subinfo.Vars.{Source, lookup_var, limit_of, needs_panel}
use remnawave_subpage_proxy.Tmpl.{Lookup, names, render, truncate}
use remnawave_subpage_proxy.B64.{Base64}
use remnawave_subpage_proxy.Rewrite.Codec.{encode}
use remnawave_subpage_proxy.Rewrite.Header.{Header, canonical, get, set, del}
use remnawave_subpage_proxy.Rewrite.Engine.{
  Request, Engine, Fetcher, Candidate, original_value_name, collect, same_bool,
}

abbrev pub has_statuses : Option HeaderRule → Bool
has_statuses none = false
has_statuses (some rule) = not (no_texts rule.when.user_statuses)

abbrev pub has_limit_condition : Option HeaderRule → Bool
has_limit_condition none = false
has_limit_condition (some rule) = is_some rule.when.has_traffic_limit

-- What a candidate adds to the names in the loop of `Apply` that counts what is needed.
unfoldable pub candidate_names : Candidate → List Bytes
candidate_names c =
    let used = names c.source in
    if c.remove then [] else elim c.original [
      | none ↦ used
      | some text ↦ if contains used original_value_name then used ++ names text else used
    ]

unfoldable pub all_names : List Candidate → List Bytes
unfolding candidate_names
all_names [] = []
all_names (c ∷ cs) = candidate_names c ++ all_names cs

-- `limit >= 0` in the header
abbrev pub limit_in_header : Option UserInfo → Bool
limit_in_header none = false
limit_in_header (some i) = not (is_neg i.total)

unfoldable pub source_for : Request → Option UserInfo → Option Info → Source
source_for rq user_info panel = record {
  short_uuid = rq.short_uuid;
  client_type = rq.client_type;
  user_agent = rq.user_agent;
  client_ip = rq.client_ip;
  subscription_url = rq.subscription_url;
  user_info = user_info;
  panel = panel;
}

-- `fetchInfo` calls the panel exactly where this holds.
unfoldable pub asks : Engine → Request → Bool → Bool
asks e rq needed = is_some e.fetcher && not (is_empty rq.short_uuid) && (needed || e.always_fetch)

abbrev pub ask : Option Fetcher → Bytes → Bytes → Option Info
ask none short_uuid ip = none
ask (some f) short_uuid ip = f short_uuid ip

unfoldable pub fetch_info : Engine → Request → Bool → Option Info
unfolding asks
fetch_info e rq needed =
    if asks e rq needed
    then ask e.fetcher rq.short_uuid (if e.forward_real_ip then rq.client_ip else [])
    else none

-- The header after `Apply`, and whether the panel was called.
pub record Applied : Type 0 where
  pub header : Header
  pub asked : Bool

abbrev pub truncated : Option HeaderRule → Bytes → Bytes
truncated none text = text
truncated (some rule) text =
    if ltb_ℤ (pos 0) rule.max_length then truncate text rule.max_length else text

module _ (u : Unicode) (b : Base64) (p : Platform) where
  unfoldable pub user_info_from : Header → Option UserInfo
  user_info_from h =
      let r = parse_user_info u (get h user_info_header) in if r.usable then some r.info else none

  unfoldable pub matches_status : Option HeaderRule → Option Info → Bool
  matches_status none info = true
  matches_status (some rule) none = no_texts rule.when.user_statuses
  matches_status (some rule) (some info) =
      no_texts rule.when.user_statuses
      || contains rule.when.user_statuses (to_upper u info.user.user_status)

  -- A limit that is not known is `none`.
  unfoldable pub matches_traffic_limit : Option HeaderRule → Option ℤ → Bool
  matches_traffic_limit none limit = true
  matches_traffic_limit (some rule) limit = elim rule.when.has_traffic_limit [
    | none ↦ true
    | some want ↦ elim limit [ none ↦ false | some n ↦ same_bool (ltb_ℤ (pos 0) n) want ]
  ]

  -- `withOriginal`
  unfoldable pub with_original : Engine → Lookup → Candidate → Lookup
  with_original e base c name =
      if not (bytes_eq name original_value_name)
      then base name
      else elim c.original [ none ↦ none | some text ↦ some (render u text base e.unknown) ]

  -- The value that the loop of `Apply` writes.
  unfoldable pub written_value : Engine → Lookup → Candidate → Bytes
  unfolding with_original
  written_value e base c =
      encode b (truncated c.rule (render u c.source (with_original e base c) e.unknown)) c.form

  -- What the conditions of the loop of `Apply` look at.
  unfoldable pub holds : Option Info → Option ℤ → Candidate → Bool
  unfolding matches_status matches_traffic_limit
  holds info limit c = matches_status c.rule info && matches_traffic_limit c.rule limit

  unfoldable pub write : Engine → Lookup → Candidate → Header → Header
  write e base c h = if c.remove then del h c.name else set h c.name (written_value e base c)

  -- The loop of `Apply`: `done` are the keys written so far.
  unfoldable pub apply_loop :
      Engine → Lookup → Option Info → Option ℤ → List Candidate → List Bytes → Header → Header
  apply_loop e base info limit [] done h = h
  apply_loop e base info limit (c ∷ cs) done h =
      let key = canonical c.name in
      let skip = apply_loop e base info limit cs done h in
      let next = apply_loop e base info limit cs (key ∷ done) (write e base c h) in
      if contains done key || not (holds info limit c) then skip else next

  -- The header behind the rewrite for `force_unlimited`.
  unfoldable pub forced : Engine → Option UserInfo → Header → Header
  forced e none h = h
  forced e (some i) h =
      if e.force_unlimited
      then set h user_info_header (force_unlimited_total (get h user_info_header))
      else h

  -- Whether the candidates need the panel.
  unfoldable pub needed : Engine → Option UserInfo → List Candidate → Bool
  needed e user_info cs =
      any (λ (c : Candidate). has_statuses c.rule) cs
      || any (λ (c : Candidate). has_limit_condition c.rule) cs && not (limit_in_header user_info)
      || needs_panel e.resolver (all_names cs) (is_some user_info)

  -- `Apply` behind `collect`.
  unfoldable pub apply_candidates :
      Engine → Request → Option UserInfo → List Candidate → Header → Applied
  apply_candidates e rq user_info [] h = record { header = h; asked = false }
  apply_candidates e rq user_info (c ∷ cs) h =
      let need = needed e user_info (c ∷ cs) in
      let info = fetch_info e rq need in
      let src = source_for rq user_info info in
      record {
        header = apply_loop e (lookup_var p e.resolver src) info (limit_of src) (c ∷ cs) [] h;
        asked = asks e rq need;
      }

  module _ (order : Header → Header) where
    unfoldable pub apply_with : Engine → Request → Option UserInfo → Header → Applied
    unfolding apply_candidates forced
    apply_with e rq user_info h =
        if is_empty rq.short_uuid && not (is_some user_info)
        then record { header = h; asked = false }
        else let h' = forced e user_info h in
          apply_candidates e rq user_info (collect u b p order e h' rq) h'

    unfoldable pub apply : Engine → Request → Header → Applied
    unfolding apply_with user_info_from
    apply e rq h = apply_with e rq (user_info_from h) h

  -- `Render`
  unfoldable pub render_template : Engine → Request → Header → Bytes → Bytes
  unfolding fetch_info source_for user_info_from
  render_template e rq h template =
      let user_info = user_info_from h in
      let info = fetch_info e rq (needs_panel e.resolver (names template) (is_some user_info)) in
      render u template (lookup_var p e.resolver (source_for rq user_info info)) e.unknown
