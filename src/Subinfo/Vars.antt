-- ===== src/Subinfo/Vars.antt =====
-- internal/subinfo/vars.go: the values of the placeholders.
pub mod Formats
pub mod PanelFree
use remnawave_subpage_proxy.Prelude.{
  ℕ, zero, suc, ◌+◌, ◌-◌, Bool, true, false, not, ◌&&◌, ◌||◌, List, [], ◌∷◌, ◌++◌, Option, none,
  some, ltb, leb, if◌then◌else◌, length, get_elem?, is_some,
}
use remnawave_subpage_proxy.Prelude.Int.{ℤ, pos, negsuc, pos_part, sub_ℕ, is_neg, ltb_ℤ}
use remnawave_subpage_proxy.Prelude.Text.{Bytes, codes}
use remnawave_subpage_proxy.Prelude.Assoc.{lookup}
use remnawave_subpage_proxy.Config.File.{TrafficFormat, DateTimeFormat, ProgressBar, File, zone_of}
use remnawave_subpage_proxy.Panel.Info.{
  Info, User, used_bytes, limit_bytes, lifetime_used_bytes, expiry,
}
use remnawave_subpage_proxy.Subinfo.UserInfo.{UserInfo, used}
use remnawave_subpage_proxy.Subinfo.Floats.{Platform}
use remnawave_subpage_proxy.Subinfo.Catalog.{
  Origin, origin_local, origin_traffic, origin_panel, Name, name_of, catalog, traffic_used,
  traffic_used_bytes, traffic_limit, traffic_limit_bytes, traffic_used_in_limit,
  traffic_limit_value, traffic_unit, traffic_available, traffic_available_bytes,
  traffic_used_percent, traffic_left_percent, progress_bar, traffic_upload, traffic_download,
  days_left, expires_at, expires_at_date, expires_at_time, expires_at_unix, username, user_status,
  is_active, traffic_limit_strategy, lifetime_traffic_used, original_value, short_uuid,
  subscription_url, client_type, user_agent, client_ip, now, date, time,
}

pub record Source : Type 0 where
  pub short_uuid : Bytes
  pub client_type : Bytes
  pub user_agent : Bytes
  pub client_ip : Bytes
  pub subscription_url : Bytes
  pub user_info : Option UserInfo
  pub panel : Option Info

pub record Resolver : Type 0 where
  pub traffic : TrafficFormat
  pub datetime : DateTimeFormat
  pub bar : ProgressBar
  pub custom : List (Bytes × Bytes)

unfoldable pub new_resolver : File → Resolver
new_resolver f = record {
  traffic = f.traffic;
  datetime = f.datetime;
  bar = f.progress_bar;
  custom = f.vars;
}

-- `-1`
abbrev pub unknown : ℤ
unknown = negsuc 0

abbrev pub or_unknown : ℤ → ℤ → ℤ
or_unknown n other = if is_neg n then other else n

pub record Counters : Type 0 where
  pub used : ℤ
  pub limit : ℤ
  pub known : Bool

abbrev pub no_counters : Counters
no_counters = record { used = unknown; limit = unknown; known = false }

-- The first half of `trafficCounters`: what the response header holds.
unfoldable pub header_counters : Option UserInfo → Counters
header_counters none = no_counters
header_counters (some i) =
    if not (is_neg (used i)) || not (is_neg i.total)
    then record { used = used i; limit = i.total; known = true }
    else no_counters

-- The second half: the panel fills what the header left out.
unfoldable pub fill_counters : Option Info → Counters → Counters
fill_counters none c = c
fill_counters (some p) c =
    let u = or_unknown c.used (used_bytes p.user) in
    let l = or_unknown c.limit (limit_bytes p.user) in
    record { used = u; limit = l; known = c.known || not (is_neg u) || not (is_neg l) }

unfoldable pub traffic_counters : Source → Counters
unfolding header_counters fill_counters
traffic_counters src = fill_counters src.panel (header_counters src.user_info)

-- `Limit`
unfoldable pub limit_of : Source → Option ℤ
limit_of src =
    let c = traffic_counters src in if c.known && not (is_neg c.limit) then some c.limit else none

-- `max(0, n)`
abbrev pub at_least_zero : ℤ → ℤ
at_least_zero n = if is_neg n then pos 0 else n

unfoldable pub available : ℤ → ℤ → ℤ
available u l = if is_neg u || is_neg l then unknown else pos (pos_part l - pos_part u)

unfoldable pub clamp : ℤ → ℤ → ℤ
clamp n top = let m = at_least_zero n in if ltb_ℤ top m then top else m

abbrev pub non_empty : Bytes → Option Bytes
non_empty [] = none
non_empty (c ∷ s) = some (c ∷ s)

abbrev pub decimal_units : List Bytes
decimal_units =
    codes "B" ∷ codes "KB" ∷ codes "MB" ∷ codes "GB" ∷ codes "TB" ∷ codes "PB" ∷ codes "EB" ∷ []

abbrev pub binary_units : List Bytes
binary_units =
    codes "B"
    ∷ codes "KiB"
    ∷ codes "MiB"
    ∷ codes "GiB"
    ∷ codes "TiB"
    ∷ codes "PiB"
    ∷ codes "EiB"
    ∷ []

abbrev pub or_default : List Bytes → List Bytes → List Bytes
or_default [] default = default
or_default (u ∷ us) default = u ∷ us

unfoldable pub units_of : TrafficFormat → List Bytes × ℕ
units_of f = (
  or_default f.units (if f.binary_units then binary_units else decimal_units),
  if f.binary_units then 1024 else 1000,
)

-- `units[idx]`; an index out of range, where Go panics, is `none`.
abbrev pub unit_at : List Bytes → ℕ → Option Bytes
unit_at = get_elem?

-- `nameless` is the value of a name that is not resolved.
abbrev pub boolean : Bool → Bytes
boolean true = codes "true"
boolean false = codes "false"

-- `strings.Repeat`
unfoldable pub repeat : Bytes → ℕ → Bytes
repeat s zero = []
repeat s (suc n) = s ++ repeat s n

module _ (p : Platform) where
  open p use {
    Float, float64, div, mul, pow, ge, round, ceil, to_int, format_float, format_int, Time, now,
    after, hours_until, of_unix, to_unix, parse_rfc3339, format_time,
  }

  -- The loop of `unitIndex`: at most as many rounds as there are units left.
  unfoldable pub unit_rounds : Float → Float → ℕ → ℕ → ℕ
  unit_rounds value base zero idx = idx
  unit_rounds value base (suc left) idx =
      let next = unit_rounds (div value base) base left (suc idx) in
      if ge value base then next else idx

  unfoldable pub unit_index : ℤ → ℕ → ℕ → ℕ
  unfolding unit_rounds
  unit_index n base max_idx = unit_rounds (float64 n) (float64 (pos base)) max_idx 0

  unfoldable pub format_scaled : ℤ → ℕ → ℕ → ℤ → Bytes
  format_scaled n zero base decimals = format_int n
  format_scaled n (suc idx) base decimals =
      format_float (div (float64 n) (pow (float64 (pos base)) (float64 (pos (suc idx))))) decimals

  -- `FormatBytes`, and `none` where it would index out of the units.
  unfoldable pub format_bytes : ℤ → TrafficFormat → Option Bytes
  unfolding unit_index format_scaled units_of
  format_bytes n f =
      let units = (units_of f).0 in
      let base = (units_of f).1 in
      let idx = unit_index n base (length units - 1) in
      elim (unit_at units idx) [
        | none ↦ none
        | some unit ↦ some (format_scaled n idx base f.decimals ++ codes " " ++ unit)
      ]

  unfoldable pub percent_used : ℤ → ℤ → Option ℤ
  unfolding clamp
  percent_used u l =
      if is_neg u || is_neg l
      then none
      else if not (ltb_ℤ (pos 0) l)
      then some (pos 0)
      else some
          (clamp (to_int (round (mul (div (float64 u) (float64 l)) (float64 (pos 100))))) (pos 100))

  unfoldable pub days_until : Time → Time → ℤ
  days_until at expires =
      if not (after expires at)
      then pos 0
      else to_int (ceil (div (hours_until at expires) (float64 (pos 24))))

  -- How much of the bar is filled, out of its width.
  unfoldable pub filled_of : ℤ → ℤ → ℤ
  unfolding clamp
  filled_of width pct =
      clamp (to_int (round (div (mul (float64 width) (float64 pct)) (float64 (pos 100))))) width

  unfoldable pub render_bar : ProgressBar → ℤ → Bytes
  unfolding repeat filled_of
  render_bar bar pct =
      if not (ltb_ℤ (pos 0) bar.width)
      then []
      else let filled = pos_part (filled_of bar.width pct) in
        repeat bar.filled filled ++ repeat bar.empty (pos_part bar.width - filled)

  unfoldable pub panel_expiry : Option Info → Option Time
  panel_expiry none = none
  panel_expiry (some q) = expiry parse_rfc3339 q.user.expires_at

  -- The method `expiry` of the resolver.
  unfoldable pub source_expiry : Source → Option Time
  source_expiry src = elim src.user_info [
    | none ↦ panel_expiry src.panel
    | some i ↦ if ltb_ℤ (pos 0) i.expire then some (of_unix i.expire) else panel_expiry src.panel
  ]

  module _ (r : Resolver) where
    unfoldable pub format : Time → Bytes → Bytes
    format t layout = format_time t (zone_of r.datetime) layout

    abbrev pub full_layout : Bytes
    full_layout = r.datetime.layout ++ codes " " ++ r.datetime.time_layout

    abbrev pub bytes_of : ℤ → Option Bytes
    bytes_of n = if is_neg n then none else format_bytes n r.traffic

    abbrev pub raw_bytes : ℤ → Option Bytes
    raw_bytes n = if is_neg n then none else some (format_int n)

    -- The number that the unit of "X of Y" follows: the limit when there is one.
    abbrev pub scale_number : ℤ → ℤ → ℤ
    scale_number u l = at_least_zero (if ltb_ℤ (pos 0) l then l else u)

    unfoldable pub limit_scale : ℤ → ℤ → ℕ
    unfolding unit_index units_of
    limit_scale u l =
        unit_index (scale_number u l) (units_of r.traffic).1 (length (units_of r.traffic).0 - 1)

    unfoldable pub scaled : ℤ → ℤ → ℤ → Bytes
    unfolding limit_scale format_scaled
    scaled n u l = format_scaled n (limit_scale u l) (units_of r.traffic).1 r.traffic.decimals

    unfoldable pub resolve_local : Name → Source → Option Bytes
    resolve_local short_uuid src = non_empty src.short_uuid
    resolve_local client_type src = non_empty src.client_type
    resolve_local user_agent src = non_empty src.user_agent
    resolve_local client_ip src = non_empty src.client_ip
    resolve_local subscription_url src = non_empty src.subscription_url
    resolve_local Name.now src = some (format now full_layout)
    resolve_local date src = some (format now r.datetime.layout)
    resolve_local time src = some (format now r.datetime.time_layout)
    resolve_local _ src = none

    unfoldable pub resolve_user : Name → User → Option Bytes
    resolve_user username u = non_empty u.username
    resolve_user user_status u = non_empty u.user_status
    resolve_user is_active u = some (boolean u.is_active)
    resolve_user traffic_limit_strategy u = non_empty u.traffic_limit_strategy
    resolve_user lifetime_traffic_used u = bytes_of (lifetime_used_bytes u)
    resolve_user _ u = none

    unfoldable pub resolve_panel : Name → Option Info → Option Bytes
    unfolding resolve_user
    resolve_panel name none = none
    resolve_panel name (some i) = resolve_user name i.user

    abbrev pub dated : Option Time → Bytes → Option Bytes
    dated none layout = some r.datetime.never
    dated (some t) layout = some (format t layout)

    abbrev pub days_by_header : Option Time → Option Bytes
    days_by_header none = none
    days_by_header (some t) = some (format_int (days_until now t))

    abbrev pub unix_of : Option Time → Option Bytes
    unix_of none = some (codes "0")
    unix_of (some t) = some (format_int (to_unix t))

    unfoldable pub resolve_expiry : Name → Source → Option Bytes
    resolve_expiry days_left src = elim src.panel [
      | some i ↦ some (format_int (at_least_zero i.user.days_left))
      | none ↦ days_by_header (source_expiry src)
    ]
    resolve_expiry expires_at_unix src = unix_of (source_expiry src)
    resolve_expiry expires_at src = dated (source_expiry src) full_layout
    resolve_expiry expires_at_date src = dated (source_expiry src) r.datetime.layout
    resolve_expiry expires_at_time src = dated (source_expiry src) r.datetime.time_layout
    resolve_expiry _ src = none

    abbrev pub is_zero : ℤ → Bool
    is_zero n = not (is_neg n) && not (ltb_ℤ (pos 0) n)

    abbrev pub percent_of : (ℤ → Bytes) → Option ℤ → Option Bytes
    percent_of show none = none
    percent_of show (some pct) = some (show pct)

    abbrev pub counter_of : (UserInfo → ℤ) → Option UserInfo → Option Bytes
    counter_of field none = none
    counter_of field (some i) = bytes_of (field i)

    -- The switch of `resolveTraffic`, over the counters and the header.
    unfoldable pub resolve_counters : Name → ℤ → ℤ → Option UserInfo → Option Bytes
    resolve_counters traffic_used u l info = bytes_of u
    resolve_counters traffic_used_bytes u l info = raw_bytes u
    resolve_counters traffic_limit u l info =
        if is_zero l then some r.traffic.unlimited else bytes_of l
    resolve_counters traffic_limit_bytes u l info = raw_bytes l
    resolve_counters traffic_used_in_limit u l info = if is_neg u then none else some (scaled u u l)
    resolve_counters traffic_limit_value u l info =
        if is_neg l
        then none
        else if is_zero l
        then some r.traffic.unlimited
        else some (scaled l u l)
    resolve_counters traffic_unit u l info =
        if is_neg l && is_neg u then none else unit_at (units_of r.traffic).0 (limit_scale u l)
    resolve_counters traffic_available u l info =
        if is_zero l then some r.traffic.unlimited else bytes_of (available u l)
    resolve_counters traffic_available_bytes u l info =
        if is_zero l then some (codes "0") else raw_bytes (available u l)
    resolve_counters traffic_used_percent u l info = percent_of format_int (percent_used u l)
    resolve_counters traffic_left_percent u l info =
        percent_of (λ pct. format_int (sub_ℕ 100 (pos_part pct))) (percent_used u l)
    resolve_counters Name.progress_bar u l info = percent_of (render_bar r.bar) (percent_used u l)
    resolve_counters traffic_upload u l info = counter_of (λ i. i.upload) info
    resolve_counters traffic_download u l info = counter_of (λ i. i.download) info
    resolve_counters _ u l info = none

    -- The names that the switch leaves to `resolveExpiry`.
    unfoldable pub is_expiry : Name → Bool
    is_expiry days_left = true
    is_expiry expires_at = true
    is_expiry expires_at_date = true
    is_expiry expires_at_time = true
    is_expiry expires_at_unix = true
    is_expiry _ = false

    unfoldable pub resolve_traffic : Name → Source → Option Bytes
    unfolding is_expiry
    resolve_traffic name src =
        let c = traffic_counters src in
        let u = if c.known then c.used else unknown in
        let l = if c.known then c.limit else unknown in
        if is_expiry name then resolve_expiry name src else resolve_counters name u l src.user_info

    unfoldable pub resolve_name : Origin → Name → Source → Option Bytes
    resolve_name origin_local name src = resolve_local name src
    resolve_name origin_traffic name src = resolve_traffic name src
    resolve_name origin_panel name src = resolve_panel name src.panel

    -- `resolve`: a text outside the catalog has no value.
    unfoldable pub resolve : Option Name → Source → Option Bytes
    unfolding resolve_name
    resolve none src = none
    resolve (some name) src = resolve_name (catalog name) name src

    -- `Lookup`
    unfoldable pub lookup_var : Source → Bytes → Option Bytes
    unfolding resolve
    lookup_var src text = elim (lookup text r.custom) [
      | some v ↦ some v
      | none ↦ resolve (name_of text) src
    ]

abbrev pub needs : Origin → Bool → Bool
needs origin_local have_user_info = false
needs origin_traffic have_user_info = not have_user_info
needs origin_panel have_user_info = true

-- What one name asks for in `NeedsPanel`; a name outside the catalog asks for nothing.
unfoldable pub name_needs : Resolver → Bytes → Bool → Bool
name_needs r text have_user_info = elim (lookup text r.custom) [
  | some v ↦ false
  | none ↦ elim (name_of text) [ none ↦ false | some name ↦ needs (catalog name) have_user_info ]
]

unfoldable pub needs_panel : Resolver → List Bytes → Bool → Bool
unfolding name_needs
needs_panel r [] have_user_info = false
needs_panel r (text ∷ texts) have_user_info =
    name_needs r text have_user_info || needs_panel r texts have_user_info
