-- ===== src/Config/File.antt =====
-- internal/config/file.go: the data of the configuration file.
use remnawave_subpage_proxy.Prelude.{
  ℕ, Bool, true, false, not, ◌&&◌, List, [], ◌∷◌, Option, none, some, is_some, leb, ◌||◌, ◌==◌,
}
use remnawave_subpage_proxy.Prelude.Int.{ℤ, pos}
use remnawave_subpage_proxy.Prelude.Text.{Bytes, codes, is_empty, trim_space}
use remnawave_subpage_proxy.Config.Patterns.{Regexp, Block, Hosts}
use remnawave_subpage_proxy.Config.UserAgents.{UserAgentRule}

-- `unset` is the empty string, which a rule has before it is validated.
pub data Encoding : Type 0 where
  unset auto plain base64 base64_prefixed : Encoding

pub data UnknownPolicy : Type 0 where
  unset keep blank : UnknownPolicy

pub record TrafficFormat : Type 0 where
  pub decimals : ℤ
  pub binary_units : Bool
  pub unlimited : Bytes
  pub units : List Bytes
  pub force_unlimited : Bool

-- A time zone is its IANA name, and `location` the zone that validation resolved.
pub record DateTimeFormat : Type 0 where
  pub layout : Bytes
  pub time_layout : Bytes
  pub timezone : Bytes
  pub never : Bytes
  pub location : Option Bytes

unfoldable pub zone_of : DateTimeFormat → Bytes
zone_of d = elim d.location [ none ↦ codes "UTC" | some zone ↦ zone ]

pub record ProgressBar : Type 0 where
  pub width : ℤ
  pub filled : Bytes
  pub empty : Bytes

pub record TemplateOpts : Type 0 where
  pub unknown : UnknownPolicy
  pub scan_all_headers : Bool
  pub decode_base64 : Bool

pub record Condition : Type 0 where
  pub client_types : List Bytes
  pub user_statuses : List Bytes
  pub user_agent : Bytes
  pub exists : Option Bool
  pub has_traffic_limit : Option Bool
  pub user_agent_re : Option Regexp

abbrev pub no_texts : List Bytes → Bool
no_texts [] = true
no_texts (_ ∷ _) = false

-- A rule with this condition matches every request.
unfoldable pub is_unconditional : Condition → Bool
is_unconditional c =
    no_texts c.client_types
    && no_texts c.user_statuses
    && is_empty (trim_space c.user_agent)
    && not (is_some c.exists)
    && not (is_some c.has_traffic_limit)

pub record HeaderRule : Type 0 where
  pub name : Bytes
  pub template : Option Bytes
  pub encode : Encoding
  pub remove : Bool
  pub when : Condition
  pub max_length : ℤ

pub record File : Type 0 where
  pub traffic : TrafficFormat
  pub datetime : DateTimeFormat
  pub progress_bar : ProgressBar
  pub template : TemplateOpts
  pub vars : List (Bytes × Bytes)
  pub headers : List HeaderRule
  pub block : Block
  pub hosts : Hosts
  pub user_agents : List UserAgentRule

-- The UTF-8 of "∞", "▰" and "▱".
abbrev pub infinity : Bytes
infinity = 0xE2 ∷ 0x88 ∷ 0x9E ∷ []

abbrev pub bar_filled : Bytes
bar_filled = 0xE2 ∷ 0x96 ∷ 0xB0 ∷ []

abbrev pub bar_empty : Bytes
bar_empty = 0xE2 ∷ 0x96 ∷ 0xB1 ∷ []

abbrev pub default_file : File
default_file = record {
  traffic = record {
    decimals = pos 2;
    binary_units = true;
    unlimited = infinity;
    units = [];
    force_unlimited = false;
  };
  datetime = record {
    layout = codes "02.01.2006";
    time_layout = codes "15:04";
    timezone = codes "UTC";
    never = infinity;
    location = some (codes "UTC");
  };
  progress_bar = record { width = pos 10; filled = bar_filled; empty = bar_empty };
  template = record { unknown = keep; scan_all_headers = true; decode_base64 = true };
  vars = [];
  headers = [];
  block = record { enabled = true; patterns = [] };
  hosts = record { shuffle = [] };
  user_agents = [];
}

-- The range of characters of `validVarName`, over the bytes of a name: a byte of any other rune lies
-- outside it.
abbrev pub is_var_byte : ℕ → Bool
is_var_byte c = leb b'A' c && leb c b'Z' || leb b'0' c && leb c b'9' || c == b'_'

unfoldable pub all_var_bytes : Bytes → Bool
all_var_bytes [] = true
all_var_bytes (c ∷ s) = is_var_byte c && all_var_bytes s

unfoldable pub valid_var_name : Bytes → Bool
unfolding all_var_bytes
valid_var_name name = not (is_empty name) && all_var_bytes name
