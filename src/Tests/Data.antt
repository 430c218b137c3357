-- ===== src/Tests/Data.antt =====
-- Values for the parameters of the model.
use remnawave_subpage_proxy.Prelude.{ℕ, ◌+◌, ◌*◌, ◌/◌, false, [], ◌∷◌, none, some, leb, length}
use remnawave_subpage_proxy.Prelude.Int.{ℤ, pos, pos_part}
use remnawave_subpage_proxy.Prelude.Text.{Bytes, codes, bytes_eq}
use remnawave_subpage_proxy.Prelude.Text.Case.{Unicode}
use remnawave_subpage_proxy.B64.{Base64}
use remnawave_subpage_proxy.Subinfo.Floats.{Platform}
use remnawave_subpage_proxy.RealIp.{NetIp}
use remnawave_subpage_proxy.Hosts.Links.{LinkReaders}
use remnawave_subpage_proxy.Hosts.Json.{Json}
use remnawave_subpage_proxy.Hosts.Clash.{Yaml, other_kind}
use remnawave_subpage_proxy.Hosts.Apply.{Readers}
use remnawave_subpage_proxy.Hosts.Placeholder.{Writers}
use remnawave_subpage_proxy.Proxy.Outside.{Outside}

-- Texts beyond ASCII keep their case.
abbrev pub plain_case : Unicode
plain_case = record { wide_lower = λ s. s; wide_upper = λ s. s }

abbrev pub whole : ℤ → ℤ
whole n = n

-- Whole numbers for floats, and seconds for times.
abbrev pub whole_numbers : Platform
whole_numbers = record {
  Float = ℕ;
  float64 = pos_part;
  div = ◌/◌;
  mul = ◌*◌;
  pow = λ a b. a;
  ge = λ a b. leb b a;
  round = λ a. a;
  ceil = λ a. a;
  to_int = pos;
  format_float = λ x d. codes "1.00";
  format_int = λ n. codes "1";
  Time = ℕ;
  now = 0;
  after = λ a b. leb b a;
  hours_until = λ a b. 24;
  of_unix = pos_part;
  to_unix = pos;
  parse_rfc3339 = λ s. none;
  format_time = λ t zone layout. layout;
}

-- An encoder that knows one text.
abbrev pub one_text : Base64
one_text = record { decode = λ a s. some (codes "hi"); encode = λ a s. codes "aGk=" }

-- Texts for addresses; a network is one address.
abbrev pub texts : NetIp
texts = record {
  Addr = Bytes;
  Prefix = Bytes;
  parse_addr = some;
  parse_prefix = λ s. some s;
  prefix_of = λ a. a;
  unmap = λ a. a;
  holds = bytes_eq;
  plain_text = λ a. a;
  host_of = λ s. none;
}

abbrev pub escapes : LinkReaders
escapes = record { path_unescape = some; vmess_ps = λ s. none }

-- A reader of JSON that reads nothing, and one of YAML.
abbrev pub no_json : Json
no_json = record {
  Decoder = Bytes;
  decoder = λ s. s;
  left = length;
  token = λ s. none;
  more = λ s. false;
  value = λ s. none;
  unmarshal_array = λ s. none;
  remarks = λ s. none;
  node = λ s. record { tag = []; server = []; outbounds = []; is_read = false };
  quote = λ s. none;
  marshal_strings = λ s. none;
  marshal_raw = λ s. none;
  compact = λ s. none;
  indent = λ s t. none;
}

abbrev pub no_yaml : Yaml
no_yaml = record {
  Tree = Bytes;
  kind = λ s. other_kind;
  text = λ s. s;
  content = λ s. [];
  with_content = λ s ts. s;
  unmarshal = λ s. none;
  encode = λ ts. none;
}

abbrev pub readers : Readers
readers = record {
  unicode = plain_case;
  base64 = one_text;
  link_readers = escapes;
  json = no_json;
  yaml = no_yaml;
}

abbrev pub writers : Writers
writers = record { json = λ v. []; yaml = λ v. []; path_escape = λ s. s }

abbrev pub outside : Outside
outside = record {
  readers = readers;
  writers = writers;
  platform = whole_numbers;
  net = texts;
  itoa = λ n. (b'0' + n) ∷ [];
  order = λ h. h;
  order_entries = λ es. es;
}
