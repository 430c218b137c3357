-- ===== src/Tests/Client.antt =====
-- The client of the panel, and the reading of JSON objects, at concrete inputs.
use remnawave_subpage_proxy.Prelude.{
  ◌≡◌, refl, Bool, true, false, [], ◌∷◌, Option, none, some, length,
}
use remnawave_subpage_proxy.Prelude.Text.{Bytes, codes, bytes_eq}
use remnawave_subpage_proxy.Config.Env.{cut_suffix}
use remnawave_subpage_proxy.Hosts.Json.{Token, text, Json, parse_members}
use remnawave_subpage_proxy.Panel.Client.{
  Client, Network, not_found, is_short_uuid, info_query, subscription_info,
}
use remnawave_subpage_proxy.Panel.Client.Laws.{subscription_info_confined}
use remnawave_subpage_proxy.Tests.Data.{no_json}

abbrev client : Client
client = record {
  base = some (record { scheme = codes "http"; host = codes "p"; path = codes "/x/"; rest = [] });
  common = [];
}

abbrev network : Network
network = record {
  path_escape = λ s. s;
  join = λ base. codes "/api/system/metadata";
  send = λ q. some (record { status = 404; body = [] });
  decode = λ b. none;
  decode_version = λ b. none;
}

asked : (info_query network client (codes "aB3_x") []).path ≡ codes "/x/api/sub/aB3_x/info"
unfolding info_query cut_suffix bytes_eq
asked = refl

outside_path : subscription_info network client (codes "../../x") [] ≡ not_found
unfolding subscription_info is_short_uuid
outside_path = refl

subscription_info_confined_example :
    subscription_info (record network { send = network.send }) client (codes "aB3_x") []
    ≡ subscription_info network client (codes "aB3_x") []
subscription_info_confined_example =
    subscription_info_confined network client (codes "aB3_x") [] network.send (λ s plain. refl)
      (λ q is_query. refl)

-- A decoder whose members are single bytes; the last byte ends the object.
abbrev take_text : Bytes → Option (Token × Bytes)
take_text [] = none
take_text (c ∷ s) = some (text (c ∷ []), s)

abbrev take_value : Bytes → Option (Bytes × Bytes)
take_value [] = none
take_value (c ∷ s) = some (c ∷ [], s)

abbrev has_pair : Bytes → Bool
has_pair (c ∷ d ∷ s) = true
has_pair _ = false

abbrev byte_json : Json
byte_json = record no_json {
  Decoder = Bytes;
  decoder = λ s. s;
  left = length;
  token = take_text;
  more = has_pair;
  value = take_value;
}

two_members :
    parse_members byte_json 6 (codes "kawb}")
    ≡ some ((codes "k", codes "a") ∷ (codes "w", codes "b") ∷ [])
unfolding parse_members
two_members = refl
