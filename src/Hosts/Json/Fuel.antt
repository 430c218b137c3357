-- ===== src/Hosts/Json/Fuel.antt =====
-- internal/hosts/jsonobj.go: the loop of `parseObject` ends.
use remnawave_subpage_proxy.Prelude.{◌<◌, ◌≡◌, some}
use remnawave_subpage_proxy.Prelude.Text.{Bytes}
use remnawave_subpage_proxy.Hosts.Json.{Token, Json}

-- A token, and a value, take bytes off the input.
pub record Consumes (j : Json) : Type 0 where
  pub token_takes : (d d' : j.Decoder) (t : Token) → j.token d ≡ some (t, d') → j.left d' < j.left d
  pub value_takes : (d d' : j.Decoder) (v : Bytes) → j.value d ≡ some (v, d') → j.left d' < j.left d
