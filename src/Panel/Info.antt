-- ===== src/Panel/Info.antt =====
-- internal/panel/client.go: what the panel answers about a subscription.
use remnawave_subpage_proxy.Prelude.{Bool, Option, none, some, [], ◌∷◌}
use remnawave_subpage_proxy.Prelude.Int.{ℤ, negsuc}
use remnawave_subpage_proxy.Prelude.Text.{Bytes}
use remnawave_subpage_proxy.Prelude.Text.Decimal.{parse_int}

pub record User : Type 0 where
  pub short_uuid : Bytes
  pub username : Bytes
  pub days_left : ℤ
  pub traffic_used : Bytes
  pub traffic_limit : Bytes
  pub lifetime_traffic_used : Bytes
  pub traffic_used_bytes : Bytes
  pub traffic_limit_bytes : Bytes
  pub lifetime_traffic_used_bytes : Bytes
  pub expires_at : Bytes
  pub is_active : Bool
  pub user_status : Bytes
  pub traffic_limit_strategy : Bytes

pub record Info : Type 0 where
  pub is_found : Bool
  pub user : User
  pub subscription_url : Bytes

-- An empty text fails to parse, as does any other that is no int64.
unfoldable pub parse_bytes : Bytes → ℤ
parse_bytes [] = negsuc 0
parse_bytes (c ∷ s) = elim (parse_int (c ∷ s)) [ none ↦ negsuc 0 | some n ↦ n ]

unfoldable pub used_bytes : User → ℤ
used_bytes u = parse_bytes u.traffic_used_bytes

unfoldable pub limit_bytes : User → ℤ
limit_bytes u = parse_bytes u.traffic_limit_bytes

unfoldable pub lifetime_used_bytes : User → ℤ
lifetime_used_bytes u = parse_bytes u.lifetime_traffic_used_bytes

-- `parse_time` is `time.Parse(time.RFC3339, …)`.
unfoldable pub expiry : {Time : Type 0} → (Bytes → Option Time) → Bytes → Option Time
expiry parse_time [] = none
expiry parse_time (c ∷ s) = parse_time (c ∷ s)
