-- ===== src/Subinfo/Catalog.antt =====
-- internal/subinfo/vars.go: the names of the placeholders, and where each value comes from. The keys
-- of `Catalog` are the constructors of `Name`.
use remnawave_subpage_proxy.Prelude.{List, [], ◌∷◌, Option}
use remnawave_subpage_proxy.Prelude.Text.{Bytes, codes}
use remnawave_subpage_proxy.Prelude.Assoc.{lookup}

pub data Origin : Type 0 where
  origin_local origin_traffic origin_panel : Origin

pub data Name : Type 0 where
  traffic_used traffic_used_bytes traffic_limit traffic_limit_bytes : Name
  traffic_used_in_limit traffic_limit_value traffic_unit traffic_available : Name
  traffic_available_bytes traffic_used_percent traffic_left_percent progress_bar : Name
  traffic_upload traffic_download days_left expires_at expires_at_date : Name
  expires_at_time expires_at_unix : Name
  username user_status is_active traffic_limit_strategy lifetime_traffic_used : Name
  original_value short_uuid subscription_url client_type user_agent client_ip now : Name
  date time : Name

abbrev pub name_table : List (Bytes × Name)
name_table =
    (codes "TRAFFIC_USED", traffic_used)
    ∷ (codes "TRAFFIC_USED_BYTES", traffic_used_bytes)
    ∷ (codes "TRAFFIC_LIMIT", traffic_limit)
    ∷ (codes "TRAFFIC_LIMIT_BYTES", traffic_limit_bytes)
    ∷ (codes "TRAFFIC_USED_IN_LIMIT", traffic_used_in_limit)
    ∷ (codes "TRAFFIC_LIMIT_VALUE", traffic_limit_value)
    ∷ (codes "TRAFFIC_UNIT", traffic_unit)
    ∷ (codes "TRAFFIC_AVAILABLE", traffic_available)
    ∷ (codes "TRAFFIC_AVAILABLE_BYTES", traffic_available_bytes)
    ∷ (codes "TRAFFIC_USED_PERCENT", traffic_used_percent)
    ∷ (codes "TRAFFIC_LEFT_PERCENT", traffic_left_percent)
    ∷ (codes "PROGRESS_BAR", progress_bar)
    ∷ (codes "TRAFFIC_UPLOAD", traffic_upload)
    ∷ (codes "TRAFFIC_DOWNLOAD", traffic_download)
    ∷ (codes "DAYS_LEFT", days_left)
    ∷ (codes "EXPIRES_AT", expires_at)
    ∷ (codes "EXPIRES_AT_DATE", expires_at_date)
    ∷ (codes "EXPIRES_AT_TIME", expires_at_time)
    ∷ (codes "EXPIRES_AT_UNIX", expires_at_unix)
    ∷ (codes "USERNAME", username)
    ∷ (codes "USER_STATUS", user_status)
    ∷ (codes "IS_ACTIVE", is_active)
    ∷ (codes "TRAFFIC_LIMIT_STRATEGY", traffic_limit_strategy)
    ∷ (codes "LIFETIME_TRAFFIC_USED", lifetime_traffic_used)
    ∷ (codes "ORIGINAL_VALUE", original_value)
    ∷ (codes "SHORT_UUID", short_uuid)
    ∷ (codes "SUBSCRIPTION_URL", subscription_url)
    ∷ (codes "CLIENT_TYPE", client_type)
    ∷ (codes "USER_AGENT", user_agent)
    ∷ (codes "CLIENT_IP", client_ip)
    ∷ (codes "NOW", now)
    ∷ (codes "DATE", date)
    ∷ (codes "TIME", time)
    ∷ []

-- The name of the catalog that a text spells, if it spells one.
unfoldable pub name_of : Bytes → Option Name
name_of text = lookup text name_table

-- `Catalog`
unfoldable pub catalog : Name → Origin
catalog traffic_used = origin_traffic
catalog traffic_used_bytes = origin_traffic
catalog traffic_limit = origin_traffic
catalog traffic_limit_bytes = origin_traffic
catalog traffic_used_in_limit = origin_traffic
catalog traffic_limit_value = origin_traffic
catalog traffic_unit = origin_traffic
catalog traffic_available = origin_traffic
catalog traffic_available_bytes = origin_traffic
catalog traffic_used_percent = origin_traffic
catalog traffic_left_percent = origin_traffic
catalog progress_bar = origin_traffic
catalog traffic_upload = origin_traffic
catalog traffic_download = origin_traffic
catalog days_left = origin_traffic
catalog expires_at = origin_traffic
catalog expires_at_date = origin_traffic
catalog expires_at_time = origin_traffic
catalog expires_at_unix = origin_traffic
catalog username = origin_panel
catalog user_status = origin_panel
catalog is_active = origin_panel
catalog traffic_limit_strategy = origin_panel
catalog lifetime_traffic_used = origin_panel
catalog original_value = origin_local
catalog short_uuid = origin_local
catalog subscription_url = origin_local
catalog client_type = origin_local
catalog user_agent = origin_local
catalog client_ip = origin_local
catalog now = origin_local
catalog date = origin_local
catalog time = origin_local
