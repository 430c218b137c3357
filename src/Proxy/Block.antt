-- ===== src/Proxy/Block.antt =====
-- internal/proxy/block.go: which paths are refused as a scanner's probes.
pub mod Laws
use remnawave_subpage_proxy.Prelude.{
  ℕ, suc, ◌+◌, Bool, true, false, not, ◌&&◌, ◌||◌, List, [], ◌∷◌, Option, none, some, ◌==◌,
  if◌then◌else◌, length, any,
}
use remnawave_subpage_proxy.Prelude.Text.{Bytes, codes, bytes_eq, contains, has_prefix}
use remnawave_subpage_proxy.Prelude.Text.Case.{Unicode, to_lower, equal_fold}
use remnawave_subpage_proxy.Config.Patterns.{
  Regexp, Block, Patterns, all_compiled, problems, Problem, compile_block,
}
use remnawave_subpage_proxy.Proxy.Route.{assets_dir, split_path, strip_prefix}

abbrev pub scanner_extensions : List Bytes
scanner_extensions =
    codes ".php"
    ∷ codes ".php3"
    ∷ codes ".php4"
    ∷ codes ".php5"
    ∷ codes ".phtml"
    ∷ codes ".asp"
    ∷ codes ".aspx"
    ∷ codes ".jsp"
    ∷ codes ".jspx"
    ∷ codes ".cgi"
    ∷ codes ".pl"
    ∷ codes ".py"
    ∷ codes ".rb"
    ∷ codes ".sh"
    ∷ codes ".bat"
    ∷ codes ".sql"
    ∷ codes ".sqlite"
    ∷ codes ".sqlite3"
    ∷ codes ".db"
    ∷ codes ".dump"
    ∷ codes ".bak"
    ∷ codes ".backup"
    ∷ codes ".old"
    ∷ codes ".orig"
    ∷ codes ".save"
    ∷ codes ".swp"
    ∷ codes ".swo"
    ∷ codes ".tmp"
    ∷ codes ".temp"
    ∷ codes ".dist"
    ∷ codes ".inc"
    ∷ codes ".ini"
    ∷ codes ".conf"
    ∷ codes ".cfg"
    ∷ codes ".cnf"
    ∷ codes ".config"
    ∷ codes ".properties"
    ∷ codes ".yml"
    ∷ codes ".yaml"
    ∷ codes ".toml"
    ∷ codes ".env"
    ∷ codes ".log"
    ∷ codes ".pem"
    ∷ codes ".key"
    ∷ codes ".crt"
    ∷ codes ".p12"
    ∷ codes ".jks"
    ∷ codes ".ppk"
    ∷ codes ".zip"
    ∷ codes ".tar"
    ∷ codes ".rar"
    ∷ codes ".7z"
    ∷ codes ".war"
    ∷ codes ".jar"
    ∷ []

abbrev pub scanner_names : List Bytes
scanner_names =
    codes "env"
    ∷ codes "wordpress"
    ∷ codes "wp"
    ∷ codes "wp-admin"
    ∷ codes "wp-login"
    ∷ codes "wp-content"
    ∷ codes "wp-includes"
    ∷ codes "phpmyadmin"
    ∷ codes "pma"
    ∷ codes "myadmin"
    ∷ codes "dbadmin"
    ∷ codes "sqladmin"
    ∷ codes "adminer"
    ∷ codes "admin"
    ∷ codes "administrator"
    ∷ codes "vendor"
    ∷ codes "telescope"
    ∷ codes "actuator"
    ∷ codes "cgi-bin"
    ∷ codes "server-status"
    ∷ codes "server-info"
    ∷ codes "_profiler"
    ∷ codes "_ignition"
    ∷ codes "debug"
    ∷ codes "solr"
    ∷ codes "jenkins"
    ∷ codes "manager"
    ∷ codes "console"
    ∷ codes "jmx-console"
    ∷ codes "druid"
    ∷ codes "nacos"
    ∷ codes "geoserver"
    ∷ codes "owa"
    ∷ codes "autodiscover"
    ∷ codes "ecp"
    ∷ codes "hnap1"
    ∷ codes "boaform"
    ∷ codes "goform"
    ∷ codes "struts"
    ∷ codes "struts2"
    ∷ codes "backup"
    ∷ codes "backups"
    ∷ codes "dump"
    ∷ codes "db"
    ∷ codes "database"
    ∷ codes "sql"
    ∷ codes "config"
    ∷ codes "configs"
    ∷ codes "configuration"
    ∷ codes "settings"
    ∷ codes "secrets"
    ∷ codes "credentials"
    ∷ codes "shell"
    ∷ codes "cmd"
    ∷ []

abbrev pub well_known : Bytes
well_known = codes ".well-known"

abbrev pub app_config_ext : Bytes
app_config_ext = codes ".json"

pub record Blocker : Type 0 where
  pub enabled : Bool
  pub prefix : Bytes
  pub patterns : List Regexp

pub data NewBlocker : Type 0 where
  made : Blocker → NewBlocker
  refused : List Problem → NewBlocker

unfoldable pub new_blocker : (Bytes → Option Regexp) → Block → Bytes → NewBlocker
new_blocker compile c sub_prefix = elim (compile_block compile c) [
  | all_compiled patterns ↦
      made (record { enabled = c.enabled; prefix = sub_prefix; patterns = patterns })
  | problems ps ↦ refused ps
]

-- `segment[strings.LastIndexByte(segment, b):]`
unfoldable pub from_last : ℕ → Bytes → Option Bytes
from_last b [] = none
from_last b (c ∷ s) = elim (from_last b s) [
  | some t ↦ some t
  | none ↦ if c == b then some (c ∷ s) else none
]

module _ (u : Unicode) where
  unfoldable pub extension : Bytes → Bytes
  extension segment = elim (from_last b'.' segment) [ none ↦ [] | some t ↦ to_lower u t ]

  -- The exemptions of the last loop of `Blocked`: `first` is `named[0]`, `i` the index of the
  -- segment and `last` whether it is the last.
  unfoldable pub is_exempt : Bytes → ℕ → Bool → Bytes → Bool
  is_exempt first i last segment =
      i == 0 && equal_fold segment well_known
      || i == 1
        && last
        && equal_fold first assets_dir
        && bytes_eq (extension segment) app_config_ext

  abbrev pub is_nil : List Bytes → Bool
  is_nil [] = true
  is_nil (_ ∷ _) = false

  -- The last loop of `Blocked`, from index `i` on.
  unfoldable pub blocked_dots : Bytes → ℕ → List Bytes → Bool
  unfolding is_exempt
  blocked_dots first i [] = false
  blocked_dots first i (segment ∷ rest) =
      let next = blocked_dots first (suc i) rest in
      if not (has_prefix segment (codes "."))
      then next
      else if bytes_eq segment (codes ".") || bytes_eq segment (codes "..")
      then true
      else if is_exempt first i (is_nil rest) segment
      then next
      else true

  -- `Blocked` behind the prefix.
  unfoldable pub blocked_named : List Bytes → Bool
  unfolding blocked_dots
  blocked_named [] = false
  blocked_named (first ∷ rest) =
      if contains scanner_names (to_lower u first)
      then true
      else blocked_dots first 0 (first ∷ rest)

  unfoldable pub blocked_segments : Bytes → List Bytes → Bool
  unfolding blocked_named
  blocked_segments prefix [] = false
  blocked_segments prefix (s ∷ segments) =
      if any (λ t. contains scanner_extensions (extension t)) (s ∷ segments)
      then true
      else blocked_named (strip_prefix (s ∷ segments) prefix).0

  unfoldable pub enabled_blocked : Blocker → Bytes → Bool
  unfolding blocked_segments
  enabled_blocked b path =
      if any (λ re. re path) b.patterns then true else blocked_segments b.prefix (split_path path)

  -- A nil blocker refuses nothing.
  unfoldable pub blocked : Option Blocker → Bytes → Bool
  unfolding enabled_blocked
  blocked none path = false
  blocked (some b) path = if b.enabled then enabled_blocked b path else false
