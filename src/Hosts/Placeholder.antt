-- ===== src/Hosts/Placeholder.antt =====
-- internal/hosts/placeholder.go: dead servers that carry a message. `json.MarshalIndent`,
-- `yaml.Marshal` and `url.PathEscape` are parameters.
pub mod Laws
pub mod Carried
use remnawave_subpage_proxy.Prelude.{
  ℕ, Bool, true, false, not, ◌&&◌, ◌||◌, List, [], ◌∷◌, ◌++◌, if◌then◌else◌, map,
}
use remnawave_subpage_proxy.Prelude.Text.{Bytes, codes, is_empty, contains, join, trim_space}
use remnawave_subpage_proxy.B64.{Base64, std}
use remnawave_subpage_proxy.Hosts.Shuffle.{Format, unknown, links, xray, singbox, clash}

-- What is marshalled: texts, numbers, slices, and maps with text keys.
mutual
  pub data Value : Type 0 where
    text : Bytes → Value
    number : ℕ → Value
    array : Values → Value
    object : Members → Value

  pub data Values : Type 0 where
    no_values : Values
    item : Value → Values → Values

  pub data Members : Type 0 where
    no_members : Members
    member : Bytes → Value → Members → Members

pub record Writers : Type 0 where
  pub json : Value → Bytes
  pub yaml : Value → Bytes
  pub path_escape : Bytes → Bytes

abbrev pub placeholder_server : Bytes
placeholder_server = codes "0.0.0.0"

abbrev pub placeholder_port : ℕ
placeholder_port = 1

abbrev pub placeholder_uuid : Bytes
placeholder_uuid = codes "00000000-0000-0000-0000-000000000000"

-- The loop of `uniqueNames`, over the names seen so far.
unfoldable pub unique_from : List Bytes → List Bytes → List Bytes
unique_from seen [] = []
unique_from seen (name ∷ names) =
    let trimmed = trim_space name in
    let skip = unique_from seen names in
    let keep = trimmed ∷ unique_from (trimmed ∷ seen) names in
    if is_empty trimmed || contains seen trimmed then skip else keep

unfoldable pub unique_names : List Bytes → List Bytes
unfolding unique_from
unique_names names = unique_from [] names

abbrev pub field : Bytes → Bytes → Members → Members
field key value rest = member key (text value) rest

abbrev pub port_field : Bytes → Members → Members
port_field key rest = member key (number placeholder_port) rest

abbrev pub one : Members → Value
one m = array (item (object m) no_values)

unfoldable pub xray_config : Bytes → Value
xray_config name = object (
    field (codes "remarks") name (
      member (codes "outbounds")
        (one (
          field (codes "tag") (codes "proxy") (
            field (codes "protocol") (codes "vless") (
              member (codes "settings")
                (object (
                  member (codes "vnext")
                    (one (
                      field (codes "address") placeholder_server (
                        port_field (codes "port") (
                          member (codes "users")
                            (one (
                              field (codes "id") placeholder_uuid
                                (field (codes "encryption") (codes "none") no_members)))
                            no_members))))
                    no_members))
                no_members))))
        no_members))

unfoldable pub singbox_outbound : Bytes → Value
singbox_outbound name = object (
    field (codes "type") (codes "vless") (
      field (codes "tag") name (
        field (codes "server") placeholder_server
          (port_field (codes "server_port") (field (codes "uuid") placeholder_uuid no_members)))))

unfoldable pub clash_proxy : Bytes → Value
clash_proxy name = object (
    field (codes "name") name (
      field (codes "type") (codes "vless") (
        field (codes "server") placeholder_server
          (port_field (codes "port") (field (codes "uuid") placeholder_uuid no_members)))))

abbrev pub each : (Bytes → Value) → List Bytes → Values
each f [] = no_values
each f (n ∷ ns) = item (f n) (each f ns)

unfoldable pub singbox_profile : List Bytes → Value
unfolding singbox_outbound
singbox_profile names =
    object (member (codes "outbounds") (array (each singbox_outbound names)) no_members)

unfoldable pub clash_profile : List Bytes → Value
unfolding clash_proxy
clash_profile names = object (
    member (codes "proxies") (array (each clash_proxy names)) (
      member (codes "proxy-groups")
        (one (
          field (codes "name") (codes "PROXY") (
            field (codes "type") (codes "select")
              (member (codes "proxies") (array (each text names)) no_members))))
        (member (codes "rules") (array (item (text (codes "MATCH,PROXY")) no_values)) no_members)))

module _ (b : Base64) (w : Writers) where
  -- The port is written by `strconv.Itoa`.
  unfoldable pub placeholder_link : Bytes → Bytes
  placeholder_link name =
      codes "vless://"
      ++ (placeholder_uuid
          ++ (codes "@"
              ++ (placeholder_server
                  ++ (codes ":1" ++ (codes "?type=tcp&security=none#" ++ w.path_escape name)))))

  unfoldable pub placeholder_links : List Bytes → Bytes
  unfolding placeholder_link
  placeholder_links names = b.encode std (join (codes "\n") (map placeholder_link names))

  unfoldable pub placeholder_unique : Format → List Bytes → Bytes
  unfolding xray_config singbox_profile clash_profile placeholder_links
  placeholder_unique xray names = w.json (array (each xray_config names))
  placeholder_unique singbox names = w.json (singbox_profile names)
  placeholder_unique clash names = w.yaml (clash_profile names)
  placeholder_unique links names = placeholder_links names
  placeholder_unique unknown names = placeholder_links names

  -- `Placeholder`
  unfoldable pub placeholder : Format → List Bytes → Bytes
  unfolding placeholder_unique unique_names
  placeholder format names = placeholder_unique format (unique_names names)
