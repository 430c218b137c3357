-- ===== src/Hosts/Placeholder/Carried.antt =====
-- internal/hosts/placeholder.go: the names that a reader finds in the dead servers.
use remnawave_subpage_proxy.Prelude.{
  ◌≡◌, refl, sym, ap, ◌∙◌, List, [], ◌∷◌, ◌++◌, if◌then◌else◌, map,
}
use remnawave_subpage_proxy.Prelude.Text.{Bytes, codes, bytes_eq, join}
use remnawave_subpage_proxy.B64.{Base64, std}
use remnawave_subpage_proxy.Hosts.Shuffle.{Format, unknown, links, xray, singbox, clash}
use remnawave_subpage_proxy.Hosts.Placeholder.{
  Value, text, number, array, object, Values, no_values, item, Members, no_members, member, Writers,
  placeholder_server, placeholder_uuid, unique_names, xray_config, singbox_outbound, clash_proxy,
  each, singbox_profile, clash_profile, placeholder_link, placeholder_links, placeholder_unique,
  placeholder,
}
use remnawave_subpage_proxy.Hosts.Placeholder.Laws.{IsUnique, unique_names-IsUnique}

-- What a reader finds in a document; what is missing is the empty text.
abbrev pub member_at : Bytes → Members → Value
member_at key no_members = text []
member_at key (member k v rest) = if bytes_eq k key then v else member_at key rest

abbrev pub at : Bytes → Value → Value
at key (text b) = text []
at key (number n) = text []
at key (array vs) = text []
at key (object m) = member_at key m

abbrev pub as_text : Value → Bytes
as_text (text b) = b
as_text (number n) = []
as_text (array vs) = []
as_text (object m) = []

abbrev pub items : Value → Values
items (text b) = no_values
items (number n) = no_values
items (array vs) = vs
items (object m) = no_values

abbrev pub texts : Values → List Bytes
texts no_values = []
texts (item v vs) = as_text v ∷ texts vs

-- The texts of one field, over the items of an array.
abbrev pub texts_at : Bytes → Values → List Bytes
texts_at key no_values = []
texts_at key (item v vs) = as_text (at key v) ∷ texts_at key vs

abbrev pub first_item : Values → Value
first_item no_values = text []
first_item (item v vs) = v

-- A line for each name, which ends in `#` and the escaped name.
abbrev pub Named : Writers → List Bytes → List Bytes → Type 0
Named w [] [] = Unit
Named w [] (n ∷ ns) = ⊥
Named w (l ∷ ls) [] = ⊥
Named w (l ∷ ls) (n ∷ ns) =
    ((link : Bytes) × (l ≡ link ++ (codes "#" ++ w.path_escape n))) × Named w ls ns

-- What a client is sent: a document whose servers have the names; in the Clash profile the group that
-- selects a server lists the same names.
abbrev pub IsCarried : Base64 → Writers → Format → List Bytes → Bytes → Type 0
IsCarried b w xray names out =
    (doc : Value) × (out ≡ w.json doc) × IsUnique names (texts_at (codes "remarks") (items doc))
IsCarried b w singbox names out =
    (doc : Value) × (out ≡ w.json doc)
    × IsUnique names (texts_at (codes "tag") (items (at (codes "outbounds") doc)))
IsCarried b w clash names out =
    (doc : Value) × (out ≡ w.yaml doc)
    × IsUnique names (texts_at (codes "name") (items (at (codes "proxies") doc)))
    × (texts (items (at (codes "proxies") (first_item (items (at (codes "proxy-groups") doc)))))
        ≡ texts_at (codes "name") (items (at (codes "proxies") doc)))
IsCarried b w links names out =
    (lines : List Bytes) × (shown : List Bytes) × (out ≡ b.encode std (join (codes "\n") lines))
    × Named w lines shown
    × IsUnique names shown
IsCarried b w unknown names out =
    (lines : List Bytes) × (shown : List Bytes) × (out ≡ b.encode std (join (codes "\n") lines))
    × Named w lines shown
    × IsUnique names shown

texts_at-each :
    (key : Bytes) (f : Bytes → Value)
    → ((n : Bytes) → as_text (at key (f n)) ≡ n)
    → (names : List Bytes) → texts_at key (each f names) ≡ names
texts_at-each key f same [] = refl
texts_at-each key f same (n ∷ ns) = λ i. same n i ∷ texts_at-each key f same ns i

texts-each : (names : List Bytes) → texts (each text names) ≡ names
texts-each [] = refl
texts-each (n ∷ ns) = ap (λ t. n ∷ t) (texts-each ns)

xray_remarks : (n : Bytes) → as_text (at (codes "remarks") (xray_config n)) ≡ n
unfolding xray_config bytes_eq
xray_remarks n = refl

singbox_tag : (n : Bytes) → as_text (at (codes "tag") (singbox_outbound n)) ≡ n
unfolding singbox_outbound bytes_eq
singbox_tag n = refl

clash_name : (n : Bytes) → as_text (at (codes "name") (clash_proxy n)) ≡ n
unfolding clash_proxy bytes_eq
clash_name n = refl

singbox_tags :
    (names : List Bytes)
    → texts_at (codes "tag") (items (at (codes "outbounds") (singbox_profile names))) ≡ names
unfolding singbox_profile bytes_eq
singbox_tags names = texts_at-each (codes "tag") singbox_outbound singbox_tag names

clash_names :
    (names : List Bytes)
    → texts_at (codes "name") (items (at (codes "proxies") (clash_profile names))) ≡ names
unfolding clash_profile bytes_eq
clash_names names = texts_at-each (codes "name") clash_proxy clash_name names

clash_group :
    (names : List Bytes)
    → texts (
        items (
          at
            (codes "proxies")
            (first_item (items (at (codes "proxy-groups") (clash_profile names))))))
      ≡ names
unfolding clash_profile bytes_eq
clash_group names = texts-each names

abbrev link_front : Bytes
link_front =
    codes "vless://"
    ++ (placeholder_uuid
        ++ (codes "@" ++ (placeholder_server ++ (codes ":1" ++ codes "?type=tcp&security=none"))))

module _ (b : Base64) (w : Writers) where
  link_named : (n : Bytes) → placeholder_link b w n ≡ link_front ++ (codes "#" ++ w.path_escape n)
  unfolding placeholder_link
  link_named n = refl

  links-Named : (names : List Bytes) → Named w (map (placeholder_link b w) names) names
  links-Named [] = tt
  links-Named (n ∷ ns) = ((link_front, link_named n), links-Named ns)

  links-IsCarried :
      (names : List Bytes) → IsCarried b w links names (placeholder_links b w (unique_names names))
  unfolding placeholder_links
  links-IsCarried names =
      let ns = unique_names names in
      (map (placeholder_link b w) ns, ns, refl, links-Named ns, unique_names-IsUnique names)

  -- Whatever the format, the placeholder has one server for each name that is not blank, without the
  -- space around it, none twice, and no server has a blank name: they are the names that a reader
  -- finds in the document, or the escaped ends of the links. In the Clash profile the group that
  -- selects a server lists the same names.
  pub placeholder-IsCarried :
      (format : Format) (names : List Bytes)
      → IsCarried b w format names (placeholder b w format names)
  unfolding placeholder placeholder_unique
  placeholder-IsCarried xray names = (
    array (each xray_config (unique_names names)),
    refl,
    rw (texts_at-each (codes "remarks") xray_config xray_remarks (unique_names names))
        (unique_names-IsUnique names),
  )
  placeholder-IsCarried singbox names = (
    singbox_profile (unique_names names),
    refl,
    rw (singbox_tags (unique_names names)) (unique_names-IsUnique names),
  )
  placeholder-IsCarried clash names = (
    clash_profile (unique_names names),
    refl,
    rw (clash_names (unique_names names)) (unique_names-IsUnique names),
    clash_group (unique_names names) ∙ sym (clash_names (unique_names names)),
  )
  placeholder-IsCarried links names = links-IsCarried names
  placeholder-IsCarried unknown names = links-IsCarried names
