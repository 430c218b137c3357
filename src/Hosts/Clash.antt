-- ===== src/Hosts/Clash.antt =====
-- internal/hosts/clash.go: the proxies of a YAML profile. The package yaml.v3 is a parameter.
use remnawave_subpage_proxy.Prelude.{
  ℕ, Bool, true, false, not, ◌||◌, List, [], ◌∷◌, Option, none, some, if◌then◌else◌, map,
}
use remnawave_subpage_proxy.Prelude.Text.{Bytes, codes, bytes_eq, has_prefix}
use remnawave_subpage_proxy.Prelude.Assoc.{lookup}
use remnawave_subpage_proxy.Hosts.Shuffle.{Shuffler, permutation, arrange, reorder_names}
use remnawave_subpage_proxy.Hosts.Documents.{new_index}

pub data Kind : Type 0 where
  mapping sequence scalar other_kind : Kind

-- `yaml.Node` as far as it is read and written here: a write of `Content` is a node of its own.
-- `unmarshal` is the document's content, which is empty for an empty document; `encode` is the encoder
-- with an indent of 2, of the document that has this content.
pub record Yaml : Type 1 where
  pub Tree : Type 0
  pub kind : Tree → Kind
  pub text : Tree → Bytes
  pub content : Tree → List Tree
  pub with_content : Tree → List Tree → Tree
  pub unmarshal : Bytes → Option (List Tree)
  pub encode : List Tree → Option Bytes

abbrev pub is_mapping : Kind → Bool
is_mapping mapping = true
is_mapping _ = false

abbrev pub is_sequence : Kind → Bool
is_sequence sequence = true
is_sequence _ = false

abbrev pub is_scalar : Kind → Bool
is_scalar scalar = true
is_scalar _ = false

-- `bytes.Contains`
unfoldable pub contains_text : Bytes → Bytes → Bool
contains_text part [] = has_prefix [] part
contains_text part (c ∷ s) = has_prefix (c ∷ s) part || contains_text part s

-- `looksLikeClash`
unfoldable pub looks_like_clash : Bytes → Bool
unfolding contains_text
looks_like_clash body =
    has_prefix body (codes "proxies:") || contains_text (10 ∷ codes "proxies:") body

module _ (y : Yaml) where
  -- The loop of `mappingValue`, over keys and values in turn.
  unfoldable pub pair_value : Bytes → List y.Tree → Option y.Tree
  pair_value key [] = none
  pair_value key (k ∷ []) = none
  pair_value key (k ∷ v ∷ rest) =
      let later = pair_value key rest in if bytes_eq (y.text k) key then some v else later

  unfoldable pub mapping_value : Bytes → y.Tree → Option y.Tree
  unfolding pair_value
  mapping_value key node =
      if is_mapping (y.kind node) then pair_value key (y.content node) else none

  -- The mapping in which the value that `mappingValue` finds is another one.
  unfoldable pub replace_pair : Bytes → y.Tree → List y.Tree → List y.Tree
  replace_pair key v [] = []
  replace_pair key v (k ∷ []) = k ∷ []
  replace_pair key v (k ∷ old ∷ rest) =
      let later = replace_pair key v rest in
      if bytes_eq (y.text k) key then k ∷ v ∷ rest else k ∷ old ∷ later

  unfoldable pub with_value : Bytes → y.Tree → y.Tree → y.Tree
  unfolding replace_pair
  with_value key v node = y.with_content node (replace_pair key v (y.content node))

  unfoldable pub scalar_value : Option y.Tree → Bytes
  scalar_value none = []
  scalar_value (some node) = if is_scalar (y.kind node) then y.text node else []

  -- A value that is a sequence.
  unfoldable pub sequence_value : Bytes → y.Tree → Option y.Tree
  unfolding mapping_value
  sequence_value key node = elim (mapping_value key node) [
    | none ↦ none
    | some v ↦ if is_sequence (y.kind v) then some v else none
  ]

  unfoldable pub proxy_name : y.Tree → Bytes
  unfolding scalar_value mapping_value
  proxy_name proxy = scalar_value (mapping_value (codes "name") proxy)

  -- `byName`: a later member replaces an earlier one.
  unfoldable pub by_name : List y.Tree → List (Bytes × y.Tree) → List (Bytes × y.Tree)
  unfolding scalar_value
  by_name [] found = found
  by_name (m ∷ ms) found = by_name ms ((scalar_value (some m), m) ∷ found)

  -- The members under a list of names, all of which are there.
  unfoldable pub members_named : List (Bytes × y.Tree) → List Bytes → List y.Tree
  members_named found [] = []
  members_named found (n ∷ ns) = elim (lookup n found) [
    | none ↦ members_named found ns
    | some m ↦ m ∷ members_named found ns
  ]

  -- The body of the loop over the groups.
  unfoldable pub reorder_group : List (Bytes × ℕ) → y.Tree → y.Tree
  unfolding sequence_value by_name members_named with_value scalar_value
  reorder_group index group = elim (sequence_value (codes "proxies") group) [
    | none ↦ group
    | some members ↦
        let (names, changed) =
          reorder_names index (map (λ m. scalar_value (some m)) (y.content members)) in
        if not changed
        then group
        else with_value (codes "proxies")
            (y.with_content members (members_named (by_name (y.content members) []) names)) group
  ]

  unfoldable pub reorder_groups : List (Bytes × ℕ) → y.Tree → y.Tree
  unfolding sequence_value reorder_group with_value
  reorder_groups index root = elim (sequence_value (codes "proxy-groups") root) [
    | none ↦ root
    | some groups ↦
        with_value (codes "proxy-groups")
          (y.with_content groups (map (reorder_group index) (y.content groups))) root
  ]

  -- The document whose proxies are in their new slots.
  unfoldable pub clash_document : Shuffler → y.Tree → List y.Tree → y.Tree → List ℕ → List y.Tree
  unfolding reorder_groups with_value proxy_name
  clash_document s root rest proxies perm =
      let nodes = y.content proxies in
      let index = new_index s (map proxy_name nodes) 0 perm [] in
      let moved =
        with_value (codes "proxies") (y.with_content proxies (arrange proxies nodes perm)) root in
      reorder_groups index moved ∷ rest

  -- `applyClash` behind the permutation.
  unfoldable pub clash_body :
      Shuffler → Bytes → y.Tree → List y.Tree → y.Tree → List ℕ → Bytes × Bool
  unfolding clash_document
  clash_body s body root rest proxies perm =
      elim (y.encode (clash_document s root rest proxies perm)) [
        | none ↦ (body, false)
        | some out ↦ (out, true)
      ]

  -- `applyClash` behind the reading of the body.
  unfoldable pub clash_root : Shuffler → Bytes → y.Tree → List y.Tree → Bytes × Bool
  unfolding clash_body sequence_value proxy_name
  clash_root s body root rest =
      if not (is_mapping (y.kind root))
      then (body, false)
      else elim (sequence_value (codes "proxies") root) [
        | none ↦ (body, false)
        | some proxies ↦ elim (permutation s (map proxy_name (y.content proxies))) [
          | none ↦ (body, false)
          | some perm ↦ clash_body s body root rest proxies perm
        ]
      ]

  unfoldable pub apply_clash : Shuffler → Bytes → Bytes × Bool
  unfolding clash_root
  apply_clash s body = elim (y.unmarshal body) [
    | none ↦ (body, false)
    | some [] ↦ (body, false)
    | some (root ∷ rest) ↦ clash_root s body root rest
  ]
