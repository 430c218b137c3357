-- ===== src/Hosts/Documents.antt =====
-- internal/hosts/xray.go and internal/hosts/singbox.go: the servers of a JSON subscription.
use remnawave_subpage_proxy.Prelude.{
  ℕ, suc, Bool, true, false, not, ◌||◌, List, [], ◌∷◌, none, some, is_some, if◌then◌else◌, map,
  get_elem?,
}
use remnawave_subpage_proxy.Prelude.Text.{Bytes, codes, is_empty}
use remnawave_subpage_proxy.Hosts.Shuffle.{Shuffler, group, permutation, arrange, reorder_names}
use remnawave_subpage_proxy.Hosts.Json.{
  Json, Object, get_member, set_member, marshal_array, marshal_object, parse_object, indent_like,
  or_bytes,
}

-- The new slots by name: `newIndex[names[from]] = slot` for each slot in turn, for names in a group. A
-- later slot replaces an earlier one.
unfoldable pub new_index : Shuffler → List Bytes → ℕ → List ℕ → List (Bytes × ℕ) → List (Bytes × ℕ)
new_index s names slot [] index = index
new_index s names slot (from ∷ perm) index =
    let name = or_bytes [] (get_elem? names from) in
    new_index s names (suc slot) perm
      (if is_some (group s name) then (name, slot) ∷ index else index)

abbrev pub no_names : List Bytes → Bool
no_names [] = true
no_names (_ ∷ _) = false

module _ (j : Json) (s : Shuffler) where
  unfoldable pub xray_name : Bytes → Bytes
  xray_name config = or_bytes [] (j.remarks config)

  -- `applyXray`
  unfoldable pub apply_xray : Bytes → Bytes × Bool
  unfolding xray_name
  apply_xray body = elim (j.unmarshal_array body) [
    | none ↦ (body, false)
    | some items ↦ elim (permutation s (map xray_name items)) [
      | none ↦ (body, false)
      | some perm ↦ (indent_like j body (marshal_array (arrange [] items perm)), true)
    ]
  ]

  -- The name of an outbound with a server.
  unfoldable pub singbox_name : Bytes → Bytes
  singbox_name raw = let n = j.node raw in if is_empty n.server then [] else n.tag

  -- A selector whose list has changed, written anew; where that fails it stays as it is.
  unfoldable pub write_list : Bytes → List Bytes → Bytes
  write_list raw names = elim (parse_object j raw) [
    | none ↦ raw
    | some o ↦ elim (j.marshal_strings names) [
      | none ↦ raw
      | some list ↦ or_bytes raw (marshal_object j (set_member (codes "outbounds") list o))
    ]
  ]

  -- The body of the last loop of `applySingbox`.
  unfoldable pub reorder_selector : List (Bytes × ℕ) → Bytes → Bytes
  unfolding write_list
  reorder_selector index raw =
      let n = j.node raw in
      let (names, changed) = reorder_names index n.outbounds in
      if not n.is_read || no_names n.outbounds
      then raw
      else if not changed
      then raw
      else write_list raw names

  -- `applySingbox` behind the permutation.
  unfoldable pub singbox_body : Bytes → Object → List Bytes → List ℕ → Bytes × Bool
  unfolding reorder_selector new_index singbox_name
  singbox_body body root outbounds perm =
      let index = new_index s (map singbox_name outbounds) 0 perm [] in
      let list = map (reorder_selector index) (arrange [] outbounds perm) in
      elim (marshal_object j (set_member (codes "outbounds") (marshal_array list) root)) [
        | none ↦ (body, false)
        | some out ↦ (indent_like j body out, true)
      ]

  -- `applySingbox` behind the reading of the body.
  unfoldable pub singbox_root : Bytes → Object → Bytes × Bool
  unfolding singbox_body
  singbox_root body root = elim (get_member (codes "outbounds") root) [
    | none ↦ (body, false)
    | some raw ↦ elim (j.unmarshal_array raw) [
      | none ↦ (body, false)
      | some outbounds ↦ elim (permutation s (map singbox_name outbounds)) [
        | none ↦ (body, false)
        | some perm ↦ singbox_body body root outbounds perm
      ]
    ]
  ]

  unfoldable pub apply_singbox : Bytes → Bytes × Bool
  unfolding singbox_root
  apply_singbox body = elim (parse_object j body) [
    | none ↦ (body, false)
    | some root ↦ singbox_root body root
  ]
