-- ===== src/Hosts/Unchanged.antt =====
-- internal/hosts: a body that is reported as unchanged is the body that was given.
use remnawave_subpage_proxy.Prelude.{
  ◌≡◌, refl, inl, inr, Bool, true, false, not, ◌||◌, if◌then◌else◌, List, [], ◌∷◌, Option, none,
  some, map, Option-cases,
}
use remnawave_subpage_proxy.Prelude.Text.{Bytes, codes, is_empty, split}
use remnawave_subpage_proxy.Hosts.Shuffle.{
  Shuffler, shuffles_any, Format, unknown, links, xray, singbox, clash, permutation,
}
use remnawave_subpage_proxy.Hosts.Links.{apply_links, decode_list, link_name, trim_returns}
use remnawave_subpage_proxy.Hosts.Json.{
  parse_object, get_member, set_member, marshal_array, marshal_object,
}
use remnawave_subpage_proxy.Hosts.Shuffle.{arrange}
use remnawave_subpage_proxy.Hosts.Documents.{
  apply_xray, xray_name, apply_singbox, singbox_root, singbox_body, singbox_name, new_index,
  reorder_selector,
}
use remnawave_subpage_proxy.Hosts.Clash.{
  apply_clash, clash_root, clash_body, clash_document, is_mapping, sequence_value, proxy_name,
}
use remnawave_subpage_proxy.Hosts.Apply.{Readers, sniff, apply, apply_format}

-- A result that is not marked as changed is the body.
record IsHonest (body : Bytes) (out : Bytes × Bool) : Type 0 where
  kept : out.1 ≡ false → out.0 ≡ body

-- A step that may fail leaves the body as it is where it fails.
through :
    {A : Type 0} (body : Bytes) (o : Option A) (f : A → Bytes × Bool)
    → ((x : A) → IsHonest body (f x))
    → IsHonest body (elim o [ none ↦ (body, false) | some x ↦ f x ])
through body none f h = record { kept = λ e. refl }
through body (some x) f h = h x

changed : (body out : Bytes) → IsHonest body (out, true)
changed body out = record { kept = λ e. cc }

guarded :
    (body : Bytes) (b : Bool) (out : Bytes × Bool)
    → IsHonest body out
    → IsHonest body (if b then (body, false) else out)
guarded body true out h = record { kept = λ e. refl }
guarded body false out h = h

module _ (r : Readers) (s : Shuffler) (body : Bytes) where
  links-IsHonest : IsHonest body (apply_links r.unicode r.base64 r.link_readers s body)
  unfolding apply_links
  links-IsHonest = through body (decode_list r.base64 body) _ (λ t.
      through body
        (permutation s (
          map (λ line. link_name r.unicode r.base64 r.link_readers (trim_returns line))
            (split 10 t.0)))
        _ (λ perm. changed body _))

  xray-IsHonest : IsHonest body (apply_xray r.json s body)
  unfolding apply_xray
  xray-IsHonest = through body (r.json.unmarshal_array body) _ (λ items.
      through body (permutation s (map (xray_name r.json s) items)) _ (λ perm. changed body _))

  singbox-IsHonest : IsHonest body (apply_singbox r.json s body)
  unfolding apply_singbox singbox_root singbox_body
  singbox-IsHonest = through body (parse_object r.json body) _ (λ root.
      through body (get_member (codes "outbounds") root) _ (λ raw.
        through body (r.json.unmarshal_array raw) _ (λ outbounds.
          through body (permutation s (map (singbox_name r.json s) outbounds)) _ (λ perm.
            through body
              (marshal_object r.json (
                set_member (codes "outbounds")
                  (marshal_array (
                    map
                      (reorder_selector r.json s
                        (new_index s (map (singbox_name r.json s) outbounds) 0 perm []))
                      (arrange [] outbounds perm)))
                  root))
              _ (λ out. changed body _)))))

  clash_root-IsHonest :
      (root : r.yaml.Tree) (rest : List r.yaml.Tree)
      → IsHonest body (clash_root r.yaml s body root rest)
  unfolding clash_root clash_body clash_document
  clash_root-IsHonest root rest = guarded body (not (is_mapping (r.yaml.kind root))) _ (
      through body (sequence_value r.yaml (codes "proxies") root) _ (λ proxies.
        through body (permutation s (map (proxy_name r.yaml) (r.yaml.content proxies))) _ (λ perm.
          through body (r.yaml.encode (clash_document r.yaml s root rest proxies perm)) _
            (λ out. changed body _))))

  clash-IsHonest : IsHonest body (apply_clash r.yaml s body)
  unfolding apply_clash
  clash-IsHonest = elim (Option-cases (r.yaml.unmarshal body)) [
    | inl unread ↦ rw (apply_clash, unread) (record { kept = λ h. refl })
    | inr ([], read) ↦ rw (apply_clash, read) (record { kept = λ h. refl })
    | inr (root ∷ rest, read) ↦ rw (apply_clash, read) (clash_root-IsHonest root rest)
  ]

  format-IsHonest : (f : Format) → IsHonest body (apply_format r s body f)
  unfolding apply_format
  format-IsHonest unknown = record { kept = λ h. refl }
  format-IsHonest links = links-IsHonest
  format-IsHonest xray = xray-IsHonest
  format-IsHonest singbox = singbox-IsHonest
  format-IsHonest clash = clash-IsHonest

-- A body that `Apply` does not report as changed is the body that it was given, in every format and
-- after every failure on the way.
pub apply-IsHonest :
    (r : Readers) (s : Option Shuffler) (body : Bytes)
    → (apply r s body).1 ≡ false
    → (apply r s body).0 ≡ body
unfolding apply
apply-IsHonest r none body = λ h. refl
apply-IsHonest r (some s) body =
    (guarded body (not (shuffles_any (some s)) || is_empty body) _
      (format-IsHonest r s body (sniff body))).kept
