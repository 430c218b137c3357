-- ===== src/Subinfo/Vars/PanelFree.antt =====
-- `NeedsPanel` of internal/subinfo/vars.go is right: where it asks for no lookup, the panel's answer
-- would change nothing.
use remnawave_subpage_proxy.Prelude.{
  ◌≡◌, ◌≢◌, refl, sym, ap, ◌∙◌, inl, inr, true, false, List, [], ◌∷◌, Option, none, some, arith,
  All, Option-cases,
}
use remnawave_subpage_proxy.Prelude.Int.{pos, is_neg, ltb_ℤ}
use remnawave_subpage_proxy.Prelude.Text.{Bytes}
use remnawave_subpage_proxy.Prelude.Text.Case.{Unicode}
use remnawave_subpage_proxy.Prelude.Assoc.{lookup}
use remnawave_subpage_proxy.Panel.Info.{Info}
use remnawave_subpage_proxy.Subinfo.UserInfo.{UserInfo, used}
use remnawave_subpage_proxy.Subinfo.Floats.{Platform}
use remnawave_subpage_proxy.Subinfo.Catalog.{
  Origin, origin_local, origin_traffic, origin_panel, Name, name_of, catalog, days_left, username,
}
use remnawave_subpage_proxy.Subinfo.Vars.{
  Source, Resolver, header_counters, fill_counters, traffic_counters, source_expiry, resolve_expiry,
  resolve_traffic, resolve_local, resolve_name, resolve, lookup_var, needs, name_needs, needs_panel,
}
use remnawave_subpage_proxy.Tmpl.{Unknown, names, render}
use remnawave_subpage_proxy.Tmpl.Laws.{render-agrees}

-- A header that gives the traffic, the quota and the expiry date.
pub record IsComplete (i : UserInfo) : Type 0 where
  pub counted : is_neg (used i) ≡ false
  pub limited : is_neg i.total ≡ false
  pub dated : ltb_ℤ (pos 0) i.expire ≡ true

abbrev pub with_panel : Source → Option Info → Source
with_panel src panel = record src { panel = panel }

fill_counters_complete :
    (i : UserInfo) (panel : Option Info)
    → IsComplete i
    → fill_counters panel (header_counters (some i)) ≡ header_counters (some i)
unfolding fill_counters header_counters
fill_counters_complete i none h = refl
fill_counters_complete i (some q) h = rw (h.counted, h.limited, h.counted)

module _ (p : Platform) (r : Resolver) (src : Source) (i : UserInfo) (complete : IsComplete i) where
  source_expiry_complete :
      (panel : Option Info)
      → source_expiry p (with_panel (record src { user_info = some i }) panel)
        ≡ source_expiry p (with_panel (record src { user_info = some i }) none)
  unfolding source_expiry
  source_expiry_complete panel = rw complete.dated

  resolve_expiry_complete :
      (name : Name) (panel : Option Info)
      → name ≢ days_left
      → resolve_expiry p r name (with_panel (record src { user_info = some i }) panel)
        ≡ resolve_expiry p r name (with_panel (record src { user_info = some i }) none)
  unfolding resolve_expiry
  resolve_expiry_complete days_left panel h = absurd (h refl)
  resolve_expiry_complete _ panel h = ground (arith, source_expiry_complete panel)

  traffic_counters_complete :
      (panel : Option Info)
      → traffic_counters (with_panel (record src { user_info = some i }) panel)
        ≡ traffic_counters (with_panel (record src { user_info = some i }) none)
  unfolding traffic_counters
  traffic_counters_complete panel =
      fill_counters_complete i panel complete ∙ sym (fill_counters_complete i none complete)

  resolve_traffic_complete :
      (name : Name) (panel : Option Info)
      → name ≢ days_left
      → resolve_traffic p r name (with_panel (record src { user_info = some i }) panel)
        ≡ resolve_traffic p r name (with_panel (record src { user_info = some i }) none)
  unfolding resolve_traffic
  resolve_traffic_complete name panel h =
      rw (traffic_counters_complete panel, resolve_expiry_complete name panel h)

  resolve_local-panel :
      (name : Name) (panel : Option Info)
      → resolve_local p r name (with_panel (record src { user_info = some i }) panel)
        ≡ resolve_local p r name (with_panel (record src { user_info = some i }) none)
  unfolding resolve_local
  resolve_local-panel username panel = refl
  resolve_local-panel _ panel = refl

  resolve_name_complete :
      (origin : Origin) (name : Name) (panel : Option Info)
      → name ≢ days_left
      → needs origin true ≡ false
      → resolve_name p r origin name (with_panel (record src { user_info = some i }) panel)
        ≡ resolve_name p r origin name (with_panel (record src { user_info = some i }) none)
  unfolding resolve_name
  resolve_name_complete origin_local name panel h n = resolve_local-panel name panel
  resolve_name_complete origin_traffic name panel h n = resolve_traffic_complete name panel h
  resolve_name_complete origin_panel name panel h n = cc

  lookup_var_complete :
      (text : Bytes) (panel : Option Info)
      → name_of text ≢ some days_left
      → name_needs r text true ≡ false
      → lookup_var p r (with_panel (record src { user_info = some i }) panel) text
        ≡ lookup_var p r (with_panel (record src { user_info = some i }) none) text
  unfolding lookup_var name_needs
  lookup_var_complete text panel h n = elim (Option-cases (lookup text r.custom)) [
    | inr (v, custom) ↦ rw (custom, lookup_var)
    | inl absent ↦ elim (Option-cases (name_of text)) [
      | inl unlisted ↦ rw (absent, lookup_var, unlisted, resolve)
      | inr (name, listed) ↦
          rw (absent, lookup_var, listed, resolve)
            (resolve_name_complete (catalog name) name panel (λ e. h (listed ∙ ap some e))
              (rw (absent, name_needs, listed) at n))
    ]
  ]

  lookups_complete :
      (texts : List Bytes) (panel : Option Info)
      → All (λ t. name_of t ≢ some days_left) texts
      → needs_panel r texts true ≡ false
      → All
          (λ t.
            lookup_var p r (with_panel (record src { user_info = some i }) panel) t
            ≡ lookup_var p r (with_panel (record src { user_info = some i }) none) t)
          texts
  unfolding needs_panel
  lookups_complete [] panel h n = tt
  lookups_complete (t ∷ texts) panel (ht, h) n =
      (lookup_var_complete t panel ht (ground arith), lookups_complete texts panel h (ground arith))

  -- Where the response header gives traffic, quota and expiry date and `NeedsPanel` asks for no
  -- lookup, a template without {DAYS_LEFT} renders to the same text whatever the panel would answer:
  -- the lookup that is saved changes nothing.
  pub render-panel_free :
      (u : Unicode) (template : Bytes) (unknown : Unknown) (panel : Option Info)
      → All (λ t. name_of t ≢ some days_left) (names template)
      → needs_panel r (names template) true ≡ false
      → render u template
          (lookup_var p r (with_panel (record src { user_info = some i }) panel))
          unknown
        ≡ render u template
            (lookup_var p r (with_panel (record src { user_info = some i }) none))
            unknown
  render-panel_free u template unknown panel h n =
      render-agrees u template _ _ unknown (lookups_complete (names template) panel h n)
