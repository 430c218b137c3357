-- ===== src/Config/Load/Laws.antt =====
-- internal/config/config.go: what a configuration is that the program starts with.
use remnawave_subpage_proxy.Prelude.{
  cons_not_nil, ◌≡◌, ◌≢◌, ◌⊎◌, refl, sym, ap, inl, inr, Bool, true, false, not, ◌&&◌, List, [], ◌∷◌,
  Option, none, some, arith, Bool-cases, none_not_some, Option-cases,
}
use remnawave_subpage_proxy.Prelude.Text.{Bytes, codes, bytes_eq, is_empty, trim_space}
use remnawave_subpage_proxy.Prelude.Text.Laws.{bytes_eq_iff}
use remnawave_subpage_proxy.Prelude.Text.Case.{Unicode}
use remnawave_subpage_proxy.Config.Validate.Rules.{append-nothing}
use remnawave_subpage_proxy.Config.Env.{EnvProblem, env_lookup, unless_blank, required_string}
use remnawave_subpage_proxy.Config.Settings.{Url, Settings}
use remnawave_subpage_proxy.Config.Files.{
  Outside, LoadedFile, loaded, not_read, not_parsed, invalid, load_file,
}
use remnawave_subpage_proxy.Config.Load.{
  Config, Loaded, configured, bad_environment, bad_file, concat, with_file, without_slash,
  checked_url, read_url, required_url, with_problems, reading_problems, required_problems,
  required_if, upstream_url, panel_url, panel_enabled, environment, load,
}
use remnawave_subpage_proxy.Config.Settings.Laws.{IsChecked, settings-IsChecked}
use remnawave_subpage_proxy.Config.Files.Laws.{IsFile, read-IsFile}

false_not_true : false ≢ true
false_not_true = cc

abbrev pub IsWeb : Url → Type 0
IsWeb url =
    ((url.scheme ≡ codes "http") ⊎ (url.scheme ≡ codes "https")) × (is_empty url.host ≡ false)

module _ (u : Unicode) (o : Outside) where
  abbrev pub HasUrl : Option Url → Type 0
  HasUrl m = (url : Url) × ((m ≡ some url) × IsWeb url)

  scheme_known :
      (s : Bytes)
      → not (bytes_eq s (codes "http")) && not (bytes_eq s (codes "https")) ≡ false
      → (s ≡ codes "http") ⊎ (s ≡ codes "https")
  scheme_known s h = elim (Bool-cases (bytes_eq s (codes "http"))) [
    | inl plain ↦ inl ((bytes_eq_iff s (codes "http")).0 plain)
    | inr other ↦ elim (Bool-cases (bytes_eq s (codes "https"))) [
      | inl secure ↦ inr ((bytes_eq_iff s (codes "https")).0 secure)
      | inr unknown ↦ absurd (ground (arith, other, unknown, h))
    ]
  ]

  checked-HasUrl :
      (key raw : Bytes) (m : Option Url)
      → (checked_url u o key raw m).problems ≡ []
      → HasUrl (checked_url u o key raw m).value
  checked-HasUrl key raw none h = absurd (cons_not_nil h)
  checked-HasUrl key raw (some url) h =
      elim (Bool-cases
        (not (bytes_eq url.scheme (codes "http")) && not (bytes_eq url.scheme (codes "https")))) [
          | inl bad ↦ absurd (cons_not_nil (rw bad at h))
          | inr good ↦ elim (Bool-cases (is_empty url.host)) [
            | inl blank ↦ absurd (cons_not_nil (rw (good, blank) at h))
            | inr named ↦
                rw (good, named)
                  (
                    record url { path = without_slash url.path },
                    (refl, (scheme_known url.scheme good, named)),
                  )
          ]
        ]

  unless_blank-named :
      (m : Option Bytes) (raw : Bytes) → unless_blank m ≡ some raw → is_empty raw ≡ false
  unless_blank-named none raw h = absurd (none_not_some h)
  unless_blank-named (some t) raw h = elim (Bool-cases (is_empty (trim_space t))) [
    | inl blank ↦ absurd (none_not_some (rw blank at h))
    | inr named ↦
        let same : some (trim_space t) ≡ some raw = rw named at h in
        let equal : trim_space t ≡ raw = cc in rw (sym equal) named
  ]

  look_up-named : (key raw : Bytes) → env_lookup u o.system key ≡ some raw → is_empty raw ≡ false
  unfolding env_lookup
  look_up-named key raw h = unless_blank-named (o.system.look_up key) raw h

  -- A text that is required is there and is not empty.
  required_given :
      (key : Bytes)
      → (required_string u o.system key).problems ≡ []
      → is_empty (required_string u o.system key).value ≡ false
  unfolding required_string
  required_given key h = elim (Option-cases (env_lookup u o.system key)) [
    | inl gone ↦ absurd (cons_not_nil (rw (gone, required_string) at h))
    | inr (raw, there) ↦ rw (there, required_string) (look_up-named key raw there)
  ]

  required-HasUrl :
      (key : Bytes) → (required_url u o key).problems ≡ [] → HasUrl (required_url u o key).value
  unfolding required_url read_url
  required-HasUrl key h =
      let raw = (required_string u o.system key).value in
      let (h1, h2) = append-nothing (required_string u o.system key).problems _ h in
      let named = required_given key h1 in
      rw named (checked-HasUrl key raw (o.parse_url raw) (rw named at h2))

  not_configured : {r : LoadedFile} → {c : Config} → bad_file r ≢ configured c
  not_configured = cc

  -- What the program starts with.
  pub record IsReady (c : Config) : Type 0 where
    pub checked : IsChecked c.settings
    pub upstream : HasUrl c.settings.upstream.url
    pub panel :
        c.settings.panel.enabled ≡ true
        → HasUrl c.settings.panel.url × (is_empty c.settings.panel.token ≡ false)
    pub file : IsFile u o c.file

  enabled-HasUrl :
      (b : Bool)
      → b ≡ true
      → (required_if b (required_url u o (codes "REMNAWAVE_PANEL_URL")) none).problems ≡ []
      → HasUrl (required_if b (required_url u o (codes "REMNAWAVE_PANEL_URL")) none).value
  enabled-HasUrl true on h = required-HasUrl (codes "REMNAWAVE_PANEL_URL") h
  enabled-HasUrl false on h = absurd (false_not_true on)

  enabled_token :
      (b : Bool)
      → b ≡ true
      → (required_if b (required_string u o.system (codes "REMNAWAVE_API_TOKEN")) []).problems ≡ []
      → is_empty (required_if b (required_string u o.system (codes "REMNAWAVE_API_TOKEN")) []).value
        ≡ false
  enabled_token true on h = required_given (codes "REMNAWAVE_API_TOKEN") h
  enabled_token false on h = absurd (false_not_true on)

  environment-urls :
      (environment u o).problems ≡ []
      → HasUrl (environment u o).value.upstream.url
        × ((environment u o).value.panel.enabled ≡ true
            → HasUrl (environment u o).value.panel.url
              × (is_empty (environment u o).value.panel.token ≡ false))
  unfolding environment
  environment-urls h =
      let (_, left) = append-nothing (concat (reading_problems u o)) (required_problems u o) h in
      let (up, rest) = append-nothing (upstream_url u o).problems _ left in
      let (panel, tokens) = append-nothing (panel_url u o).problems _ rest in
      (
        required-HasUrl (codes "UPSTREAM_URL") up,
        λ on. (
          enabled-HasUrl (panel_enabled u o).value on panel,
          enabled_token (panel_enabled u o).value on tokens,
        ),
      )

  with_problems_ok :
      (ps : List EnvProblem) (r : Loaded) (c : Config)
      → with_problems ps r ≡ configured c
      → (ps ≡ []) × (r ≡ configured c)
  with_problems_ok [] r c h = (refl, h)
  with_problems_ok (p ∷ ps) r c h = absurd (not_bad h)
    where
      not_bad : bad_environment (p ∷ ps) ≢ configured c
      not_bad = cc

  with_file_ok :
      (s : Settings) (path : Bytes) (r : LoadedFile) (c : Config)
      → with_file s path r ≡ configured c
      → (c.settings ≡ s) × (r ≡ loaded c.file c.skipped)
  with_file_ok s path (loaded f kept) c h =
      let same : record { settings = s; file = f; config_path = path; skipped = kept } ≡ c = cc in
      (
        sym (ap (λ (d : Config). d.settings) same),
        ap (λ (d : Config). loaded d.file d.skipped) same,
      )
  with_file_ok s path not_read c h = absurd (not_configured h)
  with_file_ok s path (not_parsed ps) c h = absurd (not_configured h)
  with_file_ok s path (invalid ps qs) c h = absurd (not_configured h)

  -- The program starts only with settings that pass the checks: a known log format and level, no negative
  -- bound of the panel cache, and a fallback cache that, if enabled, keeps bodies for some time within its
  -- budget; with a web address of the upstream and, where the panel is enabled, one of the panel and a
  -- token; and with the default file or one that validation left without a problem.
  pub load-IsReady : (c : Config) → load u o ≡ configured c → IsReady c
  unfolding load load_file
  load-IsReady c h =
      let (quiet, rest) = with_problems_ok _ _ c h in
      let (env, checks) = append-nothing (environment u o).problems _ quiet in
      let (same, from_file) = with_file_ok _ _ _ c rest in
      let (up, panel) = environment-urls env in
      record {
        checked = rw same (settings-IsChecked (environment u o).value checks);
        upstream = rw same up;
        panel = rw same panel;
        file = read-IsFile u o _ _ c.file c.skipped from_file;
      }
