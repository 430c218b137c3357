-- ===== src/Config/Settings/Laws.antt =====
-- internal/config/config.go: settings that pass the checks.
use remnawave_subpage_proxy.Prelude.{cons_not_nil, ◌≡◌, refl, Bool, true, false, not, [], arith}
use remnawave_subpage_proxy.Prelude.Int.{pos, ltb_ℤ, is_neg}
use remnawave_subpage_proxy.Prelude.Text.{codes, contains}
use remnawave_subpage_proxy.Config.Validate.Rules.{append-nothing}
use remnawave_subpage_proxy.Config.Env.{EnvProblem, not_among, not_positive, negative_number}
use remnawave_subpage_proxy.Config.Settings.{
  SubCache, Settings, noted_if, formats, levels, sub_cache_problems, setting_problems,
}

not-false : (b : Bool) → not b ≡ false → b ≡ true
not-false b h = ground arith

not_noted : (b : Bool) (p : EnvProblem) → noted_if b p ≡ [] → b ≡ false
not_noted true p h = absurd (cons_not_nil h)
not_noted false p h = refl

-- A cache that is enabled keeps something, for some time.
pub record IsBudget (c : SubCache) : Type 0 where
  pub lives : ltb_ℤ (pos 0) c.ttl ≡ true
  pub holds : ltb_ℤ (pos 0) c.max_body ≡ true
  pub fits : ltb_ℤ c.max_bytes c.max_body ≡ false

budget : (c : SubCache) → sub_cache_problems c ≡ [] → IsBudget c
unfolding sub_cache_problems
budget c h =
    let (h1, rest) =
      append-nothing
        (noted_if (not (ltb_ℤ (pos 0) c.ttl)) (not_positive (codes "SUBSCRIPTION_CACHE_TTL"))) _
        h in
    let (h2, h3) =
      append-nothing
        (noted_if (not (ltb_ℤ (pos 0) c.max_body))
          (not_positive (codes "SUBSCRIPTION_CACHE_MAX_BODY")))
        _ rest in
    let lives = not_noted (not (ltb_ℤ (pos 0) c.ttl)) _ h1 in
    let holds = not_noted (not (ltb_ℤ (pos 0) c.max_body)) _ h2 in
    record {
      lives = not-false _ lives;
      holds = not-false _ holds;
      fits = not_noted (ltb_ℤ c.max_bytes c.max_body) _ h3;
    }

-- What holds of the settings behind the checks of `Load`.
pub record IsChecked (s : Settings) : Type 0 where
  pub format : contains formats s.log.format ≡ true
  pub level : contains levels s.log.level ≡ true
  pub entries : is_neg s.cache.max_entries ≡ false
  pub sub_cache : s.sub_cache.enabled ≡ true → IsBudget s.sub_cache

pub settings-IsChecked : (s : Settings) → setting_problems s ≡ [] → IsChecked s
unfolding setting_problems sub_cache_problems
settings-IsChecked s h =
    let (h1, r1) =
      append-nothing
        (noted_if (not (contains formats s.log.format))
          (not_among (codes "LOG_FORMAT") s.log.format))
        _ h in
    let (h2, r2) =
      append-nothing
        (noted_if (not (contains levels s.log.level)) (not_among (codes "LOG_LEVEL") s.log.level)) _
        r1 in
    let (h3, h4) =
      append-nothing
        (noted_if (is_neg s.cache.max_entries)
          (negative_number (codes "CACHE_MAX_ENTRIES") s.cache.max_entries))
        _ r2 in
    record {
      format = not-false _ (not_noted (not (contains formats s.log.format)) _ h1);
      level = not-false _ (not_noted (not (contains levels s.log.level)) _ h2);
      entries = not_noted (is_neg s.cache.max_entries) _ h3;
      sub_cache = λ on. budget s.sub_cache (rw on at h4);
    }
