-- ===== src/Config/Env/Laws.antt =====
-- internal/config/env.go: what the readers return.
use remnawave_subpage_proxy.Prelude.{
  ℕ, cons_not_nil, ◌*◌, ◌%◌, ◌^◌, ◌≤◌, ◌≡◌, ◌⊎◌, refl, inl, inr, true, false, [], Option, none,
  some, arith, ltb, Bool-cases, Option-cases,
}
use remnawave_subpage_proxy.Prelude.Int.{ℤ, pos, negsuc, is_neg, of_word, max_int64}
use remnawave_subpage_proxy.Prelude.Text.{Bytes}
use remnawave_subpage_proxy.Prelude.Text.Case.{Unicode}
use remnawave_subpage_proxy.Prelude.Text.Decimal.{parse_int}
use remnawave_subpage_proxy.Config.Env.{
  parse_size, mul_int64, System, env_lookup, given_duration, duration, size_val,
}

of_word_small : (n : ℕ) → n ≤ max_int64 → of_word (n % 2 ^ 64) ≡ pos n
of_word_small n h =
    let same : n % 2 ^ 64 ≡ n = omega arith in
    let low : ltb n (2 ^ 63) ≡ true = ground arith in rw (same, low) refl

-- A product of numbers that an int64 holds is exact.
mul_int64_exact : (a b : ℕ) → a * b ≤ max_int64 → mul_int64 (pos a) (pos b) ≡ pos (a * b)
unfolding mul_int64
mul_int64_exact a b h = of_word_small (a * b) h

module _ (u : Unicode) (sys : System) where
  -- A duration that a reader accepts without a problem.
  abbrev pub IsLasting : Bytes → ℤ → Type 0
  IsLasting raw d =
      ((n : ℕ) × ((parse_int raw ≡ some (pos n)) × (d ≡ pos (n * 1000000000))))
      ⊎ ((parse_int raw ≡ none) × (sys.parse_duration raw ≡ some d) × (is_neg d ≡ false))

  given-IsLasting :
      (key raw : Bytes) (other : ℤ) (whole : Option ℤ) (parsed : Option ℤ)
      → ((n : ℕ) → whole ≡ some (pos n) → n * 1000000000 ≤ max_int64)
      → (given_duration u sys key other raw whole parsed).problems ≡ []
      → ((n : ℕ) × ((whole ≡ some (pos n))
            × ((given_duration u sys key other raw whole parsed).value ≡ pos (n * 1000000000))))
        ⊎ ((whole ≡ none)
            × (parsed ≡ some (given_duration u sys key other raw whole parsed).value)
            × (is_neg (given_duration u sys key other raw whole parsed).value ≡ false))
  unfolding given_duration
  given-IsLasting key raw other (some (pos n)) parsed small h =
      let plain : is_neg (pos n) ≡ false = ground arith in
      rw plain (inl (n, (refl, mul_int64_exact n 1000000000 (small n refl))))
  given-IsLasting key raw other (some (negsuc n)) parsed small h =
      let minus : is_neg (negsuc n) ≡ true = ground arith in absurd (cons_not_nil (rw minus at h))
  given-IsLasting key raw other none none small h = absurd (cons_not_nil h)
  given-IsLasting key raw other none (some d) small h = elim (Bool-cases (is_neg d)) [
    | inl below ↦ absurd (cons_not_nil (rw below at h))
    | inr above ↦ rw above (inr (refl, refl, above))
  ]

  -- What `duration` reads without a problem is, where the variable is not set, the default; else the
  -- bare number of seconds in nanoseconds, if they fit an int64, or the duration that the text spells,
  -- which is not negative.
  pub duration-IsLasting :
      (key : Bytes) (other : ℤ)
      → ((raw : Bytes) (n : ℕ)
          → env_lookup u sys key ≡ some raw
          → parse_int raw ≡ some (pos n)
          → n * 1000000000 ≤ max_int64)
      → (duration u sys key other).problems ≡ []
      → ((env_lookup u sys key ≡ none) × ((duration u sys key other).value ≡ other))
        ⊎ ((raw : Bytes) × ((env_lookup u sys key ≡ some raw)
              × IsLasting raw (duration u sys key other).value))
  unfolding duration
  duration-IsLasting key other small h = elim (Option-cases (env_lookup u sys key)) [
    | inl unset ↦ rw (unset, duration) (inl (refl, refl))
    | inr (raw, there) ↦
        rw (there, duration)
          (inr (
            raw,
            (
              refl,
              given-IsLasting key raw other (parse_int raw) (sys.parse_duration raw)
                  (λ n e. small raw n there e) (rw (there, duration) at h),
            ),
          ))
  ]

  -- A size that `parse_size` reads.
  pub size_val-positive :
      (key : Bytes) (other : ℤ)
      → is_neg other ≡ false
      → is_neg (size_val u sys key other).value ≡ false
  unfolding size_val
  size_val-positive key other h = elim (Option-cases (env_lookup u sys key)) [
    | inl unset ↦ rw (unset, size_val) h
    | inr (raw, there) ↦ elim (Option-cases (parse_size u raw)) [
      | inl bad ↦ rw (there, size_val, bad) h
      | inr (n, ok) ↦ elim (Bool-cases (is_neg n)) [
        | inl below ↦ rw (there, size_val, ok, below) h
        | inr above ↦ rw (there, size_val, ok, above) above
      ]
    ]
  ]
