-- ===== src/Subinfo/Vars/Formats.antt =====
-- The formats of internal/subinfo/vars.go stay in their bounds.
use remnawave_subpage_proxy.Prelude.{
  ℕ, zero, suc, ◌+◌, ◌-◌, ◌≤◌, ◌<◌, ◌≡◌, refl, sym, ap, ◌∙◌, inl, inr, Bool, true, false, not, ◌||◌,
  List, [], ◌∷◌, ◌++◌, some, arith, ltb, if◌then◌else◌, length, get_elem?, is_some, Bool-cases,
}
use mathlib.Core.Path.{subst}
use remnawave_subpage_proxy.Prelude.Int.{ℤ, pos, negsuc, pos_part, is_neg, ltb_ℤ}
use remnawave_subpage_proxy.Prelude.Text.{Bytes}
use remnawave_subpage_proxy.Config.File.{TrafficFormat, ProgressBar}
use remnawave_subpage_proxy.Subinfo.Floats.{Platform}
use remnawave_subpage_proxy.Subinfo.Vars.{
  clamp, or_default, binary_units, decimal_units, units_of, unit_at, unit_rounds, unit_index,
  format_bytes, percent_used, repeat, filled_of, render_bar,
}

clamp_bounds : (n : ℤ) (top : ℕ) → (m : ℕ) × (clamp n (pos top) ≡ pos m) × (m ≤ top)
unfolding clamp
clamp_bounds (negsuc n) top = (0, ground arith, omega arith)
clamp_bounds (pos n) top = elim (Bool-cases (ltb top n)) [
  | inl above ↦ (top, ground arith, omega arith)
  | inr within ↦ (n, ground arith, ground arith)
]

or_default-ne-nil :
    (b : Bool) (units : List Bytes)
    → 0 < length (or_default units (if b then binary_units else decimal_units))
or_default-ne-nil true [] = omega arith
or_default-ne-nil false [] = omega arith
or_default-ne-nil b (u ∷ us) = omega arith

units-ne-nil : (f : TrafficFormat) → 0 < length (units_of f).0
unfolding units_of
units-ne-nil f = or_default-ne-nil f.binary_units f.units

get_elem?-total :
    {A : Type 0} (xs : List A) (i : ℕ) → i < length xs → is_some (get_elem? xs i) ≡ true
get_elem?-total [] i h = absurd (omega arith)
get_elem?-total (x ∷ xs) zero h = refl
get_elem?-total (x ∷ xs) (suc i) h = get_elem?-total xs i (omega arith)

module _ (p : Platform) where
  unit_rounds-le :
      (value base : Platform.Float p) (left idx : ℕ)
      → unit_rounds p value base left idx ≤ idx + left
  unfolding unit_rounds
  unit_rounds-le value base zero idx = omega arith
  unit_rounds-le value base (suc left) idx =
      ground (arith, unit_rounds-le (Platform.div p value base) base left (suc idx))

  unit_index-le : (n : ℤ) (base max_idx : ℕ) → unit_index p n base max_idx ≤ max_idx
  unfolding unit_index
  unit_index-le n base max_idx = omega (arith, unit_rounds-le _ _ max_idx 0)

  format_bytes-some :
      (n : ℤ) (f : TrafficFormat)
      → is_some (unit_at (units_of f).0 (unit_index p n (units_of f).1 (length (units_of f).0 - 1)))
        ≡ true
      → is_some (format_bytes p n f) ≡ true
  unfolding format_bytes
  format_bytes-some n f h = ground arith

  -- `FormatBytes` never indexes out of the units, whatever the floating-point arithmetic answers and
  -- whatever units are configured.
  pub format_bytes-total : (n : ℤ) (f : TrafficFormat) → is_some (format_bytes p n f) ≡ true
  format_bytes-total n f = format_bytes-some n f (
      get_elem?-total (units_of f).0 _
        (omega (arith, unit_index-le n (units_of f).1 (length (units_of f).0 - 1), units-ne-nil f)))

  open p use {float64, div, mul, round, to_int}

  percent-clamp :
      (u l : ℤ)
      → (is_neg u || is_neg l) ≡ false
      → not (ltb_ℤ (pos 0) l) ≡ false
      → percent_used p u l
        ≡ some (
            clamp
              (to_int (round (mul (div (float64 u) (float64 l)) (float64 (pos 100)))))
              (pos 100))
  unfolding percent_used
  percent-clamp u l given limited = rw (given, limited)

  percent-early :
      (u l pct : ℤ)
      → percent_used p u l ≡ some pct
      → (is_neg u || is_neg l) ≡ false
      → not (ltb_ℤ (pos 0) l) ≡ true
      → pct ≡ pos 0
  unfolding percent_used
  percent-early u l pct h given unlimited = ground arith

  percent-given : (u l pct : ℤ) → percent_used p u l ≡ some pct → (is_neg u || is_neg l) ≡ false
  unfolding percent_used
  percent-given u l pct h = elim (Bool-cases (is_neg u || is_neg l)) [
    | inl missing ↦ absurd (ground arith)
    | inr given ↦ given
  ]

  -- A percentage that is shown lies between 0 and 100, whatever the floating-point arithmetic
  -- answers.
  pub percent_used_bounds :
      (u l pct : ℤ) → percent_used p u l ≡ some pct → (m : ℕ) × (pct ≡ pos m) × (m ≤ 100)
  percent_used_bounds u l pct h =
      let given = percent-given u l pct h in
      elim (Bool-cases (not (ltb_ℤ (pos 0) l))) [
        | inl unlimited ↦ (0, percent-early u l pct h given unlimited, omega arith)
        | inr limited ↦
            let (m, e, bounded) =
              clamp_bounds (to_int (round (mul (div (float64 u) (float64 l)) (float64 (pos 100)))))
                100 in
            (m, cc (percent-clamp u l given limited), bounded)
      ]

  filled_of_bounds :
      (width : ℕ) (pct : ℤ) → (m : ℕ) × (filled_of p (pos width) pct ≡ pos m) × (m ≤ width)
  unfolding filled_of
  filled_of_bounds width pct =
      clamp_bounds
        (to_int (round (div (mul (float64 (pos width)) (float64 pct)) (float64 (pos 100))))) width

  render_bar_lem :
      (filled empty : Bytes) (width : ℕ) (pct : ℤ)
      → 0 < width
      → render_bar p (record { width = pos width; filled = filled; empty = empty }) pct
        ≡ repeat filled (pos_part (filled_of p (pos width) pct))
          ++ repeat empty (width - pos_part (filled_of p (pos width) pct))
  unfolding render_bar
  render_bar_lem filled empty width pct positive =
      let on : not (ltb_ℤ (pos 0) (pos width)) ≡ false = ground arith in rw on

  bar_cells :
      (filled empty : Bytes) (width m : ℕ) (pct : ℤ)
      → filled_of p (pos width) pct ≡ pos m
      → 0 < width
      → render_bar p (record { width = pos width; filled = filled; empty = empty }) pct
        ≡ repeat filled m ++ repeat empty (width - m)
  bar_cells filled empty width m pct e positive =
      render_bar_lem filled empty width pct positive
      ∙ ap (λ n. repeat filled (pos_part n) ++ repeat empty (width - pos_part n)) e

  bar_of_width :
      (filled empty : Bytes) (width : ℕ) (pct : ℤ)
      → (k : ℕ) × (k ≤ width)
        × (render_bar p (record { width = pos width; filled = filled; empty = empty }) pct
            ≡ repeat filled k ++ repeat empty (width - k))
  bar_of_width filled empty zero pct = (0, omega arith, unfold render_bar in refl)
  bar_of_width filled empty (suc width) pct =
      let (m, e, bounded) = filled_of_bounds (suc width) pct in
      (m, bounded, bar_cells filled empty (suc width) m pct e (omega arith))

  -- A progress bar has exactly as many cells as its width: some filled ones, then empty ones.
  pub render_bar_width :
      (bar : ProgressBar) (width : ℕ) (pct : ℤ)
      → bar.width ≡ pos width
      → (k : ℕ) × (k ≤ width)
        × (render_bar p bar pct ≡ repeat bar.filled k ++ repeat bar.empty (width - k))
  render_bar_width bar width pct h =
      subst
        (λ w.
          (k : ℕ) × (k ≤ width)
          × (render_bar p (record bar { width = w }) pct
              ≡ repeat bar.filled k ++ repeat bar.empty (width - k)))
        (sym h) (bar_of_width bar.filled bar.empty width pct)
