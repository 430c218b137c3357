-- ===== src/Prelude/Text/Trim.antt =====
-- `strings.TrimSpace` leaves a text of printable ASCII bytes alone.
use Prim.Native.Nat.{ℕ, ◌<◌}
use mathlib.Core.List.{[], ◌∷◌, reverse, reverse-cons, reverse-reverse}
use mathlib.Core.Path.{◌≡◌, refl}
use native.Mathlib.Omega.{arith}
use remnawave_subpage_proxy.Prelude.Lists.{All, All-append}
use remnawave_subpage_proxy.Prelude.Text.{
  Bytes, space_width, space_width_back, skip_spaces, trim_space, is_space_byte, is_space_pair,
  is_space_triple,
}

-- A byte of ASCII behind the space.
abbrev pub IsPrintable : ℕ → Type 0
IsPrintable c = (32 < c) × (c < 128)

All-reverse : (s : Bytes) → All IsPrintable s → All IsPrintable (reverse s)
All-reverse [] h = tt
All-reverse (c ∷ s) (here, h) =
    rw (reverse-cons c s) (All-append IsPrintable (reverse s) (c ∷ []) (All-reverse s h) (here, tt))

width_none : (c : ℕ) (s : Bytes) → IsPrintable c → space_width (c ∷ s) ≡ 0
unfolding space_width is_space_byte is_space_pair is_space_triple
width_none c [] (low, high) = ground arith
width_none c (d ∷ []) (low, high) = ground arith
width_none c (d ∷ e ∷ s) (low, high) = ground arith

width_back_none :
    (c : ℕ) (s : Bytes) → IsPrintable c → All IsPrintable s → space_width_back (c ∷ s) ≡ 0
unfolding space_width_back is_space_byte is_space_pair is_space_triple
width_back_none c [] (low, high) h = ground arith
width_back_none c (d ∷ []) (low, high) ((dl, dh), h) = ground arith
width_back_none c (d ∷ e ∷ s) (low, high) ((dl, dh), ((el, eh), h)) = ground arith

skip_front : (s : Bytes) → All IsPrintable s → skip_spaces space_width 0 s ≡ s
unfolding skip_spaces
skip_front [] h = refl
skip_front (c ∷ s) (here, h) = rw (width_none c s here, skip_spaces) refl

skip_back : (s : Bytes) → All IsPrintable s → skip_spaces space_width_back 0 s ≡ s
unfolding skip_spaces
skip_back [] h = refl
skip_back (c ∷ s) (here, h) = rw (width_back_none c s here h, skip_spaces) refl

pub trim_space_printable : (s : Bytes) → All IsPrintable s → trim_space s ≡ s
unfolding trim_space
trim_space_printable s h =
    rw (skip_front s h, skip_back (reverse s) (All-reverse s h)) (reverse-reverse s)
