-- ===== src/Prelude/Text/Utf8.antt =====
-- `[]rune(s)` of Go, each rune as the bytes of its encoding; a byte that begins no valid encoding
-- is the replacement character.
use Prim.Native.Nat.{ℕ, zero, suc}
use mathlib.Core.Bool.{Bool, true, false, ◌&&◌, ◌||◌}
use mathlib.Core.List.{List, [], ◌∷◌, ◌++◌}
use mathlib.Core.Option.{Option, none, some}
use remnawave_subpage_proxy.Prelude.Tests.{ltb, leb, ◌==◌, if◌then◌else◌}
use remnawave_subpage_proxy.Prelude.Text.{Bytes}

abbrev pub replacement : Bytes
replacement = 0xEF ∷ 0xBF ∷ 0xBD ∷ []

abbrev pub in_range : ℕ → ℕ → ℕ → Bool
in_range lo hi c = leb lo c && leb c hi

abbrev pub is_two : ℕ → ℕ → Bool
is_two c d = in_range 0xC2 0xDF c && in_range 0x80 0xBF d

abbrev pub is_three : ℕ → ℕ → ℕ → Bool
is_three c d e =
    (c == 0xE0 && in_range 0xA0 0xBF d
      || in_range 0xE1 0xEC c && in_range 0x80 0xBF d
      || c == 0xED && in_range 0x80 0x9F d
      || in_range 0xEE 0xEF c && in_range 0x80 0xBF d)
    && in_range 0x80 0xBF e

abbrev pub is_four : ℕ → ℕ → ℕ → ℕ → Bool
is_four c d e f =
    (c == 0xF0 && in_range 0x90 0xBF d
      || in_range 0xF1 0xF3 c && in_range 0x80 0xBF d
      || c == 0xF4 && in_range 0x80 0x8F d)
    && in_range 0x80 0xBF e
    && in_range 0x80 0xBF f

-- The first rune of a text: its encoding, which is as long as what it was read from, or the
-- replacement character for one byte.
unfoldable pub rune2 : ℕ → ℕ → Option Bytes
rune2 c d = if is_two c d then some (c ∷ d ∷ []) else none

unfoldable pub rune3 : ℕ → ℕ → ℕ → Option Bytes
rune3 c d e = if is_three c d e then some (c ∷ d ∷ e ∷ []) else rune2 c d

unfoldable pub rune4 : ℕ → ℕ → ℕ → ℕ → Option Bytes
rune4 c d e f = if is_four c d e f then some (c ∷ d ∷ e ∷ f ∷ []) else rune3 c d e

-- A valid encoding at the front of a text.
unfoldable pub valid_front : Bytes → Option Bytes
unfolding rune2 rune3 rune4
valid_front [] = none
valid_front (c ∷ []) = if ltb c 0x80 then some (c ∷ []) else none
valid_front (c ∷ d ∷ []) = if ltb c 0x80 then some (c ∷ []) else rune2 c d
valid_front (c ∷ d ∷ e ∷ []) = if ltb c 0x80 then some (c ∷ []) else rune3 c d e
valid_front (c ∷ d ∷ e ∷ f ∷ _) = if ltb c 0x80 then some (c ∷ []) else rune4 c d e f

abbrev pub tail_width : Bytes → ℕ
tail_width [] = 0
tail_width (_ ∷ []) = 0
tail_width (_ ∷ _ ∷ []) = 1
tail_width (_ ∷ _ ∷ _ ∷ []) = 2
tail_width (_ ∷ _ ∷ _ ∷ _ ∷ _) = 3

-- The number counts the bytes left of a rune begun.
unfoldable pub runes_from : ℕ → Bytes → List Bytes
runes_from k [] = []
runes_from (suc k) (c ∷ s) = runes_from k s
runes_from zero (c ∷ s) = elim (valid_front (c ∷ s)) [
  | none ↦ replacement ∷ runes_from zero s
  | some r ↦ r ∷ runes_from (tail_width r) s
]

unfoldable pub runes : Bytes → List Bytes
unfolding runes_from valid_front
runes s = runes_from 0 s

-- `utf8.Valid(s)`
unfoldable pub is_valid_from : ℕ → Bytes → Bool
is_valid_from k [] = true
is_valid_from (suc k) (c ∷ s) = is_valid_from k s
is_valid_from zero (c ∷ s) = elim (valid_front (c ∷ s)) [
  | none ↦ false
  | some r ↦ is_valid_from (tail_width r) s
]

unfoldable pub is_valid : Bytes → Bool
unfolding is_valid_from valid_front
is_valid s = is_valid_from 0 s

-- `string(runes)`
unfoldable pub concat : List Bytes → Bytes
concat [] = []
concat (r ∷ rs) = r ++ concat rs
