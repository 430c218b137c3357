-- ===== src/Prelude/Text/Case.antt =====
-- Letter case: `strings.ToLower`, `strings.ToUpper` and `strings.EqualFold` of Go.
use Prim.Native.Nat.{ℕ, ◌+◌, ◌-◌}
use mathlib.Core.Bool.{Bool, ◌&&◌}
use mathlib.Core.List.{[], ◌∷◌, map}
use remnawave_subpage_proxy.Prelude.Tests.{ltb, leb, ◌==◌, if◌then◌else◌}
use remnawave_subpage_proxy.Prelude.Lists.{all}
use remnawave_subpage_proxy.Prelude.Text.{Bytes, bytes_eq}

-- Go maps ASCII texts byte by byte. What it does with any other text rests on the tables of
-- Unicode, which are a parameter of the model.
pub record Unicode : Type 0 where
  pub wide_lower : Bytes → Bytes
  pub wide_upper : Bytes → Bytes

unfoldable pub lower_byte : ℕ → ℕ
lower_byte c = if leb b'A' c && leb c b'Z' then c + 32 else c

unfoldable pub upper_byte : ℕ → ℕ
upper_byte c = if leb b'a' c && leb c b'z' then c - 32 else c

abbrev pub is_ascii : Bytes → Bool
is_ascii = all (λ c. ltb c 128)

unfoldable pub to_lower : Unicode → Bytes → Bytes
unfolding lower_byte
to_lower u s = if is_ascii s then map lower_byte s else u.wide_lower s

unfoldable pub to_upper : Unicode → Bytes → Bytes
unfolding upper_byte
to_upper u s = if is_ascii s then map upper_byte s else u.wide_upper s

-- Only two runes beyond ASCII fold to an ASCII letter: the Kelvin sign (0xE2 0x84 0xAA) to k, and
-- the long s (0xC5 0xBF) to s.
unfoldable pub fold_ascii : Bytes → Bytes
unfolding lower_byte
fold_ascii [] = []
fold_ascii (c ∷ []) = lower_byte c ∷ []
fold_ascii (c ∷ d ∷ []) =
    if c == 0xC5 && d == 0xBF then b's' ∷ [] else lower_byte c ∷ lower_byte d ∷ []
fold_ascii (c ∷ d ∷ e ∷ s) =
    let long_s = b's' ∷ fold_ascii (e ∷ s) in
    let kelvin = b'k' ∷ fold_ascii s in
    let plain = lower_byte c ∷ fold_ascii (d ∷ e ∷ s) in
    if c == 0xC5 && d == 0xBF
    then long_s
    else if c == 0xE2 && d == 0x84 && e == 0xAA
    then kelvin
    else plain

-- `strings.EqualFold(s, t)` for an ASCII text `t`
unfoldable pub equal_fold : Bytes → Bytes → Bool
unfolding fold_ascii bytes_eq lower_byte
equal_fold s t = bytes_eq (fold_ascii s) (map lower_byte t)
