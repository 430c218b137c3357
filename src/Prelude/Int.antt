-- ===== src/Prelude/Int.antt =====
-- Go's int64 as an integer in its range: ℤ over the native numbers, and the wrap-around of a sum.
use remnawave_subpage_proxy.Prelude.Tests.{ltb, leb, if◌then◌else◌}
use Prim.Native.Nat.{ℕ, suc, ◌+◌, ◌-◌, ◌%◌, ◌^◌, ◌≤◌}
use mathlib.Core.Bool.{Bool}

-- `negsuc n` is -(n + 1).
pub data ℤ : Type 0 where
  pos : ℕ → ℤ
  negsuc : ℕ → ℤ

abbrev pub pos_part : ℤ → ℕ
pos_part (pos n) = n
pos_part (negsuc n) = 0

abbrev pub neg_part : ℤ → ℕ
neg_part (pos n) = 0
neg_part (negsuc n) = suc n

-- a - b, as an integer.
abbrev pub sub_ℕ : ℕ → ℕ → ℤ
sub_ℕ a b = if leb b a then pos (a - b) else negsuc (b - a - 1)

abbrev pub ltb_ℤ : ℤ → ℤ → Bool
ltb_ℤ a b = ltb (pos_part a + neg_part b) (pos_part b + neg_part a)

-- The int64 whose bit pattern is `n % 2 ^ 64`.
abbrev pub of_word : ℕ → ℤ
of_word n = if ltb n (2 ^ 63) then pos n else sub_ℕ n (2 ^ 64)

-- The bit pattern of an int64.
abbrev pub to_word : ℤ → ℕ
to_word (pos n) = n
to_word (negsuc n) = 2 ^ 64 - suc n

-- Go's `a + b` on int64.
unfoldable pub add_int64 : ℤ → ℤ → ℤ
add_int64 a b = of_word ((to_word a + to_word b) % 2 ^ 64)

abbrev pub is_neg : ℤ → Bool
is_neg a = ltb_ℤ a (pos 0)

abbrev pub max_int64 : ℕ
max_int64 = 2 ^ 63 - 1

-- The integers an int64 holds.
abbrev pub IsInt64 : ℤ → Type 0
IsInt64 (pos n) = n ≤ max_int64
IsInt64 (negsuc n) = n ≤ max_int64
