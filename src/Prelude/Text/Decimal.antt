-- ===== src/Prelude/Text/Decimal.antt =====
-- `strconv.ParseInt(s, 10, 64)` and `strconv.Atoi`: an optional sign and decimal digits, refused
-- outside the range of int64.
use Prim.Native.Nat.{ℕ, ◌+◌, ◌-◌, ◌*◌}
use mathlib.Core.Bool.{◌&&◌}
use mathlib.Core.List.{[], ◌∷◌}
use mathlib.Core.Option.{Option, none, some}
use mathlib.Core.Path.{◌≡◌, refl}
use mathlib.Core.Logic.{inl, inr}
use native.Mathlib.Omega.{arith}
use remnawave_subpage_proxy.Prelude.Tests.{leb, ◌==◌, Bool-cases, if◌then◌else◌}
use remnawave_subpage_proxy.Prelude.Text.{Bytes, codes}
use remnawave_subpage_proxy.Prelude.Int.{ℤ, pos, negsuc, max_int64, IsInt64}

unfoldable pub digits_value : Bytes → ℕ → Option ℕ
digits_value [] n = some n
digits_value (c ∷ s) n =
    let rest = digits_value s (n * 10 + (c - b'0')) in
    if leb b'0' c && leb c b'9' then rest else none

-- The magnitude behind the sign: at least one digit.
unfoldable pub magnitude : Bytes → Option ℕ
unfolding digits_value
magnitude [] = none
magnitude (c ∷ s) = digits_value (c ∷ s) 0

unfoldable pub positive : Option ℕ → Option ℤ
positive none = none
positive (some n) = if leb n max_int64 then some (pos n) else none

unfoldable pub negative : Option ℕ → Option ℤ
negative none = none
negative (some n) =
    if n == 0 then some (pos 0) else if leb n (max_int64 + 1) then some (negsuc (n - 1)) else none

unfoldable pub parse_int : Bytes → Option ℤ
unfolding magnitude positive negative
parse_int [] = none
parse_int (c ∷ s) =
    if c == b'-'
    then negative (magnitude s)
    else if c == b'+'
    then positive (magnitude s)
    else positive (magnitude (c ∷ s))

positive-IsInt64 : (m : Option ℕ) (n : ℤ) → positive m ≡ some n → IsInt64 n
unfolding positive
positive-IsInt64 none n h = cc
positive-IsInt64 (some m) n h = ground arith

negative-IsInt64 : (m : Option ℕ) (n : ℤ) → negative m ≡ some n → IsInt64 n
unfolding negative
negative-IsInt64 none n h = cc
negative-IsInt64 (some m) n h = ground arith

parse_minus : parse_int (codes "-9223372036854775808") ≡ some (negsuc 9223372036854775807)
unfolding parse_int
parse_minus = refl

parse_too_big : parse_int (codes "9223372036854775808") ≡ none
unfolding parse_int
parse_too_big = refl

-- What is parsed is an int64.
pub parse_int-IsInt64 : (s : Bytes) (n : ℤ) → parse_int s ≡ some n → IsInt64 n
unfolding parse_int
parse_int-IsInt64 [] n h = cc
parse_int-IsInt64 (c ∷ s) n h = elim (Bool-cases (c == b'-')) [
  | inl minus ↦ negative-IsInt64 (magnitude s) n (rw minus at h)
  | inr other ↦ elim (Bool-cases (c == b'+')) [
    | inl plus ↦ positive-IsInt64 (magnitude s) n (rw (other, plus) at h)
    | inr digit ↦ positive-IsInt64 (magnitude (c ∷ s)) n (rw (other, digit) at h)
  ]
]
