-- ===== src/Prelude/Text.antt =====
-- Go strings as lists of bytes, and the functions of Go's package `strings` that the program
-- calls. A byte is a number below 256.
pub mod Case
pub mod Decimal
pub mod Laws
pub mod Trim
pub mod Utf8
use Prim.Native.Char.{code}
use Prim.Native.Nat.{ℕ, zero, suc, ◌+◌}
use Prim.Native.String.{String}
use mathlib.Core.Bool.{Bool, true, false, not, ◌&&◌, ◌||◌}
use mathlib.Core.List.{List, [], ◌∷◌, ◌++◌, reverse}
use mathlib.Core.Option.{Option, none, some}
use remnawave_subpage_proxy.Prelude.Tests.{leb, ◌==◌, if◌then◌else◌}

abbrev pub Bytes : Type 0
Bytes = List ℕ

-- The code points of a literal: its bytes, where it is ASCII.
abbrev pub codes : String → Bytes
codes String.[] = []
codes (String.◌∷◌ c s) = code c ∷ codes s

unfoldable pub bytes_eq : Bytes → Bytes → Bool
bytes_eq [] [] = true
bytes_eq [] (_ ∷ _) = false
bytes_eq (_ ∷ _) [] = false
bytes_eq (a ∷ s) (b ∷ t) = a == b && bytes_eq s t

-- `s == ""`
abbrev pub is_empty : Bytes → Bool
is_empty [] = true
is_empty (_ ∷ _) = false

-- `slices.Contains`, and a lookup in a map with no values
unfoldable pub contains : List Bytes → Bytes → Bool
contains [] s = false
contains (t ∷ ts) s = bytes_eq t s || contains ts s

-- `strings.IndexByte(s, b) >= 0`
unfoldable pub has_byte : ℕ → Bytes → Bool
has_byte b [] = false
has_byte b (c ∷ s) = c == b || has_byte b s

-- `strings.HasPrefix(s, prefix)`
unfoldable pub has_prefix : Bytes → Bytes → Bool
has_prefix s [] = true
has_prefix [] (_ ∷ _) = false
has_prefix (c ∷ s) (p ∷ ps) = c == p && has_prefix s ps

-- What a part that began before the first separator grows by.
abbrev pub onto_first : ℕ → List Bytes → List Bytes
onto_first c [] = (c ∷ []) ∷ []
onto_first c (p ∷ ps) = (c ∷ p) ∷ ps

-- `strings.Split(s, sep)` at one byte: at least one part.
unfoldable pub split : ℕ → Bytes → List Bytes
split sep [] = [] ∷ []
split sep (c ∷ s) = let rest = split sep s in if c == sep then [] ∷ rest else onto_first c rest

-- `strings.Join(parts, sep)`
unfoldable pub join : Bytes → List Bytes → Bytes
join sep [] = []
join sep (p ∷ []) = p
join sep (p ∷ q ∷ ps) = p ++ (sep ++ join sep (q ∷ ps))

-- The result of `strings.Cut`.
pub record Parts : Type 0 where
  pub before : Bytes
  pub after : Bytes
  pub found : Bool

-- `strings.Cut(s, sep)` at one byte
unfoldable pub cut : ℕ → Bytes → Parts
cut sep [] = record { before = []; after = []; found = false }
cut sep (c ∷ s) =
    let rest = cut sep s in
    if c == sep
    then record { before = []; after = s; found = true }
    else record rest { before = c ∷ rest.before }

-- `strings.Trim(s, "b")` at one byte
unfoldable pub trim_left_byte : ℕ → Bytes → Bytes
trim_left_byte b [] = []
trim_left_byte b (c ∷ s) = if c == b then trim_left_byte b s else c ∷ s

unfoldable pub trim_byte : ℕ → Bytes → Bytes
unfolding trim_left_byte
trim_byte b s = reverse (trim_left_byte b (reverse (trim_left_byte b s)))

-- `unicode.IsSpace` over UTF-8: how many bytes the white space at the front of a text takes, and 0
-- if there is none.
is_space_byte : ℕ → Bool
is_space_byte c = leb 9 c && leb c 13 || c == 32

is_space_pair : ℕ → ℕ → Bool
is_space_pair c d = c == 0xC2 && (d == 0x85 || d == 0xA0)

is_space_triple : ℕ → ℕ → ℕ → Bool
is_space_triple c d e =
    c == 0xE1 && d == 0x9A && e == 0x80
    || c == 0xE2 && d == 0x80 && (leb 0x80 e && leb e 0x8A || e == 0xA8 || e == 0xA9 || e == 0xAF)
    || c == 0xE2 && d == 0x81 && e == 0x9F
    || c == 0xE3 && d == 0x80 && e == 0x80

unfoldable pub space_width : Bytes → ℕ
unfolding is_space_byte is_space_pair is_space_triple
space_width [] = 0
space_width (c ∷ []) = if is_space_byte c then 1 else 0
space_width (c ∷ d ∷ []) = if is_space_byte c then 1 else if is_space_pair c d then 2 else 0
space_width (c ∷ d ∷ e ∷ _) =
    if is_space_byte c
    then 1
    else if is_space_pair c d
    then 2
    else if is_space_triple c d e
    then 3
    else 0

-- The same over a text that is read from its end.
unfoldable pub space_width_back : Bytes → ℕ
unfolding is_space_byte is_space_pair is_space_triple
space_width_back [] = 0
space_width_back (c ∷ []) = if is_space_byte c then 1 else 0
space_width_back (c ∷ d ∷ []) = if is_space_byte c then 1 else if is_space_pair d c then 2 else 0
space_width_back (c ∷ d ∷ e ∷ _) =
    if is_space_byte c
    then 1
    else if is_space_pair d c
    then 2
    else if is_space_triple e d c
    then 3
    else 0

-- Drops white space from the front; the number counts the bytes left of a white space begun.
unfoldable pub skip_spaces : (Bytes → ℕ) → ℕ → Bytes → Bytes
skip_spaces width k [] = []
skip_spaces width (suc k) (c ∷ s) = skip_spaces width k s
skip_spaces width zero (c ∷ s) = elim (width (c ∷ s)) [
  | zero ↦ c ∷ s
  | suc k ↦ skip_spaces width k s
]

-- `strings.TrimSpace(s)`
unfoldable pub trim_space : Bytes → Bytes
unfolding skip_spaces space_width space_width_back
trim_space s = reverse (skip_spaces space_width_back 0 (reverse (skip_spaces space_width 0 s)))
