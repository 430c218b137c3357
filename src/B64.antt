-- ===== src/B64.antt =====
-- The package internal/b64: base64 in any of the four alphabets. Go's package encoding/base64 is a
-- parameter: for each encoding its `Decode`, which is `none` on an error, and its `EncodeToString`.
use remnawave_subpage_proxy.Prelude.{
  ℕ, Bool, not, ◌&&◌, ◌||◌, List, [], ◌∷◌, Option, none, some, leb, ◌==◌, if◌then◌else◌, all,
}
use remnawave_subpage_proxy.Prelude.Text.{Bytes, trim_space}

pub data Alphabet : Type 0 where
  std raw_std url raw_url : Alphabet

pub record Base64 : Type 0 where
  pub decode : Alphabet → Bytes → Option Bytes
  pub encode : Alphabet → Bytes → Bytes

abbrev pub encodings : List Alphabet
encodings = std ∷ raw_std ∷ url ∷ raw_url ∷ []

abbrev pub is_plausible_byte : ℕ → Bool
is_plausible_byte c =
    leb b'A' c && leb c b'Z'
    || leb b'a' c && leb c b'z'
    || leb b'0' c && leb c b'9'
    || c == b'+'
    || c == b'/'
    || c == b'-'
    || c == b'_'
    || c == b'='
    || c == 13
    || c == 10

unfoldable pub plausible : Bytes → Bool
plausible s = all is_plausible_byte s

-- The decoded bytes, and the encoding that was used.
abbrev pub Decoded : Type 0
Decoded = Bytes × Alphabet

module _ (b : Base64) where
  -- The loop of `Decode`.
  unfoldable pub decode_first : (Bytes → Bool) → Bytes → List Alphabet → Option Decoded
  decode_first accept s [] = none
  decode_first accept s (a ∷ as_left) =
      let rest = decode_first accept s as_left in
      elim (b.decode a s) [ none ↦ rest | some out ↦ if accept out then some (out, a) else rest ]

  -- `Decode` where `accept` is not nil; a nil one takes every decode.
  unfoldable pub decode : (Bytes → Bool) → Bytes → Option Decoded
  unfolding plausible decode_first
  decode accept s =
      let trimmed = trim_space s in
      if not (plausible trimmed) then none else decode_first accept trimmed encodings
