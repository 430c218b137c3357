-- ===== src/Rewrite/Codec.antt =====
-- internal/rewrite/codec.go: the forms in which a header value is sent.
pub mod RoundTrip
use remnawave_subpage_proxy.Prelude.{
  ℕ, ◌≡◌, refl, Bool, true, false, not, ◌&&◌, ◌||◌, ◌++◌, Option, none, some, ltb, ◌==◌,
  if◌then◌else◌, length, all, drop,
}
use remnawave_subpage_proxy.Prelude.Text.{Bytes, codes, is_empty, has_prefix, trim_space}
use remnawave_subpage_proxy.Prelude.Text.Utf8.{is_valid}
use remnawave_subpage_proxy.B64
use remnawave_subpage_proxy.B64.{Base64, std, Decoded}

pub data Form : Type 0 where
  plain base64_prefixed base64 : Form

abbrev pub base64_prefix : Bytes
base64_prefix = codes "base64:"

-- A control character below 0x20 is one byte, which is part of no other rune's encoding.
abbrev pub is_text_byte : ℕ → Bool
is_text_byte c = not (ltb c 0x20) || c == 9 || c == 10 || c == 13

unfoldable pub is_text : Bytes → Bool
unfolding is_valid
is_text raw = not (is_empty raw) && is_valid raw && all is_text_byte raw

abbrev pub text_of : Option Decoded → Option Bytes
text_of none = none
text_of (some (raw, _)) = some raw

module _ (b : Base64) where
  unfoldable pub decode_any : Bytes → Option Bytes
  decode_any value =
      let trimmed = trim_space value in
      if ltb (length trimmed) 4 then none else text_of (B64.decode b is_text trimmed)

  abbrev pub in_form : Form → Option Bytes → Option (Bytes × Form)
  in_form form none = none
  in_form form (some text) = some (text, form)

  -- `DecodeBase64`
  unfoldable pub decode_base64 : Bytes → Option (Bytes × Form)
  unfolding decode_any
  decode_base64 value =
      if has_prefix value base64_prefix
      then in_form base64_prefixed (decode_any (trim_space (drop (length base64_prefix) value)))
      else in_form base64 (decode_any value)

  -- `Encode`
  unfoldable pub encode : Bytes → Form → Bytes
  encode text plain = text
  encode text base64_prefixed = base64_prefix ++ b.encode std text
  encode text base64 = b.encode std text
