-- ===== src/Rewrite/Codec/RoundTrip.antt =====
-- internal/rewrite/codec.go over internal/b64: what `Encode` writes is what `DecodeBase64` reads.
use remnawave_subpage_proxy.Prelude.{
  ℕ, ◌+◌, ◌*◌, ◌/◌, ◌≡◌, ◌≤◌, ◌⊎◌, refl, true, false, [], ◌∷◌, ◌++◌, some, ltb, ◌==◌, length, All,
  arith,
}
use remnawave_subpage_proxy.Prelude.Text.{Bytes, has_prefix, trim_space}
use remnawave_subpage_proxy.Prelude.Text.Trim.{IsPrintable, trim_space_printable}
use remnawave_subpage_proxy.B64
use remnawave_subpage_proxy.B64.{Base64, std}
use remnawave_subpage_proxy.Rewrite.Codec.{
  base64_prefixed, base64, base64_prefix, is_text, decode_any, decode_base64, encode,
}

-- A character of the standard alphabet of RFC 4648, or the padding.
abbrev pub IsDigit : ℕ → Type 0
IsDigit c =
    ((b'A' ≤ c) × (c ≤ b'Z'))
    ⊎ ((b'a' ≤ c) × (c ≤ b'z'))
    ⊎ ((b'0' ≤ c) × (c ≤ b'9'))
    ⊎ (c ≡ b'+')
    ⊎ (c ≡ b'/')
    ⊎ (c ≡ b'=')

-- What package encoding/base64 documents of the standard encoding of a text: its characters, four for
-- each three bytes begun, and that it is decoded to the text.
pub record IsEncoded (b : Base64) (s : Bytes) : Type 0 where
  pub digits : All IsDigit (b.encode std s)
  pub size : length (b.encode std s) ≡ (length s + 2) / 3 * 4
  pub decoded : b.decode std (b.encode std s) ≡ some s

digits-IsPrintable : (e : Bytes) → All IsDigit e → All IsPrintable e
digits-IsPrintable [] h = tt
digits-IsPrintable (c ∷ e) (here, h) = (ground arith, digits-IsPrintable e h)

digits_plausible : (e : Bytes) → All IsDigit e → B64.plausible e ≡ true
unfolding B64.plausible
digits_plausible [] h = refl
digits_plausible (c ∷ e) (here, h) = let rest = digits_plausible e h in ground (arith, rest)

colon : (c : ℕ) → IsDigit c → (c == b':') ≡ false
colon c h = ground arith

some_long : (s : Bytes) → is_text s ≡ true → 1 ≤ length s
unfolding is_text
some_long [] h = absurd (ground arith)
some_long (c ∷ s) h = omega arith

-- The prefix has a colon as its seventh byte.
digits_unprefixed : (e : Bytes) → All IsDigit e → has_prefix e base64_prefix ≡ false
unfolding has_prefix
digits_unprefixed [] h = refl
digits_unprefixed (_ ∷ []) h = ground arith
digits_unprefixed (_ ∷ _ ∷ []) h = ground arith
digits_unprefixed (_ ∷ _ ∷ _ ∷ []) h = ground arith
digits_unprefixed (_ ∷ _ ∷ _ ∷ _ ∷ []) h = ground arith
digits_unprefixed (_ ∷ _ ∷ _ ∷ _ ∷ _ ∷ []) h = ground arith
digits_unprefixed (_ ∷ _ ∷ _ ∷ _ ∷ _ ∷ _ ∷ []) h = ground arith
digits_unprefixed (_ ∷ _ ∷ _ ∷ _ ∷ _ ∷ _ ∷ c ∷ _) (_, (_, (_, (_, (_, (_, (here, _))))))) =
    let apart = colon c here in ground (arith, apart)

module _ (b : Base64) (s : Bytes) (text : is_text s ≡ true) (encoded : IsEncoded b s) where
  trimmed : trim_space (b.encode std s) ≡ b.encode std s
  trimmed = trim_space_printable _ (digits-IsPrintable _ encoded.digits)

  decode-encode : B64.decode b is_text (b.encode std s) ≡ some (s, std)
  unfolding B64.decode
  decode-encode = rw (trimmed, digits_plausible _ encoded.digits, encoded.decoded) (rw text)

  text_long : 1 ≤ length s
  text_long = some_long s text

  long : ltb (length (b.encode std s)) 4 ≡ false
  long = let size = encoded.size in let some_bytes = text_long in ground arith

  decode_any-encode : decode_any b (b.encode std s) ≡ some s
  unfolding decode_any
  decode_any-encode = rw (trimmed, long, decode-encode)

  has_prefix-prefix : has_prefix (base64_prefix ++ b.encode std s) base64_prefix ≡ true
  unfolding has_prefix
  has_prefix-prefix = refl

  decode_plain_form : decode_base64 b (b.encode std s) ≡ some (s, base64)
  unfolding decode_base64
  decode_plain_form = rw (digits_unprefixed _ encoded.digits, decode_any-encode)

  decode_prefixed_form :
      decode_base64 b (base64_prefix ++ b.encode std s) ≡ some (s, base64_prefixed)
  unfolding decode_base64
  decode_prefixed_form = rw (has_prefix-prefix, trimmed, decode_any-encode)

  -- A text that was sent in either base64 form is read back as that text, in that form: a text is a
  -- value that `isText` accepts, and the standard encoding is as package encoding/base64 documents it.
  pub decode_base64-encode :
      (decode_base64 b (encode b s base64) ≡ some (s, base64))
      × (decode_base64 b (encode b s base64_prefixed) ≡ some (s, base64_prefixed))
  unfolding encode
  decode_base64-encode = (decode_plain_form, decode_prefixed_form)
