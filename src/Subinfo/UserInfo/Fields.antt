-- ===== src/Subinfo/UserInfo/Fields.antt =====
-- Which part of the traffic header each field of internal/subinfo/userinfo.go is read from.
use remnawave_subpage_proxy.Prelude.{
  ◌≡◌, refl, ap, ◌∙◌, inl, inr, Bool, ◌||◌, ◌&&◌, List, [], ◌∷◌, Option, none, some, is_some,
  if◌then◌else◌, arith, any, Bool-cases, Option-cases,
}
use remnawave_subpage_proxy.Prelude.Int.{ℤ, negsuc}
use remnawave_subpage_proxy.Prelude.Text.{Bytes, codes, bytes_eq, is_empty, split, cut, trim_space}
use remnawave_subpage_proxy.Prelude.Text.Laws.{bytes_eq_iff}
use remnawave_subpage_proxy.Prelude.Text.Case.{Unicode, to_lower}
use remnawave_subpage_proxy.Prelude.Text.Decimal.{parse_int}
use remnawave_subpage_proxy.Subinfo.UserInfo.Laws.{InRange, parse_user_info-IsReading}
use remnawave_subpage_proxy.Subinfo.UserInfo.{
  UserInfo, absent, Reading, set_field, read_part, read_parts, parse_user_info,
}

abbrev pub or_before : Option ℤ → ℤ → ℤ
or_before none n = n
or_before (some m) n = m

module _ (u : Unicode) where
  -- The number that one part gives to a key, in any case and with space around both.
  abbrev pub number_in : Bytes → Bytes → Option ℤ
  number_in key part =
      let c = cut b'=' part in
      if c.found && bytes_eq (to_lower u (trim_space c.before)) key
      then parse_int (trim_space c.after)
      else none

  -- The last number that the parts give to a key, or else `n`.
  abbrev pub last_number : Bytes → List Bytes → ℤ → ℤ
  last_number key [] n = n
  last_number key (part ∷ parts) n = last_number key parts (or_before (number_in key part) n)

  -- Whether a part gives a number to one of the four keys.
  abbrev pub is_number : Bytes → Bool
  is_number part =
      is_some (number_in (codes "upload") part)
      || is_some (number_in (codes "download") part)
      || is_some (number_in (codes "total") part)
      || is_some (number_in (codes "expire") part)

  -- The parts of a header; a blank one has none.
  abbrev pub parts_of : Bytes → List Bytes
  parts_of header = if is_empty (trim_space header) then [] else split b';' header

  module _ (key : Bytes) (field : UserInfo → ℤ)
      (step : (k : Bytes) (n : ℤ) (r : Reading)
        → field (set_field u k n r).info ≡ (if bytes_eq k key then n else field r.info)) where
    read_part-field :
        (part : Bytes) (r : Reading)
        → field (read_part u part r).info ≡ or_before (number_in key part) (field r.info)
    unfolding read_part
    read_part-field part r = elim (Bool-cases (cut b'=' part).found) [
      | inr bare ↦ rw (bare, read_part) refl
      | inl keyed ↦ elim (Option-cases (parse_int (trim_space (cut b'=' part).after))) [
        | inl bad ↦ rw (keyed, bad, read_part) (ground arith)
        | inr (n, good) ↦
            let named = step (to_lower u (trim_space (cut b'=' part).before)) n r in
            rw (keyed, good, read_part) (named ∙ ground arith)
      ]
    ]

    read_parts-field :
        (parts : List Bytes) (r : Reading)
        → field (read_parts u parts r).info ≡ last_number key parts (field r.info)
    unfolding read_parts
    read_parts-field [] r = refl
    read_parts-field (part ∷ parts) r =
        read_parts-field parts (read_part u part r)
        ∙ ap (last_number key parts) (read_part-field part r)

    pub parse-field :
        (header : Bytes)
        → field absent ≡ negsuc 0
        → field (parse_user_info u header).info ≡ last_number key (parts_of header) (negsuc 0)
    unfolding parse_user_info
    parse-field header start = elim (Bool-cases (is_empty (trim_space header))) [
      | inl blank ↦ rw blank start
      | inr text ↦
          rw text (
            read_parts-field (split b';' header) _ ∙ ap (last_number key (split b';' header)) start)
    ]

  upload_step :
      (k : Bytes) (n : ℤ) (r : Reading)
      → (set_field u k n r).info.upload ≡ (if bytes_eq k (codes "upload") then n else r.info.upload)
  unfolding set_field
  upload_step k n r = ground arith

  download_step :
      (k : Bytes) (n : ℤ) (r : Reading)
      → (set_field u k n r).info.download
        ≡ (if bytes_eq k (codes "download") then n else r.info.download)
  unfolding set_field bytes_eq
  download_step k n r = elim (Bool-cases (bytes_eq k (codes "download"))) [
    | inl e ↦ rw ((bytes_eq_iff k (codes "download")).0 e) refl
    | inr other ↦ rw other (ground arith)
  ]

  total_step :
      (k : Bytes) (n : ℤ) (r : Reading)
      → (set_field u k n r).info.total ≡ (if bytes_eq k (codes "total") then n else r.info.total)
  unfolding set_field bytes_eq
  total_step k n r = elim (Bool-cases (bytes_eq k (codes "total"))) [
    | inl e ↦ rw ((bytes_eq_iff k (codes "total")).0 e) refl
    | inr other ↦ rw other (ground arith)
  ]

  expire_step :
      (k : Bytes) (n : ℤ) (r : Reading)
      → (set_field u k n r).info.expire ≡ (if bytes_eq k (codes "expire") then n else r.info.expire)
  unfolding set_field bytes_eq
  expire_step k n r = elim (Bool-cases (bytes_eq k (codes "expire"))) [
    | inl e ↦ rw ((bytes_eq_iff k (codes "expire")).0 e) refl
    | inr other ↦ rw other (ground arith)
  ]

  abbrev is_key : Bytes → Bool
  is_key k =
      bytes_eq k (codes "upload")
      || bytes_eq k (codes "download")
      || bytes_eq k (codes "total")
      || bytes_eq k (codes "expire")

  set_field-usable :
      (k : Bytes) (n : ℤ) (r : Reading) → (set_field u k n r).usable ≡ (is_key k || r.usable)
  unfolding set_field
  set_field-usable k n r = ground arith

  read_part-usable :
      (part : Bytes) (r : Reading) → (read_part u part r).usable ≡ (is_number part || r.usable)
  unfolding read_part
  read_part-usable part r = elim (Bool-cases (cut b'=' part).found) [
    | inr bare ↦ rw (bare, read_part) refl
    | inl keyed ↦ elim (Option-cases (parse_int (trim_space (cut b'=' part).after))) [
      | inl bad ↦ rw (keyed, bad, read_part) (ground arith)
      | inr (n, good) ↦
          let named = set_field-usable (to_lower u (trim_space (cut b'=' part).before)) n r in
          rw (keyed, good, read_part) (named ∙ ground arith)
    ]
  ]

  read_parts-usable :
      (parts : List Bytes) (r : Reading)
      → (read_parts u parts r).usable ≡ (r.usable || any is_number parts)
  unfolding read_parts
  read_parts-usable [] r = ground arith
  read_parts-usable (part ∷ parts) r =
      let now = read_part-usable part r in
      let later = read_parts-usable parts (read_part u part r) in ground (arith, now, later)

  parse-usable :
      (header : Bytes) → (parse_user_info u header).usable ≡ any is_number (parts_of header)
  unfolding parse_user_info
  parse-usable header = elim (Bool-cases (is_empty (trim_space header))) [
    | inl blank ↦ rw blank refl
    | inr text ↦ rw text (read_parts-usable (split b';' header) _)
  ]

  -- What was read of a header: each field, -1 if no part gives it, and whether there is any.
  pub record IsParsed (header : Bytes) (r : Reading) : Type 0 where
    pub upload : r.info.upload ≡ last_number (codes "upload") (parts_of header) (negsuc 0)
    pub download : r.info.download ≡ last_number (codes "download") (parts_of header) (negsuc 0)
    pub total : r.info.total ≡ last_number (codes "total") (parts_of header) (negsuc 0)
    pub expire : r.info.expire ≡ last_number (codes "expire") (parts_of header) (negsuc 0)
    pub usable : r.usable ≡ any is_number (parts_of header)
    pub in_range : InRange r.info

  -- Each field of the traffic header is the last number that a part between semicolons gives to its
  -- key, in lower case and without the space around it, or else -1; the header is usable when some part
  -- gives a number to one of the four keys; and every field is an int64.
  pub parse_user_info-IsParsed : (header : Bytes) → IsParsed header (parse_user_info u header)
  parse_user_info-IsParsed header = record {
    upload = parse-field (codes "upload") (λ i. i.upload) upload_step header refl;
    download = parse-field (codes "download") (λ i. i.download) download_step header refl;
    total = parse-field (codes "total") (λ i. i.total) total_step header refl;
    expire = parse-field (codes "expire") (λ i. i.expire) expire_step header refl;
    usable = parse-usable header;
    in_range = (parse_user_info-IsReading u header).in_range;
  }
