-- ===== src/Subinfo/UserInfo.antt =====
-- internal/subinfo/userinfo.go: the header `subscription-userinfo`.
pub mod Laws
pub mod Fields
use remnawave_subpage_proxy.Prelude.{
  ℕ, Bool, true, false, not, ◌&&◌, List, [], ◌∷◌, ◌++◌, Option, none, some, if◌then◌else◌,
}
use remnawave_subpage_proxy.Prelude.Int.{ℤ, pos, negsuc, add_int64, is_neg}
use remnawave_subpage_proxy.Prelude.Text.{
  Bytes, codes, bytes_eq, is_empty, split, join, cut, trim_space,
}
use remnawave_subpage_proxy.Prelude.Text.Case.{Unicode, to_lower, equal_fold}
use remnawave_subpage_proxy.Prelude.Text.Decimal.{parse_int}

abbrev pub user_info_header : Bytes
user_info_header = codes "subscription-userinfo"

pub record UserInfo : Type 0 where
  pub upload : ℤ
  pub download : ℤ
  pub total : ℤ
  pub expire : ℤ

unfoldable pub used : UserInfo → ℤ
used u =
    if is_neg u.upload && is_neg u.download
    then negsuc 0
    else if is_neg u.upload
    then u.download
    else if is_neg u.download
    then u.upload
    else add_int64 u.upload u.download

abbrev pub absent : UserInfo
absent = record { upload = negsuc 0; download = negsuc 0; total = negsuc 0; expire = negsuc 0 }

-- The fields read so far, and `any`.
pub record Reading : Type 0 where
  pub info : UserInfo
  pub usable : Bool

abbrev pub usable_info : UserInfo → Reading
usable_info info = record { info = info; usable = true }

module _ (u : Unicode) where
  -- The switch of `ParseUserInfo`.
  unfoldable pub set_field : Bytes → ℤ → Reading → Reading
  set_field key n r =
      if bytes_eq key (codes "upload")
      then usable_info (record r.info { upload = n })
      else if bytes_eq key (codes "download")
      then usable_info (record r.info { download = n })
      else if bytes_eq key (codes "total")
      then usable_info (record r.info { total = n })
      else if bytes_eq key (codes "expire")
      then usable_info (record r.info { expire = n })
      else r

  -- One round of the loop of `ParseUserInfo`.
  unfoldable pub read_part : Bytes → Reading → Reading
  unfolding set_field
  read_part part r =
      let c = cut b'=' part in
      if not c.found then r else elim (parse_int (trim_space c.after)) [
        | none ↦ r
        | some n ↦ set_field (to_lower u (trim_space c.before)) n r
      ]

  unfoldable pub read_parts : List Bytes → Reading → Reading
  read_parts [] r = r
  read_parts (part ∷ parts) r = read_parts parts (read_part part r)

  unfoldable pub parse_user_info : Bytes → Reading
  unfolding read_part read_parts
  parse_user_info header =
      if is_empty (trim_space header)
      then record { info = absent; usable = false }
      else read_parts (split b';' header) (record { info = absent; usable = false })

abbrev pub total_zero : Bytes
total_zero = codes "total=0"

unfoldable pub is_total : Bytes → Bool
is_total part = let c = cut b'=' part in c.found && equal_fold (trim_space c.before) (codes "total")

-- The loop of `ForceUnlimitedTotal`: the parts written and `replaced`.
unfoldable pub force_parts : List Bytes → List Bytes → Bool → List Bytes × Bool
unfolding is_total
force_parts [] out replaced = (out, replaced)
force_parts (part ∷ parts) out replaced =
    let trimmed = trim_space part in
    let forced = force_parts parts (out ++ total_zero ∷ []) true in
    let next = force_parts parts (if is_empty trimmed then out else out ++ trimmed ∷ []) replaced in
    if is_total part then forced else next

unfoldable pub force_unlimited_total : Bytes → Bytes
unfolding force_parts
force_unlimited_total header =
    if is_empty (trim_space header)
    then total_zero
    else let (out, replaced) = force_parts (split b';' header) [] false in
      join (codes "; ") (if replaced then out else out ++ total_zero ∷ [])
