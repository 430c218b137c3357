-- ===== src/Subinfo/UserInfo/Laws.antt =====
-- What internal/subinfo/userinfo.go reads from the header.
use remnawave_subpage_proxy.Prelude.{
  ℕ, ◌+◌, ◌^◌, ◌≤◌, ◌∙◌, leb, ◌≡◌, refl, inl, inr, true, false, List, [], ◌∷◌, arith, if◌then◌else◌,
  Bool-cases, Option-cases,
}
use remnawave_subpage_proxy.Prelude.Int.{ℤ, pos, add_int64, IsInt64, max_int64, sub_ℕ}
use remnawave_subpage_proxy.Prelude.Text.{Bytes, codes, bytes_eq, is_empty, split, cut, trim_space}
use remnawave_subpage_proxy.Prelude.Text.Case.{Unicode}
use remnawave_subpage_proxy.Prelude.Text.Decimal.{parse_int, parse_int-IsInt64}
use remnawave_subpage_proxy.Subinfo.UserInfo.{
  UserInfo, used, absent, Reading, set_field, read_part, read_parts, parse_user_info,
}

-- Every field holds an int64.
pub record InRange (i : UserInfo) : Type 0 where
  pub upload : IsInt64 i.upload
  pub download : IsInt64 i.download
  pub total : IsInt64 i.total
  pub expire : IsInt64 i.expire

-- Fields in range; and where nothing usable was read, every field is absent.
pub record IsReading (r : Reading) : Type 0 where
  pub in_range : InRange r.info
  pub unread : r.usable ≡ false → r.info ≡ absent

usable-IsReading : (i : UserInfo) → InRange i → IsReading (record { info = i; usable = true })
usable-IsReading i h = record { in_range = h; unread = λ e. cc }

nothing-IsReading : IsReading (record { info = absent; usable = false })
nothing-IsReading = record {
  in_range = record {
    upload = omega arith;
    download = omega arith;
    total = omega arith;
    expire = omega arith;
  };
  unread = λ _. refl;
}

module _ (u : Unicode) where
  set_field-IsReading :
      (key : Bytes) (n : ℤ) (r : Reading)
      → IsInt64 n
      → IsReading r
      → IsReading (set_field u key n r)
  unfolding set_field
  set_field-IsReading key n r h v = elim (Bool-cases (bytes_eq key (codes "upload"))) [
    | inl e ↦
        rw (e, set_field)
          (usable-IsReading _ (record {
            upload = h;
            download = v.in_range.download;
            total = v.in_range.total;
            expire = v.in_range.expire;
          }))
    | inr n1 ↦ elim (Bool-cases (bytes_eq key (codes "download"))) [
      | inl e ↦
          rw (n1, e)
            (usable-IsReading _ (record {
              upload = v.in_range.upload;
              download = h;
              total = v.in_range.total;
              expire = v.in_range.expire;
            }))
      | inr n2 ↦ elim (Bool-cases (bytes_eq key (codes "total"))) [
        | inl e ↦
            rw (n1, n2, e)
              (usable-IsReading _ (record {
                upload = v.in_range.upload;
                download = v.in_range.download;
                total = h;
                expire = v.in_range.expire;
              }))
        | inr n3 ↦ elim (Bool-cases (bytes_eq key (codes "expire"))) [
          | inl e ↦
              rw (n1, n2, n3, e)
                (usable-IsReading _ (record {
                  upload = v.in_range.upload;
                  download = v.in_range.download;
                  total = v.in_range.total;
                  expire = h;
                }))
          | inr n4 ↦ rw (n1, n2, n3, n4) v
        ]
      ]
    ]
  ]

  read_part-IsReading : (part : Bytes) (r : Reading) → IsReading r → IsReading (read_part u part r)
  unfolding read_part
  read_part-IsReading part r v = elim (Bool-cases (cut b'=' part).found) [
    | inr bare ↦ rw (bare, read_part) v
    | inl keyed ↦ elim (Option-cases (parse_int (trim_space (cut b'=' part).after))) [
      | inl bad ↦ rw (keyed, bad, read_part) v
      | inr (n, good) ↦
          rw (keyed, good, read_part) (set_field-IsReading _ n r (parse_int-IsInt64 _ n good) v)
    ]
  ]

  read_parts-IsReading :
      (parts : List Bytes) (r : Reading) → IsReading r → IsReading (read_parts u parts r)
  unfolding read_parts
  read_parts-IsReading [] r v = v
  read_parts-IsReading (part ∷ parts) r v =
      read_parts-IsReading parts (read_part u part r) (read_part-IsReading part r v)

  pub parse_user_info-IsReading : (header : Bytes) → IsReading (parse_user_info u header)
  unfolding parse_user_info
  parse_user_info-IsReading header = elim (Bool-cases (is_empty (trim_space header))) [
    | inl blank ↦ rw blank nothing-IsReading
    | inr text ↦ rw text (read_parts-IsReading (split b';' header) _ nothing-IsReading)
  ]

used_pair :
    (total expire : ℤ) (up down : ℕ)
    → up ≤ max_int64
    → down ≤ max_int64
    → used (record { upload = pos up; download = pos down; total = total; expire = expire })
      ≡ (if leb (up + down) max_int64 then pos (up + down) else sub_ℕ (up + down) (2 ^ 64))
unfolding used add_int64
used_pair total expire up down hu hd = ground arith

-- With both counters given, as the int64 that they are, `Used` is their sum where that is an int64;
-- otherwise the sum has wrapped around, to the negative number 2^64 below it, which readers of the
-- result take for an absent one.
pub used_both :
    (i : UserInfo) (up down : ℕ)
    → i.upload ≡ pos up
    → i.download ≡ pos down
    → up ≤ max_int64
    → down ≤ max_int64
    → used i ≡ (if leb (up + down) max_int64 then pos (up + down) else sub_ℕ (up + down) (2 ^ 64))
used_both i up down eu ed hu hd =
    (λ k. used (record { upload = eu k; download = ed k; total = i.total; expire = i.expire }))
    ∙ used_pair i.total i.expire up down hu hd
