-- ===== src/Hosts/Placeholder/Laws.antt =====
-- internal/hosts/placeholder.go: the names that `uniqueNames` keeps.
use remnawave_subpage_proxy.Prelude.{
  ◌≡◌, refl, sym, ap, inl, inr, true, false, ◌||◌, List, [], ◌∷◌, All, arith, Bool-cases, IsIn,
}
use remnawave_subpage_proxy.Prelude.Text.{Bytes, bytes_eq, is_empty, contains, trim_space}
use remnawave_subpage_proxy.Prelude.Text.Laws.{bytes_eq_iff, contains_complete}
use remnawave_subpage_proxy.Hosts.Placeholder.{unique_from, unique_names}

-- No name twice.
abbrev pub IsDistinct : List Bytes → Type 0
IsDistinct [] = Unit
IsDistinct (n ∷ ns) = (contains ns n ≡ false) × IsDistinct ns

seen_apart :
    (seen : List Bytes) (t s : Bytes)
    → contains seen t ≡ false
    → contains seen s ≡ true
    → bytes_eq t s ≡ false
seen_apart seen t s fresh old = elim (Bool-cases (bytes_eq t s)) [
  | inl e ↦ let same = ap (contains seen) ((bytes_eq_iff t s).0 e) in cc
  | inr n ↦ n
]

unique_from-seen :
    (seen names : List Bytes) (s : Bytes)
    → contains seen s ≡ true
    → contains (unique_from seen names) s ≡ false
unfolding unique_from contains
unique_from-seen seen [] s h = refl
unique_from-seen seen (n ∷ ns) s h =
    elim (Bool-cases (is_empty (trim_space n) || contains seen (trim_space n))) [
      | inl skipped ↦ rw skipped (unique_from-seen seen ns s h)
      | inr kept ↦
          let fresh : contains seen (trim_space n) ≡ false = ground arith in
          let apart = seen_apart seen (trim_space n) s fresh h in
          let later = unique_from-seen (trim_space n ∷ seen) ns s (ground arith) in
          rw (kept, apart, later)
    ]

unique_from-IsDistinct : (seen names : List Bytes) → IsDistinct (unique_from seen names)
unfolding unique_from
unique_from-IsDistinct seen [] = tt
unique_from-IsDistinct seen (n ∷ ns) =
    elim (Bool-cases (is_empty (trim_space n) || contains seen (trim_space n))) [
      | inl skipped ↦ rw skipped (unique_from-IsDistinct seen ns)
      | inr kept ↦ rw kept (
        unique_from-seen (trim_space n ∷ seen) ns (trim_space n)
            (contains_complete (trim_space n ∷ seen) (trim_space n) (inl refl)),
        unique_from-IsDistinct (trim_space n ∷ seen) ns,
      )
    ]

unique_from-Shown :
    (seen names : List Bytes) → All (λ n. is_empty n ≡ false) (unique_from seen names)
unfolding unique_from
unique_from-Shown seen [] = tt
unique_from-Shown seen (n ∷ ns) =
    elim (Bool-cases (is_empty (trim_space n) || contains seen (trim_space n))) [
      | inl skipped ↦ rw skipped (unique_from-Shown seen ns)
      | inr kept ↦ rw kept (ground arith, unique_from-Shown (trim_space n ∷ seen) ns)
    ]

unique_from_covers :
    (seen names : List Bytes) (s : Bytes)
    → IsIn s names
    → is_empty (trim_space s) ≡ false
    → contains seen (trim_space s) ≡ false
    → contains (unique_from seen names) (trim_space s) ≡ true
unfolding unique_from contains
unique_from_covers seen [] s h shown fresh = absurd h
unique_from_covers seen (n ∷ ns) s (inl e) shown fresh =
    let kept : is_empty (trim_space n) || contains seen (trim_space n) ≡ false =
      rw (sym e, shown, fresh) in
    rw kept (
      contains_complete (trim_space n ∷ unique_from (trim_space n ∷ seen) ns) (trim_space s)
        (inl (ap trim_space e)))
unique_from_covers seen (n ∷ ns) s (inr m) shown fresh =
    elim (Bool-cases (is_empty (trim_space n) || contains seen (trim_space n))) [
      | inl skipped ↦ rw skipped (unique_from_covers seen ns s m shown fresh)
      | inr kept ↦ elim (Bool-cases (bytes_eq (trim_space n) (trim_space s))) [
        | inl e ↦ rw kept (
            contains_complete (trim_space n ∷ unique_from (trim_space n ∷ seen) ns) (trim_space s)
              (inl (sym ((bytes_eq_iff (trim_space n) (trim_space s)).0 e))))
        | inr other ↦
            let later =
              unique_from_covers (trim_space n ∷ seen) ns s m shown (rw (contains, other) fresh) in
            rw (kept, contains, other) later
      ]
    ]

-- Every name that is not blank, without the space around it, and none twice; none is blank.
pub record IsUnique (names out : List Bytes) : Type 0 where
  pub distinct : IsDistinct out
  pub shown : All (λ n. is_empty n ≡ false) out
  pub covered :
      (n : Bytes)
      → IsIn n names
      → is_empty (trim_space n) ≡ false
      → contains out (trim_space n) ≡ true

pub unique_names-IsUnique : (names : List Bytes) → IsUnique names (unique_names names)
unfolding unique_names contains
unique_names-IsUnique names = record {
  distinct = unique_from-IsDistinct [] names;
  shown = unique_from-Shown [] names;
  covered = λ n m shown. unique_from_covers [] names n m shown (nothing_seen (trim_space n));
}
  where
    nothing_seen : (s : Bytes) → contains [] s ≡ false
    nothing_seen s = refl
