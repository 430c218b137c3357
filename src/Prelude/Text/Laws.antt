-- ===== src/Prelude/Text/Laws.antt =====
-- Laws of the text functions.
use Prim.Native.Nat.{ℕ}
use mathlib.Core.Bool.{true, false}
use mathlib.Core.List.{List, [], ◌∷◌, ◌++◌}
use mathlib.Core.Logic.{◌↔◌, ◌≢◌, inl, inr}
use mathlib.Core.Path.{◌≡◌, refl, sym}
use native.Mathlib.Omega.{arith}
use remnawave_subpage_proxy.Prelude.Tests.{◌==◌, Bool-cases}
use remnawave_subpage_proxy.Prelude.Lists.{All, IsIn}
use remnawave_subpage_proxy.Prelude.Text.{Bytes, bytes_eq, contains, has_byte, onto_first, split}

bytes_eq_sound : (s t : Bytes) → bytes_eq s t ≡ true → s ≡ t
unfolding bytes_eq
bytes_eq_sound [] [] h = refl
bytes_eq_sound [] (_ ∷ _) h = cc
bytes_eq_sound (_ ∷ _) [] h = cc
bytes_eq_sound (a ∷ s) (b ∷ t) h = ground (arith, bytes_eq_sound s t)

pub bytes_eq_refl : (s : Bytes) → bytes_eq s s ≡ true
unfolding bytes_eq
bytes_eq_refl [] = refl
bytes_eq_refl (a ∷ s) = ground (arith, bytes_eq_refl s)

bytes_eq_complete : (s t : Bytes) → s ≡ t → bytes_eq s t ≡ true
bytes_eq_complete s t e = rw e (bytes_eq_refl t)

pub bytes_eq_iff : (s t : Bytes) → (bytes_eq s t ≡ true) ↔ (s ≡ t)
bytes_eq_iff s t = (bytes_eq_sound s t, bytes_eq_complete s t)

pub contains_sound : (ts : List Bytes) (s : Bytes) → contains ts s ≡ true → IsIn s ts
unfolding contains
contains_sound [] s h = cc
contains_sound (t ∷ ts) s h = elim (Bool-cases (bytes_eq t s)) [
  | inl e ↦ inl (sym (bytes_eq_sound t s e))
  | inr n ↦ inr (contains_sound ts s (ground arith))
]

pub contains_complete : (ts : List Bytes) (s : Bytes) → IsIn s ts → contains ts s ≡ true
unfolding contains
contains_complete [] s h = absurd h
contains_complete (t ∷ ts) s (inl e) = rw (e, bytes_eq_refl)
contains_complete (t ∷ ts) s (inr m) = ground (arith, contains_complete ts s m)

onto_first-Lacks :
    (sep c : ℕ) (ps : List Bytes)
    → (c == sep) ≡ false
    → All (λ p. has_byte sep p ≡ false) ps
    → All (λ p. has_byte sep p ≡ false) (onto_first c ps)
unfolding has_byte
onto_first-Lacks sep c [] n _ = (rw n, tt)
onto_first-Lacks sep c (p ∷ ps) n (h, hs) = (rw (n, h), hs)

-- No part of a split holds the separator.
pub split-Lacks : (sep : ℕ) (s : Bytes) → All (λ p. has_byte sep p ≡ false) (split sep s)
unfolding split has_byte
split-Lacks sep [] = (refl, tt)
split-Lacks sep (c ∷ s) = elim (Bool-cases (c == sep)) [
  | inl e ↦ rw e (refl, split-Lacks sep s)
  | inr n ↦ rw n (onto_first-Lacks sep c (split sep s) n (split-Lacks sep s))
]

onto_first-append :
    (c : ℕ) (ps qs : List Bytes) → ps ≢ [] → onto_first c (ps ++ qs) ≡ onto_first c ps ++ qs
onto_first-append c [] qs h = absurd (h refl)
onto_first-append c (p ∷ ps) qs h = refl

pub split-ne-nil : (sep : ℕ) (s : Bytes) → split sep s ≢ []
unfolding split
split-ne-nil sep [] = cc
split-ne-nil sep (c ∷ s) = elim (Bool-cases (c == sep)) [
  | inl e ↦ rw e (cc)
  | inr n ↦ rw n (onto_first-ne-nil (split sep s))
]
  where
    onto_first-ne-nil : (ps : List Bytes) → onto_first c ps ≢ []
    onto_first-ne-nil [] = cc
    onto_first-ne-nil (p ∷ ps) = cc

-- A separator at the end adds an empty part.
pub split_at_end : (sep : ℕ) (s : Bytes) → split sep (s ++ sep ∷ []) ≡ split sep s ++ [] ∷ []
unfolding split
split_at_end sep [] = ground arith
split_at_end sep (c ∷ s) = elim (Bool-cases (c == sep)) [
  | inl e ↦ rw (e, split_at_end sep s)
  | inr n ↦
      rw (n, split_at_end sep s) (onto_first-append c (split sep s) ([] ∷ []) (split-ne-nil sep s))
]

pub bytes_eq_comm : (s t : Bytes) → bytes_eq s t ≡ bytes_eq t s
unfolding bytes_eq
bytes_eq_comm [] [] = refl
bytes_eq_comm [] (_ ∷ _) = refl
bytes_eq_comm (_ ∷ _) [] = refl
bytes_eq_comm (a ∷ s) (b ∷ t) = ground (arith, bytes_eq_comm s t)
