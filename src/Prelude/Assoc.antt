-- ===== src/Prelude/Assoc.antt =====
-- Go maps with string keys, as association lists in which no key stands twice.
use mathlib.Core.Logic.{inl, inr}
use mathlib.Core.Path.{◌≡◌, refl, sym, ap, ◌∙◌}
use mathlib.Core.Bool.{false}
use mathlib.Core.Option.{Option, none, some}
use mathlib.Core.List.{List, [], ◌∷◌}
use native.Mathlib.Omega.{arith}
use Prim.Native.Nat.{suc}
use remnawave_subpage_proxy.Prelude.Tests.{if◌then◌else◌, Bool-cases}
use remnawave_subpage_proxy.Prelude.Lists.{length, All}
use remnawave_subpage_proxy.Prelude.Text.{Bytes, bytes_eq}
use remnawave_subpage_proxy.Prelude.Text.Laws.{bytes_eq_iff, bytes_eq_comm, bytes_eq_refl}

module _ {ℓ} {V : Type ℓ} where
  unfoldable pub lookup : Bytes → List (Bytes × V) → Option V
  lookup k [] = none
  lookup k ((j, v) ∷ m) = if bytes_eq j k then some v else lookup k m

  -- `delete(m, k)`
  unfoldable pub remove : Bytes → List (Bytes × V) → List (Bytes × V)
  remove k [] = []
  remove k ((j, v) ∷ m) = if bytes_eq j k then m else (j, v) ∷ remove k m

  -- No key stands twice.
  abbrev pub IsMap : List (Bytes × V) → Type ℓ
  IsMap [] = Unit
  IsMap ((k, v) ∷ m) = (lookup k m ≡ none) × IsMap m

  -- The entries of a map, as the loop `for k, v := range m` may visit them: some order of them.
  -- Only these facts of it are used.
  pub record Visits (order : List (Bytes × V) → List (Bytes × V)) : Type ℓ where
    pub all_visited : (m : List (Bytes × V)) → order m ≡ [] → m ≡ []
    pub all_present :
        (m : List (Bytes × V))
        → All (λ e. lookup e.0 m ≡ some e.1) m
        → All (λ e. lookup e.0 m ≡ some e.1) (order m)

  pub lookup-cons :
      (k j : Bytes) (v : V) (m : List (Bytes × V))
      → lookup j ((k, v) ∷ m) ≡ (if bytes_eq k j then some v else lookup j m)
  unfolding lookup
  lookup-cons k j v m = refl

  pub lookup-remove_ne :
      (k j : Bytes) (m : List (Bytes × V))
      → bytes_eq k j ≡ false
      → lookup j (remove k m) ≡ lookup j m
  unfolding lookup remove
  lookup-remove_ne k j [] n = refl
  lookup-remove_ne k j ((i, v) ∷ m) n = elim (Bool-cases (bytes_eq i k)) [
    | inl e ↦
        let same : i ≡ k = (bytes_eq_iff i k).0 e in
        let apart : bytes_eq i j ≡ false = ap (λ t. bytes_eq t j) same ∙ n in rw (e, apart)
    | inr d ↦ rw d (ground (arith, lookup-remove_ne k j m n))
  ]

  pub lookup-remove_self :
      (k : Bytes) (m : List (Bytes × V)) → IsMap m → lookup k (remove k m) ≡ none
  unfolding lookup remove
  lookup-remove_self k [] h = refl
  lookup-remove_self k ((i, v) ∷ m) h = elim (Bool-cases (bytes_eq i k)) [
    | inl e ↦ rw e (ap (λ t. lookup t m) (sym ((bytes_eq_iff i k).0 e)) ∙ h.0)
    | inr d ↦ rw (d, d) (lookup-remove_self k m h.1)
  ]

  lookup-remove_other :
      (i k : Bytes) (m : List (Bytes × V))
      → bytes_eq i k ≡ false
      → lookup i m ≡ none
      → lookup i (remove k m) ≡ none
  lookup-remove_other i k m d h = lookup-remove_ne k i m (bytes_eq_comm k i ∙ d) ∙ h

  pub remove-IsMap : (k : Bytes) (m : List (Bytes × V)) → IsMap m → IsMap (remove k m)
  unfolding remove
  remove-IsMap k [] h = tt
  remove-IsMap k ((i, v) ∷ m) h = elim (Bool-cases (bytes_eq i k)) [
    | inl e ↦ rw e h.1
    | inr d ↦ rw d (lookup-remove_other i k m d h.0, remove-IsMap k m h.1)
  ]

  pub length-remove :
      (k : Bytes) (m : List (Bytes × V)) (v : V)
      → lookup k m ≡ some v
      → length m ≡ suc (length (remove k m))
  unfolding lookup remove
  length-remove k [] v h = cc
  length-remove k ((i, w) ∷ m) v h = elim (Bool-cases (bytes_eq i k)) [
    | inl e ↦ rw e
    | inr d ↦ rw d (ap suc (length-remove k m v (rw d at h)))
  ]

  pub remove_absent : (k : Bytes) (m : List (Bytes × V)) → lookup k m ≡ none → remove k m ≡ m
  unfolding lookup remove
  remove_absent k [] h = refl
  remove_absent k ((i, w) ∷ m) h = ground (arith, remove_absent k m)

  present-cons :
      (k : Bytes) (v : V) (m l : List (Bytes × V))
      → lookup k m ≡ none
      → All (λ e. lookup e.0 m ≡ some e.1) l
      → All (λ e. lookup e.0 ((k, v) ∷ m) ≡ some e.1) l
  unfolding lookup
  present-cons k v m [] h all = tt
  present-cons k v m ((j, w) ∷ l) h (here, all) = (
    elim (Bool-cases (bytes_eq k j)) [
      | inl e ↦ let same : k ≡ j = (bytes_eq_iff k j).0 e in cc (ap (λ t. lookup t m) same)
      | inr d ↦ rw d here
    ],
    present-cons k v m l h all,
  )

  -- Every entry of a map is found under its key.
  pub IsMap-present : (m : List (Bytes × V)) → IsMap m → All (λ e. lookup e.0 m ≡ some e.1) m
  IsMap-present [] h = tt
  IsMap-present ((k, v) ∷ m) (absent, h) =
      (unfold lookup in rw (bytes_eq_refl k), present-cons k v m m absent (IsMap-present m h))
