-- ===== src/Prelude/Counts.antt =====
-- Lists that hold the same items, as often, in any order.
use Prim.Native.Nat.{ℕ, zero, suc, ◌+◌}
use mathlib.Core.Path.{◌≡◌, refl, sym, ap, ◌∙◌}
use mathlib.Core.Bool.{Bool, true, not}
use mathlib.Core.List.{List, [], ◌∷◌, ◌++◌, map}
use mathlib.Core.Option.{some}
use native.Mathlib.Omega.{arith}
use remnawave_subpage_proxy.Prelude.Tests.{if◌then◌else◌}
use remnawave_subpage_proxy.Prelude.Lists.{All, get_elem?, length, set}

module _ {ℓ} {A : Type ℓ} where
  -- How many items pass the test.
  abbrev pub count : (A → Bool) → List A → ℕ
  count q [] = 0
  count q (x ∷ xs) = (if q x then 1 else 0) + count q xs

  -- No test tells the two lists apart.
  abbrev pub SameItems : List A → List A → Type ℓ
  SameItems xs ys = (q : A → Bool) → count q xs ≡ count q ys

  pub count-append : (q : A → Bool) (xs ys : List A) → count q (xs ++ ys) ≡ count q xs + count q ys
  count-append q [] ys = omega arith
  count-append q (x ∷ xs) ys = omega (arith, count-append q xs ys)

  count_all : (xs : List A) → count (λ x. true) xs ≡ length xs
  count_all [] = refl
  count_all (x ∷ xs) = omega (arith, count_all xs)

  pub SameItems-length : (xs ys : List A) → SameItems xs ys → length xs ≡ length ys
  SameItems-length xs ys same = sym (count_all xs) ∙ same (λ x. true) ∙ count_all ys

  -- A write takes the old item out and puts the new one in.
  pub count-set :
      (q : A → Bool) (xs : List A) (i : ℕ) (v x : A)
      → get_elem? xs i ≡ some x
      → count q (set xs i v) + (if q x then 1 else 0) ≡ count q xs + (if q v then 1 else 0)
  count-set q [] i v x h = cc
  count-set q (y ∷ xs) zero v x h = let same : y ≡ x = cc in rw same (omega arith)
  count-set q (y ∷ xs) (suc i) v x h = omega (arith, count-set q xs i v x h)

  -- What passes a test everywhere in one list does so in the other.
  pub every_pass :
      (q : A → Bool) (xs : List A) → count (λ x. not (q x)) xs ≡ 0 → All (λ x. q x ≡ true) xs
  every_pass q [] h = tt
  every_pass q (x ∷ xs) h = (ground arith, every_pass q xs (ground arith))

  pub none_fail :
      (q : A → Bool) (xs : List A) → All (λ x. q x ≡ true) xs → count (λ x. not (q x)) xs ≡ 0
  none_fail q [] h = refl
  none_fail q (x ∷ xs) (here, h) = rw here (omega (arith, none_fail q xs h))

  pub SameItems-All :
      (q : A → Bool) (xs ys : List A)
      → SameItems xs ys
      → All (λ x. q x ≡ true) ys
      → All (λ x. q x ≡ true) xs
  SameItems-All q xs ys same h = every_pass q xs (same (λ x. not (q x)) ∙ none_fail q ys h)

pub count-map :
    {A B : Type 0} (f : A → B) (q : B → Bool) (xs : List A)
    → count q (map f xs) ≡ count (λ x. q (f x)) xs
count-map f q [] = refl
count-map f q (x ∷ xs) = ap (λ n. (if q (f x) then 1 else 0) + n) (count-map f q xs)

pub SameItems-map :
    {A B : Type 0} (f : A → B) (xs ys : List A) → SameItems xs ys → SameItems (map f xs) (map f ys)
SameItems-map f xs ys same q = count-map f q xs ∙ same (λ x. q (f x)) ∙ sym (count-map f q ys)
