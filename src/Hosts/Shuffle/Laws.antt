-- ===== src/Hosts/Shuffle/Laws.antt =====
-- internal/hosts/shuffle.go: what one exchange, one group and one write of the permutation change.
use remnawave_subpage_proxy.Prelude.{
  ℕ, zero, suc, ◌+◌, ◌<◌, ◌≤◌, ◌≡◌, refl, sym, ap, ◌∙◌, inl, inr, Bool, true, false, List, [], ◌∷◌,
  Option, none, some, ◌==◌, if◌then◌else◌, length, get_elem?, set, All, All-of, arith, Bool-cases,
  Option-cases, ==_iff,
}
use remnawave_subpage_proxy.Prelude.Counts.{count, SameItems, count-set}
use remnawave_subpage_proxy.Hosts.Shuffle.{is_group, members_from, swap, swap_all, fill}

get_elem?-set :
    (xs : List ℕ) (i j a v : ℕ)
    → get_elem? xs i ≡ some a
    → get_elem? (set xs i v) j ≡ (if j == i then some v else get_elem? xs j)
get_elem?-set [] i j a v h = cc
get_elem?-set (x ∷ xs) zero zero a v h = refl
get_elem?-set (x ∷ xs) zero (suc j) a v h = ground arith
get_elem?-set (x ∷ xs) (suc i) zero a v h = ground arith
get_elem?-set (x ∷ xs) (suc i) (suc j) a v h = ground (arith, get_elem?-set xs i j a v h)

exchange-SameItems :
    (xs : List ℕ) (i j a b : ℕ)
    → get_elem? xs i ≡ some a
    → get_elem? xs j ≡ some b
    → SameItems (set (set xs i b) j a) xs
exchange-SameItems xs i j a b hi hj q =
    let old : get_elem? (set xs i b) j ≡ some b = get_elem?-set xs i j a b hi ∙ ground arith in
    omega (arith, count-set q xs i b a hi, count-set q (set xs i b) j a b old)

swap-SameItems : (xs : List ℕ) (i j : ℕ) → SameItems (swap xs i j) xs
unfolding swap
swap-SameItems xs i j q = elim (Option-cases (get_elem? xs i)) [
  | inl absent ↦ rw (swap, absent)
  | inr (a, hi) ↦ elim (Option-cases (get_elem? xs j)) [
    | inl absent ↦ rw (swap, hi, absent)
    | inr (b, hj) ↦ rw (swap, hi, hj) (exchange-SameItems xs i j a b hi hj q)
  ]
]

pub swap_all-SameItems : (swaps : List (ℕ × ℕ)) (xs : List ℕ) → SameItems (swap_all swaps xs) xs
unfolding swap_all
swap_all-SameItems [] xs q = refl
swap_all-SameItems ((i, j) ∷ rest) xs q =
    swap_all-SameItems rest (swap xs i j) q ∙ swap-SameItems xs i j q

-- Slots in their order, none twice.
abbrev pub IsAscending : List ℕ → Type 0
IsAscending [] = Unit
IsAscending (i ∷ is) = All (λ j. i < j) is × IsAscending is

-- The entry is its own slot at each of the slots.
abbrev pub IsPut : List ℕ → List ℕ → Type 0
IsPut perm = All (λ i. get_elem? perm i ≡ some i)

set-IsPut :
    (perm : List ℕ) (slot x : ℕ) (slots : List ℕ)
    → get_elem? perm slot ≡ some slot
    → All (λ j. slot < j) slots
    → IsPut perm slots
    → IsPut (set perm slot x) slots
set-IsPut perm slot x [] at above p = tt
set-IsPut perm slot x (i ∷ slots) at (lt, above) (here, p) =
    (get_elem?-set perm slot i slot x at ∙ ground arith, set-IsPut perm slot x slots at above p)

-- A fill takes the slots' numbers out and puts the order in.
pub count-fill :
    (q : ℕ → Bool) (slots order perm : List ℕ)
    → length order ≡ length slots
    → IsAscending slots
    → IsPut perm slots
    → count q (fill perm slots order) + count q slots ≡ count q perm + count q order
unfolding fill
count-fill q [] [] perm e up p = refl
count-fill q [] (x ∷ order) perm e up p = absurd (omega (arith, e))
count-fill q (slot ∷ slots) [] perm e up p = absurd (omega (arith, e))
count-fill q (slot ∷ slots) (x ∷ order) perm e (above, up) (here, p) = omega (
  arith,
  count-set q perm slot x slot here,
  count-fill q slots order (set perm slot x) (omega (arith, e)) up
      (set-IsPut perm slot x slots here above p),
)

-- A slot that is not filled keeps its entry.
pub get-fill :
    (slots order perm : List ℕ) (j : ℕ)
    → IsPut perm slots
    → IsAscending slots
    → All (λ i. j == i ≡ false) slots
    → get_elem? (fill perm slots order) j ≡ get_elem? perm j
unfolding fill
get-fill [] order perm j p up away = refl
get-fill (slot ∷ slots) [] perm j p up away = refl
get-fill (slot ∷ slots) (x ∷ order) perm j (here, p) (above, up) (apart, away) =
    get-fill slots order (set perm slot x) j (set-IsPut perm slot x slots here above p) up away
    ∙ (get_elem?-set perm slot j slot x here ∙ ground arith)

drop_head :
    (R : ℕ → ℕ → Type 0) (slots order : List ℕ) (x : ℕ)
    → All (λ i. All (R i) (x ∷ order)) slots
    → All (λ i. All (R i) order) slots
drop_head R [] order x h = tt
drop_head R (i ∷ slots) order x ((_, here), h) = (here, drop_head R slots order x h)

write_respects :
    (R : ℕ → ℕ → Type 0) (perm : List ℕ) (slot x a : ℕ)
    → get_elem? perm slot ≡ some a
    → R slot x
    → ((j k : ℕ) → get_elem? perm j ≡ some k → R j k)
    → (j k : ℕ) → get_elem? (set perm slot x) j ≡ some k
    → R j k
write_respects R perm slot x a old fits before j k h = elim (Bool-cases (j == slot)) [
  | inl e ↦
      let written : some x ≡ some k = sym (get_elem?-set perm slot j a x old ∙ rw e) ∙ h in
      let same : k ≡ x = cc in rw (same, (==_iff j slot).0 e) fits
  | inr n ↦ before j k (sym (get_elem?-set perm slot j a x old ∙ rw n) ∙ h)
]

-- A relation of slots and entries survives a fill that respects it.
pub fill_respects :
    (R : ℕ → ℕ → Type 0) (slots order perm : List ℕ)
    → IsPut perm slots
    → IsAscending slots
    → All (λ i. All (R i) order) slots
    → ((j k : ℕ) → get_elem? perm j ≡ some k → R j k)
    → (j k : ℕ) → get_elem? (fill perm slots order) j ≡ some k
    → R j k
unfolding fill
fill_respects R [] order perm p up ok before j k h = before j k h
fill_respects R (slot ∷ slots) [] perm p up ok before j k h = before j k h
fill_respects R (slot ∷ slots) (x ∷ order) perm (here, p) (above, up) ((fits, _), ok) before j k h =
    fill_respects R slots order (set perm slot x) (set-IsPut perm slot x slots here above p) up
      (drop_head R slots order x ok) (write_respects R perm slot x slot here fits before) j k h

le_of_suc : (i j : ℕ) → suc i ≤ j → i ≤ j
le_of_suc i j h = omega (arith, h)

members_from_above : (g i : ℕ) (gs : List (Option ℕ)) → All (λ j. i ≤ j) (members_from g i gs)
unfolding members_from
members_from_above g i [] = tt
members_from_above g i (h ∷ hs) =
    let rest : All (λ j. i ≤ j) (members_from g (suc i) hs) =
      All-of (members_from g (suc i) hs) (le_of_suc i) (members_from_above g (suc i) hs) in
    elim (Bool-cases (is_group g h)) [
      | inl mine ↦ rw mine (omega arith, rest)
      | inr other ↦ rw other rest
    ]

pub members_from-IsAscending : (g i : ℕ) (gs : List (Option ℕ)) → IsAscending (members_from g i gs)
unfolding members_from
members_from-IsAscending g i [] = tt
members_from-IsAscending g i (h ∷ hs) = elim (Bool-cases (is_group g h)) [
  | inl mine ↦ rw mine (members_from_above g (suc i) hs, members_from-IsAscending g (suc i) hs)
  | inr other ↦ rw other (members_from-IsAscending g (suc i) hs)
]

is_group_sound : (g : ℕ) (h : Option ℕ) → is_group g h ≡ true → h ≡ some g
is_group_sound g none e = cc
is_group_sound g (some h) e = ap some ((==_iff h g).0 e)

shift : (i d : ℕ) → suc i + d ≡ i + suc d
shift i d = omega arith

here_group :
    (g i : ℕ) (h : Option ℕ) (hs all : List (Option ℕ))
    → ((d : ℕ) → get_elem? all (i + d) ≡ get_elem? (h ∷ hs) d)
    → is_group g h ≡ true
    → get_elem? all i ≡ some (some g)
here_group g i h hs all same mine =
    let plain : i + 0 ≡ i = omega arith in
    sym (ap (get_elem? all) plain) ∙ same 0 ∙ ap some (is_group_sound g h mine)

-- Every slot of a group holds that group, in a list of which the rest from slot `i` on is searched.
pub members_from-group :
    (g i : ℕ) (gs all : List (Option ℕ))
    → ((d : ℕ) → get_elem? all (i + d) ≡ get_elem? gs d)
    → All (λ k. get_elem? all k ≡ some (some g)) (members_from g i gs)
unfolding members_from
members_from-group g i [] all same = tt
members_from-group g i (h ∷ hs) all same =
    let rest =
      members_from-group g (suc i) hs all (λ d. ap (get_elem? all) (shift i d) ∙ same (suc d)) in
    elim (Bool-cases (is_group g h)) [
      | inl mine ↦ rw mine (here_group g i h hs all same mine, rest)
      | inr other ↦ rw other rest
    ]
