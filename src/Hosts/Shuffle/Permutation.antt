-- ===== src/Hosts/Shuffle/Permutation.antt =====
-- internal/hosts/shuffle.go: what `permutation` returns.
use remnawave_subpage_proxy.Prelude.{
  ℕ, zero, suc, ◌+◌, ◌≡◌, refl, sym, ap, ◌∙◌, Bool, true, false, List, [], ◌∷◌, Option, none, some,
  length, map, get_elem?, arith, if◌then◌else◌,
}
use remnawave_subpage_proxy.Prelude.Counts.{count, SameItems, SameItems-map}
use remnawave_subpage_proxy.Prelude.Text.{Bytes}
use remnawave_subpage_proxy.Config.Patterns.{Regexp}
use remnawave_subpage_proxy.Hosts.Shuffle.{
  Shuffler, group, indices, arrange, or_default, Moves, shuffle_group, shuffle_groups, permutation,
}
use remnawave_subpage_proxy.Hosts.Shuffle.Groups.{IsShuffled, shuffle_group-IsShuffled}

get-indices :
    {A : Type 0} (i j : ℕ) (xs : List A) (x : A)
    → get_elem? xs j ≡ some x
    → get_elem? (indices i xs) j ≡ some (i + j)
unfolding indices
get-indices i j [] x h = cc
get-indices i zero (y ∷ ys) x h = let plain : i ≡ i + 0 = omega arith in ap some plain
get-indices i (suc j) (y ∷ ys) x h =
    let shift : suc i + j ≡ i + suc j = omega arith in get-indices (suc i) j ys x h ∙ ap some shift

indices-value :
    {A : Type 0} (i j k : ℕ) (xs : List A) → get_elem? (indices i xs) j ≡ some k → k ≡ i + j
unfolding indices
indices-value i j k [] h = cc
indices-value i zero k (y ∷ ys) h = let same : i ≡ k = cc in omega (arith, same)
indices-value i (suc j) k (y ∷ ys) h = omega (arith, indices-value (suc i) j k ys h)

pub indices-map :
    {A B : Type 0} (f : A → B) (i : ℕ) (xs : List A) → indices i (map f xs) ≡ indices i xs
unfolding indices
indices-map f i [] = refl
indices-map f i (x ∷ xs) = ap (λ l. i ∷ l) (indices-map f (suc i) xs)

start-IsShuffled : (gs : List (Option ℕ)) → IsShuffled 0 gs (indices 0 gs)
start-IsShuffled gs = record {
  items = λ q. refl;
  still = λ j h at late. get-indices 0 j gs h at ∙ ap some (from_zero j);
  grouped = λ j k h. ap (get_elem? gs) (indices-value 0 j k gs h ∙ from_zero j);
}
  where
    from_zero : (j : ℕ) → 0 + j ≡ j
    from_zero j = omega arith

shuffle_groups-IsShuffled :
    (s : Shuffler) (gs : List (Option ℕ)) (g : ℕ) (rs : List Regexp) (m : Moves)
    → IsShuffled g gs m.perm
    → IsShuffled (length rs + g) gs (shuffle_groups s gs g rs m).perm
unfolding shuffle_groups
shuffle_groups-IsShuffled s gs g [] m f = let plain : 0 + g ≡ g = omega arith in rw plain f
shuffle_groups-IsShuffled s gs g (r ∷ rs) m f =
    let next =
      shuffle_groups-IsShuffled s gs (suc g) rs (shuffle_group s gs g m)
        (shuffle_group-IsShuffled s gs g m f) in
    let shift : suc (length rs) + g ≡ length rs + suc g = omega arith in rw shift next

-- Every slot is filled by one entry; an entry fills only a slot whose entry had the same group, and one
-- whose name is in no group fills its own.
pub record IsHostShuffle (s : Shuffler) (names : List Bytes) (perm : List ℕ) : Type 0 where
  pub items : SameItems perm (indices 0 names)
  pub grouped :
      (j k : ℕ)
      → get_elem? perm j ≡ some k
      → get_elem? (map (group s) names) k ≡ get_elem? (map (group s) names) j
  pub ungrouped :
      (j : ℕ) → get_elem? (map (group s) names) j ≡ some none → get_elem? perm j ≡ some j

chosen : (b : Bool) (p perm : List ℕ) → (if b then some p else none) ≡ some perm → p ≡ perm
chosen true p perm h = cc
chosen false p perm h = cc

finish :
    (s : Shuffler) (names : List Bytes) (g : ℕ) (perm : List ℕ)
    → IsShuffled g (map (group s) names) perm
    → IsHostShuffle s names perm
finish s names g perm f = record {
  items = λ q. f.items q ∙ ap (count q) (indices-map (group s) 0 names);
  grouped = f.grouped;
  ungrouped = λ j at. f.still j none at refl;
}

start_of :
    (s : Shuffler) (names : List Bytes) → IsShuffled 0 (map (group s) names) (indices 0 names)
start_of s names = rw (sym (indices-map (group s) 0 names)) (start-IsShuffled (map (group s) names))

-- Where `permutation` moves anything, whatever the random swaps are, it only exchanges entries of one
-- group with each other: no entry is lost or doubled, and one that is in no group stays in its slot.
pub permutation-IsHostShuffle :
    (s : Shuffler) (names : List Bytes) (perm : List ℕ)
    → permutation s names ≡ some perm
    → IsHostShuffle s names perm
unfolding permutation
permutation-IsHostShuffle s names perm h =
    let start : Moves = record { perm = indices 0 names; moved = false } in
    let last = shuffle_groups s (map (group s) names) 0 s.groups start in
    let f = shuffle_groups-IsShuffled s (map (group s) names) 0 s.groups start (start_of s names) in
    let same : last.perm ≡ perm = chosen last.moved last.perm perm h in
    rw (sym same) (finish s names _ last.perm f)

arrange-indices :
    {A : Type 0} (default : A) (all : List A) (i : ℕ) (xs : List A)
    → ((d : ℕ) → get_elem? all (i + d) ≡ get_elem? xs d)
    → map (λ from. or_default default (get_elem? all from)) (indices i xs) ≡ xs
unfolding indices
arrange-indices default all i [] same = refl
arrange-indices {A} default all i (x ∷ xs) same =
    let plain : i + 0 ≡ i = omega arith in
    let here : get_elem? all i ≡ some x = sym (ap (get_elem? all) plain) ∙ same 0 in
    let rest = arrange-indices default all (suc i) xs (λ d. next d) in rw (here, rest)
  where
    next : (d : ℕ) → get_elem? all (suc i + d) ≡ get_elem? xs d
    next d =
        let shift : suc i + d ≡ i + suc d = omega arith in ap (get_elem? all) shift ∙ same (suc d)

-- The entries that a shuffle arranges are the entries that there were, whatever they are.
pub arrange-SameItems :
    {A : Type 0} (default : A) (name : A → Bytes) (s : Shuffler) (items : List A) (perm : List ℕ)
    → permutation s (map name items) ≡ some perm
    → SameItems (arrange default items perm) items
unfolding arrange
arrange-SameItems default name s items perm h =
    let shuffled = permutation-IsHostShuffle s (map name items) perm h in
    let slots : SameItems perm (indices 0 items) =
      rw (indices-map name 0 items) at shuffled.items in
    rw (arrange-indices default items 0 items (λ d. plain d)) at (
      SameItems-map (λ from. or_default default (get_elem? items from)) perm (indices 0 items)
        slots)
  where
    plain : (d : ℕ) → get_elem? items (0 + d) ≡ get_elem? items d
    plain d = let same : 0 + d ≡ d = omega arith in ap (get_elem? items) same
