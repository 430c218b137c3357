-- ===== src/Hosts/Shuffle.antt =====
-- internal/hosts/shuffle.go: which servers change places. `rand.Shuffle` is a parameter: the swaps that
-- it makes for the members of a group, given the group and how many there are.
pub mod Laws
pub mod Groups
pub mod Permutation
pub mod Reorder
use remnawave_subpage_proxy.Prelude.{
  ℕ, zero, suc, ◌+◌, Bool, true, false, not, ◌&&◌, ◌||◌, List, [], ◌∷◌, ◌++◌, Option, none, some,
  ltb, leb, ◌==◌, if◌then◌else◌, length, is_some, map, get_elem?, set,
}
use remnawave_subpage_proxy.Prelude.Text.{Bytes, codes, bytes_eq, is_empty, trim_space}
use remnawave_subpage_proxy.Prelude.Assoc.{lookup}
use remnawave_subpage_proxy.Config.Patterns.{Regexp}

pub record Shuffler : Type 0 where
  pub groups : List Regexp
  pub swaps : ℕ → ℕ → List (ℕ × ℕ)

-- `Enabled`; a nil shuffler is `none`.
unfoldable pub shuffles_any : Option Shuffler → Bool
shuffles_any none = false
shuffles_any (some s) = ltb 0 (length s.groups)

pub data Format : Type 0 where
  unknown links xray singbox clash : Format

-- `FormatForClientType`
unfoldable pub format_for_client_type : Bytes → Format
format_for_client_type t =
    if bytes_eq t (codes "json") || bytes_eq t (codes "v2ray-json")
    then xray
    else if bytes_eq t (codes "singbox")
    then singbox
    else if bytes_eq t (codes "clash") || bytes_eq t (codes "mihomo") || bytes_eq t (codes "stash")
    then clash
    else links

-- The first pattern that matches, from index `i` on.
unfoldable pub group_from : ℕ → List Regexp → Bytes → Option ℕ
group_from i [] name = none
group_from i (g ∷ gs) name =
    let rest = group_from (suc i) gs name in if g name then some i else rest

-- `group`; -1 is `none`.
unfoldable pub group : Shuffler → Bytes → Option ℕ
unfolding group_from
group s name = if is_empty name then none else group_from 0 s.groups name

abbrev pub is_group : ℕ → Option ℕ → Bool
is_group g none = false
is_group g (some h) = h == g

-- The slots of one group, from slot `i` on.
unfoldable pub members_from : ℕ → ℕ → List (Option ℕ) → List ℕ
members_from g i [] = []
members_from g i (h ∷ hs) =
    let rest = members_from g (suc i) hs in if is_group g h then i ∷ rest else rest

-- `order[i], order[j] = order[j], order[i]`; `rand.Shuffle` asks for slots of the list only.
abbrev pub exchange : List ℕ → ℕ → ℕ → Option ℕ → Option ℕ → List ℕ
exchange xs i j (some a) (some b) = set (set xs i b) j a
exchange xs i j _ _ = xs

unfoldable pub swap : List ℕ → ℕ → ℕ → List ℕ
swap xs i j = exchange xs i j (get_elem? xs i) (get_elem? xs j)

unfoldable pub swap_all : List (ℕ × ℕ) → List ℕ → List ℕ
unfolding swap
swap_all [] xs = xs
swap_all ((i, j) ∷ rest) xs = swap_all rest (swap xs i j)

-- `perm[slot] = order[k]` for every slot.
unfoldable pub fill : List ℕ → List ℕ → List ℕ → List ℕ
fill perm [] order = perm
fill perm (slot ∷ slots) [] = perm
fill perm (slot ∷ slots) (x ∷ order) = fill (set perm slot x) slots order

-- Some `order[k] != slot`
unfoldable pub differ : List ℕ → List ℕ → Bool
differ [] order = false
differ (slot ∷ slots) [] = false
differ (slot ∷ slots) (x ∷ order) = not (x == slot) || differ slots order

-- `0, 1, …` from `i` on, as long as the list.
unfoldable pub indices : {A : Type 0} → ℕ → List A → List ℕ
indices i [] = []
indices i (x ∷ xs) = i ∷ indices (suc i) xs

-- The permutation so far, and whether anything has moved.
pub record Moves : Type 0 where
  pub perm : List ℕ
  pub moved : Bool

module _ (s : Shuffler) (gs : List (Option ℕ)) where
  -- One round of the last loop of `permutation`: a group with fewer than two members is left alone.
  unfoldable pub shuffle_group : ℕ → Moves → Moves
  unfolding members_from swap_all fill differ
  shuffle_group g m =
      let slots = members_from g 0 gs in
      let order = swap_all (s.swaps g (length slots)) slots in
      if ltb (length slots) 2
      then m
      else record { perm = fill m.perm slots order; moved = m.moved || differ slots order }

  -- That loop, over the groups from `g` on in their order. A group without members, which the map of
  -- the source does not hold, is left alone too.
  unfoldable pub shuffle_groups : ℕ → List Regexp → Moves → Moves
  unfolding shuffle_group
  shuffle_groups g [] m = m
  shuffle_groups g (r ∷ rs) m = shuffle_groups (suc g) rs (shuffle_group g m)

-- `permutation`: which entry fills each slot; nil is `none`.
unfoldable pub permutation : Shuffler → List Bytes → Option (List ℕ)
unfolding shuffle_groups indices group
permutation s names =
    let gs = map (group s) names in
    let m = shuffle_groups s gs 0 s.groups (record { perm = indices 0 names; moved = false }) in
    if m.moved then some m.perm else none

abbrev pub or_default : {A : Type 0} → A → Option A → A
or_default x none = x
or_default x (some y) = y

-- `shuffled[slot] = items[from]` for every slot. The slots that `permutation` names are all there, so
-- the default is never taken.
unfoldable pub arrange : {A : Type 0} → A → List A → List ℕ → List A
arrange default items perm = map (λ from. or_default default (get_elem? items from)) perm

-- The names that have an index.
unfoldable pub picked_of : List (Bytes × ℕ) → List Bytes → List (Bytes × ℕ)
picked_of index [] = []
picked_of index (n ∷ ns) = elim (lookup n index) [
  | none ↦ picked_of index ns
  | some i ↦ (n, i) ∷ picked_of index ns
]

-- `sort.SliceStable` by the index: equal indices keep their order.
unfoldable pub insert_by : Bytes × ℕ → List (Bytes × ℕ) → List (Bytes × ℕ)
insert_by p [] = p ∷ []
insert_by p (q ∷ qs) = let rest = insert_by p qs in if leb p.1 q.1 then p ∷ q ∷ qs else q ∷ rest

unfoldable pub sort_by : List (Bytes × ℕ) → List (Bytes × ℕ)
unfolding insert_by
sort_by [] = []
sort_by (p ∷ ps) = insert_by p (sort_by ps)

-- The last loop of `reorderNames`: the slots of the names that have an index take the sorted names.
unfoldable pub place : List (Bytes × ℕ) → List Bytes → List (Bytes × ℕ) → List Bytes
place index [] ps = []
place index (n ∷ ns) ps = elim (lookup n index) [
  | none ↦ n ∷ place index ns ps
  | some i ↦ elim ps [ [] ↦ n ∷ ns | (m, j) ∷ qs ↦ m ∷ place index ns qs ]
]

unfoldable pub texts_eq : List Bytes → List Bytes → Bool
texts_eq [] [] = true
texts_eq (s ∷ ss) (t ∷ ts) = bytes_eq s t && texts_eq ss ts
texts_eq _ _ = false

-- `reorderNames`, with the names that it leaves behind and whether they changed.
unfoldable pub reorder_names : List (Bytes × ℕ) → List Bytes → List Bytes × Bool
unfolding picked_of sort_by place texts_eq
reorder_names index names =
    let picked = picked_of index names in
    let placed = place index names (sort_by picked) in
    if ltb (length picked) 2 then (names, false) else (placed, not (texts_eq names placed))
