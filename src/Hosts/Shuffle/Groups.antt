-- ===== src/Hosts/Shuffle/Groups.antt =====
-- internal/hosts/shuffle.go: the permutation moves entries inside their groups only.
use remnawave_subpage_proxy.Prelude.{
  ℕ, suc, ◌+◌, ◌≡◌, refl, sym, ap, ◌∙◌, inl, inr, Bool, true, false, List, Option, none, some, ◌==◌,
  ltb, length, get_elem?, All, All-of, arith, Bool-cases, ==_iff,
}
use remnawave_subpage_proxy.Prelude.Counts.{count, SameItems, SameItems-All, SameItems-length}
use remnawave_subpage_proxy.Hosts.Shuffle.{
  Shuffler, is_group, members_from, swap_all, fill, indices, Moves, shuffle_group,
}
use remnawave_subpage_proxy.Hosts.Shuffle.Laws.{
  swap_all-SameItems, IsAscending, IsPut, count-fill, get-fill, fill_respects,
  members_from-IsAscending, members_from-group,
}

-- The groups before `g` are done.
abbrev pub is_done : ℕ → Option ℕ → Bool
is_done g none = false
is_done g (some h) = ltb h g

-- A permutation of the slots of `gs` in which the groups before `g` may have moved.
pub record IsShuffled (g : ℕ) (gs : List (Option ℕ)) (perm : List ℕ) : Type 0 where
  pub items : SameItems perm (indices 0 gs)
  pub still :
      (j : ℕ) (h : Option ℕ)
      → get_elem? gs j ≡ some h
      → is_done g h ≡ false
      → get_elem? perm j ≡ some j
  pub grouped : (j k : ℕ) → get_elem? perm j ≡ some k → get_elem? gs k ≡ get_elem? gs j

not_done : (g : ℕ) → is_done g (some g) ≡ false
not_done g = ground arith

not_before : (g : ℕ) (h : Option ℕ) → is_done (suc g) h ≡ false → is_done g h ≡ false
not_before g none e = refl
not_before g (some h) e = ground arith

members_given :
    (g : ℕ) (gs : List (Option ℕ)) (perm : List ℕ) (slots : List ℕ)
    → IsShuffled g gs perm
    → All (λ k. get_elem? gs k ≡ some (some g)) slots
    → IsPut perm slots
members_given g gs perm slots s h = All-of slots (λ k at. s.still k (some g) at (not_done g)) h

in_group : ℕ → Option (Option ℕ) → Bool
in_group g none = false
in_group g (some h) = is_group g h

in_group_sound : (g : ℕ) (h : Option (Option ℕ)) → in_group g h ≡ true → h ≡ some (some g)
unfolding in_group
in_group_sound g none e = cc
in_group_sound g (some none) e = cc
in_group_sound g (some (some h)) e = ap (λ n. some (some n)) ((==_iff h g).0 e)

in_group_complete : (g : ℕ) (h : Option (Option ℕ)) → h ≡ some (some g) → in_group g h ≡ true
unfolding in_group
in_group_complete g h e = rw e ((==_iff g g).1 refl)

-- What is true of the members is true of them in any order.
order-group :
    (g : ℕ) (gs : List (Option ℕ)) (order slots : List ℕ)
    → SameItems order slots
    → All (λ k. get_elem? gs k ≡ some (some g)) slots
    → All (λ k. get_elem? gs k ≡ some (some g)) order
order-group g gs order slots same h =
    All-of order (λ k. in_group_sound g (get_elem? gs k))
      (SameItems-All (λ k. in_group g (get_elem? gs k)) order slots same
        (All-of slots (λ k. in_group_complete g (get_elem? gs k)) h))

slots_respect :
    (g : ℕ) (gs : List (Option ℕ)) (order slots : List ℕ)
    → All (λ k. get_elem? gs k ≡ some (some g)) order
    → All (λ k. get_elem? gs k ≡ some (some g)) slots
    → All (λ i. All (λ k. get_elem? gs k ≡ get_elem? gs i) order) slots
slots_respect g gs order slots ho hs =
    All-of slots (λ i at. All-of order (λ k in_order. in_order ∙ sym at) ho) hs

apart_of :
    (g : ℕ) (gs : List (Option ℕ)) (j : ℕ) (h : Option ℕ) (i : ℕ)
    → get_elem? gs j ≡ some h
    → is_done (suc g) h ≡ false
    → get_elem? gs i ≡ some (some g)
    → j == i ≡ false
apart_of g gs j h i at late mine = elim (Bool-cases (j == i)) [
  | inl e ↦
      let both : some h ≡ some (some g) = sym at ∙ ap (get_elem? gs) ((==_iff j i).0 e) ∙ mine in
      let same : h ≡ some g = cc in let done : is_done (suc g) (some g) ≡ true = ground arith in cc
  | inr n ↦ n
]

module _ (s : Shuffler) (gs : List (Option ℕ)) where
  -- A group whose members change places.
  fill-IsShuffled :
      (g : ℕ) (perm slots order : List ℕ)
      → IsAscending slots
      → All (λ k. get_elem? gs k ≡ some (some g)) slots
      → SameItems order slots
      → IsShuffled g gs perm
      → IsShuffled (suc g) gs (fill perm slots order)
  fill-IsShuffled g perm slots order up mine same f =
      let put = members_given g gs perm slots f mine in
      let ordered = order-group g gs order slots same mine in
      record {
        items = λ q. fill_items q put;
        still = λ j h at late.
            get-fill slots order perm j put up
              (All-of slots (λ i. apart_of g gs j h i at late) mine)
            ∙ f.still j h at (not_before g h late);
        grouped =
            fill_respects (λ j k. get_elem? gs k ≡ get_elem? gs j) slots order perm put up
              (slots_respect g gs order slots ordered mine) f.grouped;
      }
    where
      fill_items :
          (q : ℕ → Bool)
          → IsPut perm slots
          → count q (fill perm slots order) ≡ count q (indices 0 gs)
      fill_items q put = omega (
        arith,
        count-fill q slots order perm (SameItems-length order slots same) up put,
        same q,
        f.items q,
      )

  pub shuffle_group-IsShuffled :
      (g : ℕ) (m : Moves)
      → IsShuffled g gs m.perm
      → IsShuffled (suc g) gs (shuffle_group s gs g m).perm
  unfolding shuffle_group
  shuffle_group-IsShuffled g m f = elim (Bool-cases (ltb (length (members_from g 0 gs)) 2)) [
    | inl few ↦ rw few (record {
      items = f.items;
      still = λ j h at late. f.still j h at (not_before g h late);
      grouped = f.grouped;
    })
    | inr many ↦ rw many (
        fill-IsShuffled g m.perm (members_from g 0 gs)
          (swap_all (s.swaps g (length (members_from g 0 gs))) (members_from g 0 gs))
          (members_from-IsAscending g 0 gs) (members_from-group g 0 gs gs (λ d. from_zero d))
          (swap_all-SameItems (s.swaps g (length (members_from g 0 gs))) (members_from g 0 gs)) f)
  ]
    where
      from_zero : (d : ℕ) → get_elem? gs (0 + d) ≡ get_elem? gs d
      from_zero d = let plain : 0 + d ≡ d = omega arith in ap (get_elem? gs) plain
