-- ===== src/Hosts/Shuffle/Reorder.antt =====
-- internal/hosts/shuffle.go: what `reorderNames` makes of a list of names.
use remnawave_subpage_proxy.Prelude.{
  ℕ, zero, suc, ◌+◌, ◌≤◌, ◌≡◌, refl, sym, ap, ◌∙◌, inl, inr, Bool, true, List, [], ◌∷◌, none, some,
  leb, ltb, if◌then◌else◌, length, get_elem?, All, arith, Bool-cases, Option-cases,
}
use remnawave_subpage_proxy.Prelude.Counts.{count, SameItems, SameItems-length}
use remnawave_subpage_proxy.Prelude.Text.{Bytes}
use remnawave_subpage_proxy.Prelude.Assoc.{lookup}
use remnawave_subpage_proxy.Hosts.Shuffle.{picked_of, insert_by, sort_by, place, reorder_names}

abbrev pub Ranked : Type 0
Ranked = List (Bytes × ℕ)

-- The ranks never fall.
abbrev pub IsSorted : Ranked → Type 0
IsSorted [] = Unit
IsSorted (p ∷ ps) = All (λ (q : Bytes × ℕ). p.1 ≤ q.1) ps × IsSorted ps

-- Every name has its rank in the index.
abbrev pub IsRanked : Ranked → Ranked → Type 0
IsRanked index = All (λ (p : Bytes × ℕ). lookup p.0 index ≡ some p.1)

insert_by-SameItems : (p : Bytes × ℕ) (qs : Ranked) → SameItems (insert_by p qs) (p ∷ qs)
unfolding insert_by
insert_by-SameItems p [] t = refl
insert_by-SameItems p (q ∷ qs) t = elim (Bool-cases (leb p.1 q.1)) [
  | inl first ↦ rw first
  | inr later ↦ rw later (omega (arith, insert_by-SameItems p qs t))
]

sort_by-SameItems : (ps : Ranked) → SameItems (sort_by ps) ps
unfolding sort_by
sort_by-SameItems [] t = refl
sort_by-SameItems (p ∷ ps) t =
    insert_by-SameItems p (sort_by ps) t
    ∙ ap (λ n. (if t p then 1 else 0) + n) (sort_by-SameItems ps t)

below_each :
    (k : ℕ) (p : Bytes × ℕ) (qs : Ranked)
    → k ≤ p.1
    → All (λ (q : Bytes × ℕ). k ≤ q.1) qs
    → All (λ (q : Bytes × ℕ). k ≤ q.1) (insert_by p qs)
unfolding insert_by
below_each k p [] le h = (le, tt)
below_each k p (q ∷ qs) le (here, h) = elim (Bool-cases (leb p.1 q.1)) [
  | inl first ↦ rw first (le, (here, h))
  | inr later ↦ rw later (here, below_each k p qs le h)
]

below_trans :
    (k m : ℕ) (qs : Ranked)
    → k ≤ m
    → All (λ (q : Bytes × ℕ). m ≤ q.1) qs
    → All (λ (q : Bytes × ℕ). k ≤ q.1) qs
below_trans k m [] le h = tt
below_trans k m (q ∷ qs) le (here, h) = (omega (arith, le, here), below_trans k m qs le h)

insert_by-IsSorted : (p : Bytes × ℕ) (qs : Ranked) → IsSorted qs → IsSorted (insert_by p qs)
unfolding insert_by
insert_by-IsSorted p [] s = (tt, tt)
insert_by-IsSorted p (q ∷ qs) (above, s) = elim (Bool-cases (leb p.1 q.1)) [
  | inl first ↦
      let le : p.1 ≤ q.1 = ground arith in
      rw first ((le, below_trans p.1 q.1 qs le above), (above, s))
  | inr later ↦
      let le : q.1 ≤ p.1 = ground arith in
      rw later (below_each q.1 p qs le above, insert_by-IsSorted p qs s)
]

sort_by-IsSorted : (ps : Ranked) → IsSorted (sort_by ps)
unfolding sort_by
sort_by-IsSorted [] = tt
sort_by-IsSorted (p ∷ ps) = insert_by-IsSorted p (sort_by ps) (sort_by-IsSorted ps)

insert_by-IsRanked :
    (index : Ranked) (p : Bytes × ℕ) (qs : Ranked)
    → lookup p.0 index ≡ some p.1
    → IsRanked index qs
    → IsRanked index (insert_by p qs)
unfolding insert_by
insert_by-IsRanked index p [] at h = (at, tt)
insert_by-IsRanked index p (q ∷ qs) at (here, h) = elim (Bool-cases (leb p.1 q.1)) [
  | inl first ↦ rw first (at, (here, h))
  | inr later ↦ rw later (here, insert_by-IsRanked index p qs at h)
]

picked_sorted-IsRanked :
    (index : Ranked) (names : List Bytes) → IsRanked index (sort_by (picked_of index names))
unfolding picked_of sort_by
picked_sorted-IsRanked index [] = tt
picked_sorted-IsRanked index (n ∷ ns) = elim (Option-cases (lookup n index)) [
  | inl absent ↦ rw (picked_of, absent) (picked_sorted-IsRanked index ns)
  | inr (i, at) ↦
      rw (picked_of, at) (insert_by-IsRanked index (n, i) _ at (picked_sorted-IsRanked index ns))
]

module _ (index : Ranked) where
  -- The ranked names of the result are those that were placed.
  picked_of-place :
      (names : List Bytes) (ps : Ranked)
      → length ps ≡ length (picked_of index names)
      → IsRanked index ps
      → picked_of index (place index names ps) ≡ ps
  unfolding picked_of place
  picked_of-place [] [] e h = refl
  picked_of-place [] (p ∷ ps) e h = absurd (omega (arith, e))
  picked_of-place (n ∷ ns) [] e h = elim (Option-cases (lookup n index)) [
    | inl absent ↦
        rw (place, absent)
          (rw (picked_of, absent) (picked_of-place ns [] (rw (picked_of, absent) at e) h))
    | inr (i, at) ↦
        let counted : 0 ≡ suc (length (picked_of index ns)) = rw (picked_of, at) at e in
        absurd (omega (arith, counted))
  ]
  picked_of-place (n ∷ ns) ((m, j) ∷ qs) e (here, h) = elim (Option-cases (lookup n index)) [
    | inl absent ↦
        rw (place, absent)
          (rw (picked_of, absent)
            (picked_of-place ns ((m, j) ∷ qs) (rw (picked_of, absent) at e) (here, h)))
    | inr (i, at) ↦
        let counted : suc (length qs) ≡ suc (length (picked_of index ns)) =
          rw (picked_of, at) at e in
        let rest = picked_of-place ns qs (omega (arith, counted)) h in
        rw (place, at) (rw (picked_of, here, rest))
  ]

  -- A placement takes the ranked names out and puts the placed ones in.
  count-place :
      (t : Bytes → Bool) (names : List Bytes) (ps : Ranked)
      → length ps ≡ length (picked_of index names)
      → count t (place index names ps) + count (λ p. t p.0) (picked_of index names)
        ≡ count t names + count (λ p. t p.0) ps
  unfolding picked_of place
  count-place t [] [] e = refl
  count-place t [] (p ∷ ps) e = absurd (omega (arith, e))
  count-place t (n ∷ ns) [] e = elim (Option-cases (lookup n index)) [
    | inl absent ↦
        rw (place, picked_of, absent)
          (omega (arith, count-place t ns [] (rw (picked_of, absent) at e)))
    | inr (i, at) ↦
        let counted : 0 ≡ suc (length (picked_of index ns)) = rw (picked_of, at) at e in
        absurd (omega (arith, counted))
  ]
  count-place t (n ∷ ns) ((m, j) ∷ qs) e = elim (Option-cases (lookup n index)) [
    | inl absent ↦
        rw (place, picked_of, absent)
          (omega (arith, count-place t ns ((m, j) ∷ qs) (rw (picked_of, absent) at e)))
    | inr (i, at) ↦
        let counted : suc (length qs) ≡ suc (length (picked_of index ns)) =
          rw (picked_of, at) at e in
        let rest = count-place t ns qs (omega (arith, counted)) in
        rw (place, picked_of, at) (omega (arith, rest))
  ]

  -- A name without a rank stays in its slot.
  get-place :
      (names : List Bytes) (ps : Ranked) (j : ℕ) (n : Bytes)
      → get_elem? names j ≡ some n
      → lookup n index ≡ none
      → get_elem? (place index names ps) j ≡ some n
  unfolding place
  get-place [] ps j n h absent = cc
  get-place (m ∷ ns) [] zero n h absent = elim (Option-cases (lookup m index)) [
    | inl unranked ↦ rw (place, unranked) h
    | inr (i, at) ↦ rw (place, at) h
  ]
  get-place (m ∷ ns) [] (suc j) n h absent = elim (Option-cases (lookup m index)) [
    | inl unranked ↦ rw (place, unranked) (get-place ns [] j n h absent)
    | inr (i, at) ↦ rw (place, at) h
  ]
  get-place (m ∷ ns) ((k, r) ∷ qs) zero n h absent = elim (Option-cases (lookup m index)) [
    | inl unranked ↦ rw (place, unranked) h
    | inr (i, at) ↦
        let same : m ≡ n = cc in
        let both : some i ≡ none = sym at ∙ ap (λ t. lookup t index) same ∙ absent in cc
  ]
  get-place (m ∷ ns) ((k, r) ∷ qs) (suc j) n h absent = elim (Option-cases (lookup m index)) [
    | inl unranked ↦ rw (place, unranked) (get-place ns ((k, r) ∷ qs) j n h absent)
    | inr (i, at) ↦ rw (place, at) (get-place ns qs j n h absent)
  ]

  -- The names in an order of which the ranked ones follow their ranks.
  pub record IsReordered (names out : List Bytes) : Type 0 where
    pub items : SameItems out names
    pub others :
        (j : ℕ) (n : Bytes)
        → get_elem? names j ≡ some n
        → lookup n index ≡ none
        → get_elem? out j ≡ some n
    pub ordered : IsSorted (picked_of index out)

  few-IsSorted : (ps : Ranked) → ltb (length ps) 2 ≡ true → IsSorted ps
  few-IsSorted [] h = tt
  few-IsSorted (p ∷ []) h = (tt, tt)
  few-IsSorted (p ∷ q ∷ ps) h = absurd (ground arith)

  -- `reorderNames` keeps every name, each as often as before, and every name without a new index in its
  -- slot; the names with one follow that index.
  pub reorder_names-IsReordered :
      (names : List Bytes) → IsReordered names (reorder_names index names).0
  unfolding reorder_names
  reorder_names-IsReordered names = elim (Bool-cases (ltb (length (picked_of index names)) 2)) [
    | inl few ↦ rw few (record {
      items = λ t. refl;
      others = λ j n at absent. at;
      ordered = few-IsSorted (picked_of index names) few;
    })
    | inr many ↦
        let picked = picked_of index names in
        let same : length (sort_by picked) ≡ length picked =
          SameItems-length (sort_by picked) picked (sort_by-SameItems picked) in
        rw many (record {
          items = λ t. placed_items t same;
          others = get-place names (sort_by picked);
          ordered =
              rw (picked_of-place names (sort_by picked) same (picked_sorted-IsRanked index names))
                (sort_by-IsSorted picked);
        })
  ]
    where
      placed_items :
          (t : Bytes → Bool)
          → length (sort_by (picked_of index names)) ≡ length (picked_of index names)
          → count t (place index names (sort_by (picked_of index names))) ≡ count t names
      placed_items t same = omega (
        arith,
        count-place t names (sort_by (picked_of index names)) same,
        sort_by-SameItems (picked_of index names) (λ p. t p.0),
      )
