-- ===== src/Panel/Cache/Laws.antt =====
-- What internal/panel/cache.go keeps, for how long, and how much of it.
use remnawave_subpage_proxy.Prelude.{
  ℕ, ◌+◌, ◌≡◌, ◌≤◌, ◌<◌, refl, sym, ap, ◌∙◌, inl, inr, true, false, not, ◌||◌, ◌⊎◌, [], ◌∷◌, none,
  some, ltb, length, any, arith, Bool-cases, Option-cases,
}
use remnawave_subpage_proxy.Prelude.Int.{ℤ, pos, negsuc, pos_part, ltb_ℤ}
use remnawave_subpage_proxy.Prelude.Text.{Bytes, bytes_eq}
use remnawave_subpage_proxy.Prelude.Text.Laws.{bytes_eq_iff, bytes_eq_refl}
use remnawave_subpage_proxy.Prelude.Assoc.{
  IsMap, lookup, remove, lookup-cons, lookup-remove_ne, lookup-remove_self, remove-IsMap,
  length-remove, remove_absent,
}
use remnawave_subpage_proxy.Panel.Cache.{
  Answer, Kept, KeptEntries, Cache, cached, sweep, drop_live, lifetime, evict_if_needed, keep_until,
  store,
}

-- A map that is left of another: each key is gone, or has what it had.
pub record IsLeft (m' m : KeptEntries) : Type 0 where
  pub distinct : IsMap m'
  pub kept : (j : Bytes) → (lookup j m' ≡ none) ⊎ (lookup j m' ≡ lookup j m)

IsLeft-refl : (m : KeptEntries) → IsMap m → IsLeft m m
IsLeft-refl m d = record { distinct = d; kept = λ j. inr refl }

IsLeft-trans : (a b c : KeptEntries) → IsLeft a b → IsLeft b c → IsLeft a c
IsLeft-trans a b c p q = record {
  distinct = p.distinct;
  kept = λ j. elim (p.kept j) [
    | inl gone ↦ inl gone
    | inr same ↦ elim (q.kept j) [ inl gone ↦ inl (same ∙ gone) | inr before ↦ inr (same ∙ before) ]
  ];
}

lookup-remove_either :
    (k : Bytes) (m : KeptEntries)
    → IsMap m
    → (j : Bytes) → (lookup j (remove k m) ≡ none) ⊎ (lookup j (remove k m) ≡ lookup j m)
lookup-remove_either k m d j = elim (Bool-cases (bytes_eq k j)) [
  | inl e ↦
      inl
        (ap (λ t. lookup t (remove k m)) (sym ((bytes_eq_iff k j).0 e)) ∙ lookup-remove_self k m d)
  | inr n ↦ inr (lookup-remove_ne k j m n)
]

remove-IsLeft : (k : Bytes) (m : KeptEntries) → IsMap m → IsLeft (remove k m) m
remove-IsLeft k m d = record { distinct = remove-IsMap k m d; kept = lookup-remove_either k m d }

sweep-IsLeft : (now : ℕ) (visits m : KeptEntries) → IsMap m → IsLeft (sweep now visits m) m
unfolding sweep
sweep-IsLeft now [] m d = IsLeft-refl m d
sweep-IsLeft now ((k, e) ∷ visits) m d = elim (Bool-cases (not (ltb now e.expires_at))) [
  | inl stale ↦ rw stale (
      IsLeft-trans _ (remove k m) m (sweep-IsLeft now visits (remove k m) (remove-IsMap k m d))
        (remove-IsLeft k m d))
  | inr fresh ↦ rw fresh (sweep-IsLeft now visits m d)
]

drop_live-IsLeft : (n : ℕ) (visits m : KeptEntries) → IsMap m → IsLeft (drop_live n visits m) m
unfolding drop_live
drop_live-IsLeft n [] m d = IsLeft-refl m d
drop_live-IsLeft n ((k, e) ∷ visits) m d = elim (Bool-cases (ltb (length m) n)) [
  | inl few ↦ rw few (IsLeft-refl m d)
  | inr full ↦ rw full (
      IsLeft-trans _ (remove k m) m (drop_live-IsLeft n visits (remove k m) (remove-IsMap k m d))
        (remove-IsLeft k m d))
]

-- Every key of the map is visited.
abbrev pub Covers : KeptEntries → KeptEntries → Type 0
Covers visits m =
    (j : Bytes) (e : Kept)
    → lookup j m ≡ some e
    → any (λ (v : Bytes × Kept). bytes_eq v.0 j) visits ≡ true

covered_empty : (m : KeptEntries) → Covers [] m → m ≡ []
unfolding lookup
covered_empty [] c = refl
covered_empty ((k, e) ∷ m) c = let hit : false ≡ true = c k e (rw (bytes_eq_refl k)) in cc

remove-Covers :
    (k : Bytes) (e : Kept) (visits m : KeptEntries)
    → IsMap m
    → Covers ((k, e) ∷ visits) m
    → Covers visits (remove k m)
remove-Covers k e visits m d c j f h = elim (Bool-cases (bytes_eq k j)) [
  | inl same ↦
      let gone : lookup j (remove k m) ≡ none =
        ap (λ t. lookup t (remove k m)) (sym ((bytes_eq_iff k j).0 same))
        ∙ lookup-remove_self k m d in
      cc
  | inr apart ↦ let seen = c j f (sym (lookup-remove_ne k j m apart) ∙ h) in rw apart at seen
]

drop_live_few :
    (n : ℕ) (visits m : KeptEntries)
    → IsMap m
    → Covers visits m
    → 0 < n
    → length (drop_live n visits m) < n
unfolding drop_live
drop_live_few n [] m d c p = rw (covered_empty m c) p
drop_live_few n ((k, e) ∷ visits) m d c p = elim (Bool-cases (ltb (length m) n)) [
  | inl few ↦ rw few (ground arith)
  | inr full ↦
      rw full (
        drop_live_few n visits (remove k m) (remove-IsMap k m d) (remove-Covers k e visits m d c) p)
]

length-remove_le : (k : Bytes) (m : KeptEntries) → length (remove k m) ≤ length m
length-remove_le k m = elim (Option-cases (lookup k m)) [
  | inl absent ↦ rw (remove_absent k m absent) (omega arith)
  | inr (e, present) ↦ omega (arith, length-remove k m e present)
]

pub positive : (n : ℤ) → 0 < pos_part n → ltb_ℤ (pos 0) n ≡ true
positive (pos n) h = ground arith
positive (negsuc n) h = ground arith

module _ (order : KeptEntries → KeptEntries) (now : ℕ) (c : Cache) (d : IsMap c.entries) where
  pub evict-IsLeft : IsLeft (evict_if_needed order now c) c.entries
  unfolding evict_if_needed
  evict-IsLeft =
      elim (Bool-cases
        (not (ltb_ℤ (pos 0) c.max_entries) || ltb (length c.entries) (pos_part c.max_entries))) [
          | inl idle ↦ rw idle (IsLeft-refl c.entries d)
          | inr full ↦
              let swept = sweep-IsLeft now (order c.entries) c.entries d in
              rw full (IsLeft-trans _ _ _ (drop_live-IsLeft _ _ _ swept.distinct) swept)
        ]

  evict_few :
      ((m : KeptEntries) → IsMap m → Covers (order m) m)
      → 0 < pos_part c.max_entries
      → length (evict_if_needed order now c) < pos_part c.max_entries
  unfolding evict_if_needed
  evict_few covers p =
      elim (Bool-cases
        (not (ltb_ℤ (pos 0) c.max_entries) || ltb (length c.entries) (pos_part c.max_entries))) [
          | inl idle ↦ let on = positive c.max_entries p in rw idle (ground arith)
          | inr full ↦
              let swept = sweep-IsLeft now (order c.entries) c.entries d in
              rw full (drop_live_few _ _ _ swept.distinct (covers _ swept.distinct) p)
        ]

  module _ (short_uuid : Bytes) (a : Answer) where
    pub store_either :
        (store order now short_uuid a c ≡ c)
        ⊎ ((t : ℕ) × (store order now short_uuid a c ≡ keep_until order now short_uuid a t c))
    unfolding store
    store_either = elim (Option-cases (lifetime c a)) [
      | inl none_kept ↦ inl (rw (store, none_kept))
      | inr (ttl, kept) ↦ elim (Bool-cases (not (ltb_ℤ (pos 0) ttl))) [
        | inl off ↦ inl (rw (store, kept, off))
        | inr on ↦ inr (now + pos_part ttl, rw (store, kept, on))
      ]
    ]

    -- Storing an answer leaves no key twice.
    pub store-IsMap : IsMap (store order now short_uuid a c).entries
    store-IsMap = elim store_either [
      | inl same ↦ rw same d
      | inr (t, kept) ↦ rw kept (
        lookup-remove_self short_uuid _ evict-IsLeft.distinct,
        remove-IsMap short_uuid _ evict-IsLeft.distinct,
      )
    ]

    -- The panel's cache stays within its number of entries, where that is positive and the eviction
    -- visits every entry.
    pub store_within :
        ((m : KeptEntries) → IsMap m → Covers (order m) m)
        → 0 < pos_part c.max_entries
        → length c.entries ≤ pos_part c.max_entries
        → length (store order now short_uuid a c).entries ≤ pos_part c.max_entries
    store_within covers p within = elim store_either [
      | inl same ↦ rw same within
      | inr (t, kept) ↦ rw kept (
          omega
            (arith, evict_few covers p, length-remove_le short_uuid (evict_if_needed order now c)))
    ]

    pub lookup-keep_until :
        (t : ℕ) (other : Bytes)
        → bytes_eq short_uuid other ≡ false
        → lookup other (keep_until order now short_uuid a t c).entries
          ≡ lookup other (evict_if_needed order now c)
    lookup-keep_until t other apart =
        lookup-cons short_uuid other _ (remove short_uuid (evict_if_needed order now c))
        ∙ rw apart (lookup-remove_ne short_uuid other (evict_if_needed order now c) apart)

    -- Storing an answer for one subscription changes no other subscription's answer: that is found
    -- as before, or was evicted.
    pub cached-store_ne :
        (other : Bytes) (later : ℕ)
        → bytes_eq short_uuid other ≡ false
        → (cached later other (store order now short_uuid a c) ≡ none)
          ⊎ (cached later other (store order now short_uuid a c) ≡ cached later other c)
    unfolding cached
    cached-store_ne other later apart = elim store_either [
      | inl same ↦ inr (ap (cached later other) same)
      | inr (t, kept) ↦ elim (evict-IsLeft.kept other) [
        | inl gone ↦ inl (rw kept (rw (cached, lookup-keep_until t other apart, gone)))
        | inr before ↦ inr (rw kept (rw (cached, lookup-keep_until t other apart, before)))
      ]
    ]
