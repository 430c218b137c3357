-- ===== src/Subcache/Budget.antt =====
-- The cache of internal/subcache stays within its budget of bytes.
use remnawave_subpage_proxy.Prelude.{
  ℕ, zero, suc, ◌≤◌, ◌<◌, ◌≡◌, refl, ◌≢◌, inl, inr, true, false, ◌&&◌, ◌||◌, [], ◌∷◌, Option, none,
  some, arith, ltb, ◌==◌, length, Bool-cases, Option-cases, All, is_some,
}
use remnawave_subpage_proxy.Prelude.Text.{Bytes, is_empty}
use remnawave_subpage_proxy.Prelude.Assoc.{lookup, Visits, length-remove, IsMap-present}
use remnawave_subpage_proxy.Subcache.{
  Entry, Entries, Cache, remove_locked, drop_expired, oldest_from, drop_oldest, evict_locked,
  stored, put,
}
use remnawave_subpage_proxy.Subcache.Accounting.{
  total, IsValid, remove_locked-IsValid, drop_expired-IsValid, stored-IsValid,
}

remove_locked-max_bytes : (key : Bytes) (c : Cache) → (remove_locked key c).max_bytes ≡ c.max_bytes
unfolding remove_locked
remove_locked-max_bytes key c = ground arith

drop_expired-max_bytes :
    (now : ℕ) (visits : Entries) (c : Cache) → (drop_expired now visits c).max_bytes ≡ c.max_bytes
unfolding drop_expired
drop_expired-max_bytes now [] c = refl
drop_expired-max_bytes now ((key, e) ∷ rest) c = ground (
  arith,
  drop_expired-max_bytes now rest c,
  drop_expired-max_bytes now rest (remove_locked key c),
  remove_locked-max_bytes key c,
)

-- The search for the oldest entry finds a key of the map.
oldest_from-present :
    (m : Entries) (key : Bytes) (oldest : ℕ) (visits : Entries)
    → is_some (lookup key m) ≡ true
    → All (λ e. lookup e.0 m ≡ some e.1) visits
    → is_some (lookup (oldest_from key oldest visits) m) ≡ true
unfolding oldest_from
oldest_from-present m key oldest [] here h = here
oldest_from-present m key oldest ((k, e) ∷ rest) here (hk, h) =
    elim (Bool-cases (is_empty key || ltb e.stored_at oldest)) [
      | inl older ↦ rw older (oldest_from-present m k e.stored_at rest (rw hk) h)
      | inr not_older ↦ rw not_older (oldest_from-present m key oldest rest here h)
    ]

oldest-present :
    (m visits : Entries)
    → visits ≢ []
    → All (λ e. lookup e.0 m ≡ some e.1) visits
    → is_some (lookup (oldest_from [] 0 visits) m) ≡ true
unfolding oldest_from
oldest-present m [] n h = absurd (n refl)
oldest-present m ((k, e) ∷ rest) n (hk, h) = oldest_from-present m k e.stored_at rest (rw hk) h

remove_locked-length :
    (key : Bytes) (c : Cache)
    → is_some (lookup key c.entries) ≡ true
    → length c.entries ≡ suc (length (remove_locked key c).entries)
unfolding remove_locked
remove_locked-length key c h = elim (Option-cases (lookup key c.entries)) [
  | inl absent ↦ cc
  | inr (e, here) ↦ rw (here, remove_locked) (length-remove key c.entries e here)
]

length-ne-nil : (m : Entries) → 0 < length m → m ≢ []
length-ne-nil [] h = absurd (omega arith)
length-ne-nil (x ∷ m) h = cc

module _ (order : Entries → Entries) (visits : Visits order) where
  oldest_is_present :
      (c : Cache)
      → IsValid c
      → 0 < length c.entries
      → is_some (lookup (oldest_from [] 0 (order c.entries)) c.entries) ≡ true
  oldest_is_present c v h =
      oldest-present c.entries (order c.entries)
        (λ e. length-ne-nil c.entries h (visits.all_visited c.entries e))
        (visits.all_present c.entries (IsMap-present c.entries v.distinct))

  drop_oldest-within :
      (fuel : ℕ) (c : Cache)
      → IsValid c
      → length c.entries ≤ fuel
      → (drop_oldest order fuel c).bytes ≤ c.max_bytes
  unfolding drop_oldest
  drop_oldest-within zero c v h = no_entries c.entries v.counted h
    where
      no_entries : (m : Entries) → c.bytes ≡ total m → length m ≤ 0 → c.bytes ≤ c.max_bytes
      no_entries [] e h = unfold total in omega arith
      no_entries (x ∷ m) e h = absurd (omega arith)
  drop_oldest-within (suc fuel) c v h =
      elim (Bool-cases (ltb c.max_bytes c.bytes && ltb 0 (length c.entries))) [
        | inl over ↦
            let key = oldest_from [] 0 (order c.entries) in
            let shorter = remove_locked-length key c (oldest_is_present c v (ground arith)) in
            let smaller =
              drop_oldest-within fuel (remove_locked key c) (remove_locked-IsValid key c v)
                (omega (arith, shorter)) in
            rw over (omega (arith, smaller, remove_locked-max_bytes key c))
        | inr fits ↦ rw fits (under c.entries v.counted fits)
      ]
    where
      under :
          (m : Entries)
          → c.bytes ≡ total m
          → (ltb c.max_bytes c.bytes && ltb 0 (length m)) ≡ false
          → c.bytes ≤ c.max_bytes
      under [] e h = unfold total in omega arith
      under (x ∷ m) e h = ground arith

  evict_locked-within :
      (now : ℕ) (c : Cache)
      → IsValid c
      → 0 < c.max_bytes
      → (evict_locked order now c).bytes ≤ c.max_bytes
  unfolding evict_locked
  evict_locked-within now c v budget =
      let swept = drop_expired now (order c.entries) c in
      let off : (c.max_bytes == 0) ≡ false = ground arith in
      let smaller =
        drop_oldest-within (length swept.entries) swept
          (drop_expired-IsValid now (order c.entries) c v) (omega arith) in
      rw off (omega (arith, smaller, drop_expired-max_bytes now (order c.entries) c))

  stored-max_bytes :
      (now : ℕ) (key : Bytes) (e : Entry) (c : Cache)
      → (stored order now key e c).max_bytes ≡ c.max_bytes
  unfolding stored
  stored-max_bytes now key e c = remove_locked-max_bytes key c

  -- After `Put` a cache with a budget holds no more bytes than that, if it did so before: the
  -- eviction ends, and ends within the budget, whatever order the map is visited in.
  pub put-within :
      (now : ℕ) (key : Bytes) (entry : Option Entry) (c : Cache)
      → IsValid c
      → 0 < c.max_bytes
      → c.bytes ≤ c.max_bytes
      → (put order now key entry c).bytes ≤ c.max_bytes
  unfolding put
  put-within now key none c v budget h = h
  put-within now key (some e) c v budget h = elim (Bool-cases (ltb c.max_body (length e.body))) [
    | inl big ↦ rw big h
    | inr fits ↦
        let same = stored-max_bytes now key e c in
        let smaller =
          evict_locked-within now (stored order now key e c) (stored-IsValid order now key e c v)
            (omega (arith, same)) in
        rw fits (omega (arith, smaller, same))
  ]
