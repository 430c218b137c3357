-- ===== src/Subcache/Accounting.antt =====
-- The byte count of the cache of internal/subcache is right after every operation.
use remnawave_subpage_proxy.Prelude.{
  ℕ, zero, suc, ◌+◌, ◌≡◌, refl, inl, inr, ◌&&◌, [], ◌∷◌, Option, none, some, arith, ltb, leb, ◌==◌,
  length, Bool-cases, Option-cases,
}
use remnawave_subpage_proxy.Prelude.Text.{Bytes, bytes_eq}
use remnawave_subpage_proxy.Prelude.Assoc.{lookup, remove, IsMap, remove-IsMap, lookup-remove_self}
use remnawave_subpage_proxy.Subcache.{
  Entry, Entries, Cache, size, new, remove_locked, expired, get, drop_expired, drop_oldest,
  evict_locked, stored, put,
}

-- The bytes that the entries hold.
unfoldable pub total : Entries → ℕ
total [] = 0
total ((k, e) ∷ m) = size e + total m

pub total-remove :
    (k : Bytes) (m : Entries) (e : Entry)
    → lookup k m ≡ some e
    → total m ≡ total (remove k m) + size e
unfolding total lookup remove
total-remove k [] e h = cc
total-remove k ((i, w) ∷ m) e h = elim (Bool-cases (bytes_eq i k)) [
  | inl eq ↦ rw eq (let same : w ≡ e = ground arith in rw same (omega arith))
  | inr d ↦ rw d (omega (arith, total-remove k m e (rw d at h)))
]

-- The count is the size of what is stored, and no key is stored twice.
pub record IsValid (c : Cache) : Type 0 where
  pub counted : c.bytes ≡ total c.entries
  pub distinct : IsMap c.entries

pub new-IsValid : (ttl max_bytes max_body : ℕ) → IsValid (new ttl max_bytes max_body)
unfolding new total
new-IsValid ttl max_bytes max_body = record { counted = refl; distinct = tt }

pub remove_locked-IsValid : (key : Bytes) (c : Cache) → IsValid c → IsValid (remove_locked key c)
unfolding remove_locked
remove_locked-IsValid key c v = elim (Option-cases (lookup key c.entries)) [
  | inl absent ↦ rw (absent, remove_locked) v
  | inr (e, here) ↦
      rw (here, remove_locked)
        (record {
          counted = omega (arith, total-remove key c.entries e here, v.counted);
          distinct = remove-IsMap key c.entries v.distinct;
        })
]

size-stamp : (e : Entry) (now : ℕ) → size (record e { stored_at = now }) ≡ size e
unfolding size
size-stamp e now = refl

pub absent_after :
    (key : Bytes) (c : Cache) → IsValid c → lookup key (remove_locked key c).entries ≡ none
unfolding remove_locked
absent_after key c v = elim (Option-cases (lookup key c.entries)) [
  | inl absent ↦ rw (absent, remove_locked) absent
  | inr (e, here) ↦ rw (here, remove_locked) (lookup-remove_self key c.entries v.distinct)
]

pub drop_expired-IsValid :
    (now : ℕ) (visits : Entries) (c : Cache) → IsValid c → IsValid (drop_expired now visits c)
unfolding drop_expired
drop_expired-IsValid now [] c v = v
drop_expired-IsValid now ((key, e) ∷ rest) c v = elim (Bool-cases (leb c.bytes c.max_bytes)) [
  | inl fits ↦ rw fits v
  | inr over ↦ rw over (elim (Bool-cases (expired now c.ttl e)) [
    | inl old ↦
        rw old (drop_expired-IsValid now rest (remove_locked key c) (remove_locked-IsValid key c v))
    | inr fresh ↦ rw fresh (drop_expired-IsValid now rest c v)
  ])
]

pub stored-IsValid :
    (order : Entries → Entries) (now : ℕ) (key : Bytes) (e : Entry) (c : Cache)
    → IsValid c
    → IsValid (stored order now key e c)
unfolding stored total
stored-IsValid order now key e c v =
    let w = remove_locked-IsValid key c v in
    record {
      counted = omega (arith, w.counted, size-stamp e now);
      distinct = (absent_after key c v, w.distinct);
    }

drop_oldest-IsValid :
    (order : Entries → Entries) (fuel : ℕ) (c : Cache)
    → IsValid c
    → IsValid (drop_oldest order fuel c)
unfolding drop_oldest
drop_oldest-IsValid order zero c v = v
drop_oldest-IsValid order (suc fuel) c v =
    elim (Bool-cases (ltb c.max_bytes c.bytes && ltb 0 (length c.entries))) [
      | inl over ↦ rw over (drop_oldest-IsValid order fuel _ (remove_locked-IsValid _ c v))
      | inr fits ↦ rw fits v
    ]

evict_locked-IsValid :
    (order : Entries → Entries) (now : ℕ) (c : Cache)
    → IsValid c
    → IsValid (evict_locked order now c)
unfolding evict_locked
evict_locked-IsValid order now c v = elim (Bool-cases (c.max_bytes == 0)) [
  | inl off ↦ rw off v
  | inr on ↦ rw on (drop_oldest-IsValid order _ _ (drop_expired-IsValid now (order c.entries) c v))
]

-- `Put` keeps the byte count right and the keys distinct, whatever order the map is visited in.
pub put-IsValid :
    (order : Entries → Entries) (now : ℕ) (key : Bytes) (entry : Option Entry) (c : Cache)
    → IsValid c
    → IsValid (put order now key entry c)
unfolding put
put-IsValid order now key none c v = v
put-IsValid order now key (some e) c v = elim (Bool-cases (ltb c.max_body (length e.body))) [
  | inl big ↦ rw big v
  | inr fits ↦ rw fits (evict_locked-IsValid order now _ (stored-IsValid order now key e c v))
]

-- So does `Get`, which may drop an expired entry.
pub get-IsValid : (now : ℕ) (key : Bytes) (c : Cache) → IsValid c → IsValid (get now key c).1
unfolding get
get-IsValid now key c v = elim (Option-cases (lookup key c.entries)) [
  | inl absent ↦ rw (absent, get) v
  | inr (e, here) ↦
      rw (here, get)
        (elim (Bool-cases (expired now c.ttl e)) [
          | inl old ↦ rw old (remove_locked-IsValid key c v)
          | inr fresh ↦ rw fresh v
        ])
]
