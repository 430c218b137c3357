-- ===== src/Panel/Cache.antt =====
-- internal/panel/cache.go: the lookups of the panel, kept for a while. A time is a number of
-- nanoseconds, and the clock is an argument. A method that ranges over the map takes the order of the
-- visits as an argument. The lock makes each of these operations one step.
pub mod Laws
pub mod Lifetime
pub mod Flight
use remnawave_subpage_proxy.Prelude.{
  ℕ, ◌+◌, Bool, true, false, not, ◌||◌, List, [], ◌∷◌, Option, none, some, ltb, if◌then◌else◌,
  length,
}
use remnawave_subpage_proxy.Prelude.Int.{ℤ, pos, pos_part, ltb_ℤ}
use remnawave_subpage_proxy.Prelude.Text.{Bytes}
use remnawave_subpage_proxy.Prelude.Assoc.{lookup, remove}
use remnawave_subpage_proxy.Panel.Info.{Info}

-- What a lookup returns: an answer, `ErrNotFound`, or another error.
pub data Answer : Type 0 where
  answered : Info → Answer
  not_found : Answer
  failed : Bytes → Answer

pub record Kept : Type 0 where
  pub answer : Answer
  pub expires_at : ℕ

abbrev pub KeptEntries : Type 0
KeptEntries = List (Bytes × Kept)

pub record Cache : Type 0 where
  pub ttl : ℤ
  pub negative_ttl : ℤ
  pub max_entries : ℤ
  pub entries : KeptEntries

unfoldable pub new_cache : ℤ → ℤ → ℤ → Cache
new_cache ttl negative_ttl max_entries = record {
  ttl = ttl;
  negative_ttl = negative_ttl;
  max_entries = max_entries;
  entries = [];
}

-- The lookup of the method `lookup`, which `SubscriptionInfo` repeats under the lock.
unfoldable pub cached : ℕ → Bytes → Cache → Option Answer
cached now short_uuid c = elim (lookup short_uuid c.entries) [
  | none ↦ none
  | some e ↦ if not (ltb now e.expires_at) then none else some e.answer
]

-- The first loop of `evictIfNeededLocked`
unfoldable pub sweep : ℕ → KeptEntries → KeptEntries → KeptEntries
sweep now [] m = m
sweep now ((k, e) ∷ visits) m =
    sweep now visits (if not (ltb now e.expires_at) then remove k m else m)

-- The second loop of `evictIfNeededLocked`
unfoldable pub drop_live : ℕ → KeptEntries → KeptEntries → KeptEntries
drop_live max_entries [] m = m
drop_live max_entries ((k, e) ∷ visits) m =
    let next = drop_live max_entries visits (remove k m) in
    if ltb (length m) max_entries then m else next

-- The lifetime of an answer; other errors are not kept.
unfoldable pub lifetime : Cache → Answer → Option ℤ
lifetime c (answered _) = some c.ttl
lifetime c not_found = some c.negative_ttl
lifetime c (failed _) = none

module _ (order : KeptEntries → KeptEntries) where
  unfoldable pub evict_if_needed : ℕ → Cache → KeptEntries
  unfolding sweep drop_live
  evict_if_needed now c =
      if not (ltb_ℤ (pos 0) c.max_entries) || ltb (length c.entries) (pos_part c.max_entries)
      then c.entries
      else let swept = sweep now (order c.entries) c.entries in
        drop_live (pos_part c.max_entries) (order swept) swept

  abbrev pub keep_until : ℕ → Bytes → Answer → ℕ → Cache → Cache
  keep_until now short_uuid a expires_at c = record c {
    entries =
        (short_uuid, record { answer = a; expires_at = expires_at })
        ∷ remove short_uuid (evict_if_needed now c);
  }

  unfoldable pub store : ℕ → Bytes → Answer → Cache → Cache
  unfolding evict_if_needed
  store now short_uuid a c = elim (lifetime c a) [
    | none ↦ c
    | some ttl ↦
        if not (ltb_ℤ (pos 0) ttl) then c else keep_until now short_uuid a (now + pos_part ttl) c
  ]

unfoldable pub len : Cache → ℕ
len c = length c.entries
