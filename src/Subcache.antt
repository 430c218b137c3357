-- ===== src/Subcache.antt =====
-- The package internal/subcache: the last good response of each subscription, replayed while the
-- upstream fails. A time is a number of nanoseconds. The lock makes each method one step. A method
-- that ranges over the map takes the order of the visits as an argument.
pub mod Accounting
pub mod Budget
pub mod Reads
use remnawave_subpage_proxy.Prelude.{
  ℕ, zero, suc, ◌+◌, ◌-◌, Bool, true, false, ◌&&◌, ◌||◌, List, [], ◌∷◌, ◌++◌, Option, none, some,
  ltb, leb, ◌==◌, if◌then◌else◌, length, is_some,
}
use remnawave_subpage_proxy.Prelude.Text.{Bytes, is_empty}
use remnawave_subpage_proxy.Prelude.Assoc.{lookup, remove}

abbrev pub Header : Type 0
Header = List (Bytes × List Bytes)

pub record Entry : Type 0 where
  pub status : ℕ
  pub header : Header
  pub body : Bytes
  pub stored_at : ℕ

abbrev pub Entries : Type 0
Entries = List (Bytes × Entry)

-- The loops of `size`.
unfoldable pub size_values : List Bytes → ℕ
size_values [] = 0
size_values (v ∷ vs) = length v + size_values vs

unfoldable pub size_header : Header → ℕ
size_header [] = 0
size_header ((key, values) ∷ h) = length key + size_values values + size_header h

unfoldable pub size : Entry → ℕ
size e = length e.body + size_header e.header

pub record Cache : Type 0 where
  pub ttl : ℕ
  pub max_bytes : ℕ
  pub max_body : ℕ
  pub entries : Entries
  pub bytes : ℕ

unfoldable pub new : ℕ → ℕ → ℕ → Cache
new ttl max_bytes max_body = record {
  ttl = ttl;
  max_bytes = max_bytes;
  max_body = max_body;
  entries = [];
  bytes = 0;
}

unfoldable pub key_of : Bytes → Bytes → Bytes → Bytes → Bytes
key_of short_uuid client_type user_agent accept_encoding =
    short_uuid ++ 0 ∷ (client_type ++ 0 ∷ (user_agent ++ 0 ∷ accept_encoding))

unfoldable pub remove_locked : Bytes → Cache → Cache
remove_locked key c = elim (lookup key c.entries) [
  | none ↦ c
  | some existing ↦ record c { entries = remove key c.entries; bytes = c.bytes - size existing }
]

-- `now.Sub(entry.StoredAt) > c.ttl`
abbrev pub expired : ℕ → ℕ → Entry → Bool
expired now ttl e = ltb (e.stored_at + ttl) now

unfoldable pub get : ℕ → Bytes → Cache → Option Entry × Cache
get now key c = elim (lookup key c.entries) [
  | none ↦ (none, c)
  | some entry ↦ if expired now c.ttl entry then (none, remove_locked key c) else (some entry, c)
]

-- The first loop of `evictLocked`, which returns as soon as the cache is within the budget; the
-- second loop then does nothing.
unfoldable pub drop_expired : ℕ → Entries → Cache → Cache
drop_expired now [] c = c
drop_expired now ((key, entry) ∷ rest) c =
    if leb c.bytes c.max_bytes
    then c
    else drop_expired now rest (if expired now c.ttl entry then remove_locked key c else c)

-- The search for the oldest entry: the key so far is empty at the start.
unfoldable pub oldest_from : Bytes → ℕ → Entries → Bytes
oldest_from oldest_key oldest [] = oldest_key
oldest_from oldest_key oldest ((key, entry) ∷ rest) =
    let older = is_empty oldest_key || ltb entry.stored_at oldest in
    oldest_from (if older then key else oldest_key) (if older then entry.stored_at else oldest) rest

module _ (order : Entries → Entries) where
  -- The second loop of `evictLocked`. The fuel bounds the rounds: one for each entry.
  unfoldable pub drop_oldest : ℕ → Cache → Cache
  unfolding oldest_from
  drop_oldest zero c = c
  drop_oldest (suc fuel) c =
      let next = drop_oldest fuel (remove_locked (oldest_from [] 0 (order c.entries)) c) in
      if ltb c.max_bytes c.bytes && ltb 0 (length c.entries) then next else c

  unfoldable pub evict_locked : ℕ → Cache → Cache
  evict_locked now c =
      if c.max_bytes == 0
      then c
      else let swept = drop_expired now (order c.entries) c in
        drop_oldest (length swept.entries) swept

  unfoldable pub stored : ℕ → Bytes → Entry → Cache → Cache
  stored now key entry c =
      let removed = remove_locked key c in
      record removed {
        entries = (key, record entry { stored_at = now }) ∷ removed.entries;
        bytes = removed.bytes + size entry;
      }

  -- A nil entry is `none`.
  unfoldable pub put : ℕ → Bytes → Option Entry → Cache → Cache
  put now key none c = c
  put now key (some entry) c =
      if ltb c.max_body (length entry.body) then c else evict_locked now (stored now key entry c)

unfoldable pub stats : Cache → ℕ × ℕ
stats c = (length c.entries, c.bytes)
