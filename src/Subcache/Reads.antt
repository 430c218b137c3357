-- ===== src/Subcache/Reads.antt =====
-- What `Get` of internal/subcache returns, and that keys of different requests differ.
use remnawave_subpage_proxy.Prelude.{
  ℕ, zero, suc, ◌+◌, ◌≤◌, ◌<◌, ◌≡◌, refl, sym, ◌∙◌, inl, inr, true, false, [], ◌∷◌, ◌++◌, Option,
  none, some, arith, ltb, leb, ◌==◌, if◌then◌else◌, length, Bool-cases,
}
use remnawave_subpage_proxy.Prelude.Text.{Bytes, bytes_eq, has_byte}
use remnawave_subpage_proxy.Prelude.Text.Laws.{bytes_eq_refl}
use remnawave_subpage_proxy.Prelude.Assoc.{lookup, lookup-cons, lookup-remove_ne}
use remnawave_subpage_proxy.Subcache.{
  Entry, Entries, Cache, key_of, remove_locked, expired, get, drop_expired, drop_oldest,
  evict_locked, stored, put,
}

-- Within the budget nothing is evicted.
drop_expired_fits :
    (now : ℕ) (visits : Entries) (c : Cache)
    → leb c.bytes c.max_bytes ≡ true
    → drop_expired now visits c ≡ c
unfolding drop_expired
drop_expired_fits now [] c h = refl
drop_expired_fits now ((k, e) ∷ rest) c h = rw h

drop_oldest_fits :
    (order : Entries → Entries) (fuel : ℕ) (c : Cache)
    → leb c.bytes c.max_bytes ≡ true
    → drop_oldest order fuel c ≡ c
unfolding drop_oldest
drop_oldest_fits order zero c h = refl
drop_oldest_fits order (suc fuel) c h =
    let off : ltb c.max_bytes c.bytes ≡ false = ground arith in rw off

evict_locked_fits :
    (order : Entries → Entries) (now : ℕ) (c : Cache)
    → leb c.bytes c.max_bytes ≡ true
    → evict_locked order now c ≡ c
unfolding evict_locked
evict_locked_fits order now c h = elim (Bool-cases (c.max_bytes == 0)) [
  | inl off ↦ rw off
  | inr on ↦ rw (on, drop_expired_fits now (order c.entries) c h) (drop_oldest_fits order _ c h)
]

-- What `Get` makes of an entry that it finds.
unless_expired : ℕ → ℕ → Option Entry → Option Entry
unless_expired now ttl none = none
unless_expired now ttl (some e) = if expired now ttl e then none else some e

get-unless_expired :
    (now : ℕ) (key : Bytes) (c : Cache)
    → (get now key c).0 ≡ unless_expired now c.ttl (lookup key c.entries)
unfolding get unless_expired
get-unless_expired now key c = ground arith

lookup-remove_locked :
    (key other : Bytes) (c : Cache)
    → bytes_eq key other ≡ false
    → lookup other (remove_locked key c).entries ≡ lookup other c.entries
unfolding remove_locked
lookup-remove_locked key other c apart = ground (arith, lookup-remove_ne key other c.entries apart)

lookup-stored :
    (order : Entries → Entries) (now : ℕ) (key other : Bytes) (e : Entry) (c : Cache)
    → lookup other (stored order now key e c).entries
      ≡ (if bytes_eq key other then some (record e { stored_at = now }) else lookup other c.entries)
unfolding stored
lookup-stored order now key other e c =
    lookup-cons key other (record e { stored_at = now }) (remove_locked key c).entries
    ∙ (elim (Bool-cases (bytes_eq key other)) [
      | inl same ↦ rw same
      | inr apart ↦ rw apart (lookup-remove_locked key other c apart)
    ])

stored-max_bytes :
    (order : Entries → Entries) (now : ℕ) (key : Bytes) (e : Entry) (c : Cache)
    → ((stored order now key e c).max_bytes ≡ c.max_bytes)
      × ((stored order now key e c).ttl ≡ c.ttl)
unfolding stored remove_locked
stored-max_bytes order now key e c = ground arith

module _ (order : Entries → Entries) (now : ℕ) (key : Bytes) (e : Entry) (c : Cache)
    (small : length e.body ≤ c.max_body)
    (fits : (stored order now key e c).bytes ≤ c.max_bytes) where
  put_fits : put order now key (some e) c ≡ stored order now key e c
  unfolding put
  put_fits =
      let s = stored order now key e c in
      let (same, _) = stored-max_bytes order now key e c in
      let kept : evict_locked order now s ≡ s = evict_locked_fits order now s (ground arith) in
      ground arith

  -- An entry whose body is small enough and that fits the budget beside the others is returned, with
  -- the time of the `Put`, until it is older than the time to live.
  pub get-put_self :
      (later : ℕ)
      → later ≤ now + c.ttl
      → (get later key (put order now key (some e) c)).0 ≡ some (record e { stored_at = now })
  get-put_self later h =
      let (_, same) = stored-max_bytes order now key e c in
      rw (put_fits, get-unless_expired, lookup-stored, bytes_eq_refl, same)
        (unfold unless_expired in ground arith)

  -- Putting an entry whose body is small enough and that fits the budget beside the others evicts
  -- nothing: what is found under another key is as before.
  pub get-put_ne :
      (later : ℕ) (other : Bytes)
      → bytes_eq key other ≡ false
      → (get later other (put order now key (some e) c)).0 ≡ (get later other c).0
  get-put_ne later other apart =
      let (_, same) = stored-max_bytes order now key e c in
      rw (put_fits, get-unless_expired, lookup-stored, apart, same)
        (sym (get-unless_expired later other c))

-- Texts before a zero byte that hold none are told apart.
before_zero :
    (a b x y : Bytes)
    → has_byte 0 a ≡ false
    → has_byte 0 b ≡ false
    → a ++ 0 ∷ x ≡ b ++ 0 ∷ y
    → (a ≡ b) × (x ≡ y)
unfolding has_byte
before_zero [] [] x y ha hb h = ground arith
before_zero [] (c ∷ b) x y ha hb h = ground arith
before_zero (c ∷ a) [] x y ha hb h = ground arith
before_zero (c ∷ a) (d ∷ b) x y ha hb h = ground (arith, before_zero a b x y)

-- Requests whose short UUID, client type or user agent differ, or that accept other encodings, have
-- different keys, where the first three hold no zero byte: no response is replayed to another
-- request.
pub key_of-injective :
    (u u' t t' a a' e e' : Bytes)
    → (has_byte 0 u ≡ false) × (has_byte 0 t ≡ false) × (has_byte 0 a ≡ false)
    → (has_byte 0 u' ≡ false) × (has_byte 0 t' ≡ false) × (has_byte 0 a' ≡ false)
    → key_of u t a e ≡ key_of u' t' a' e'
    → (u ≡ u') × (t ≡ t') × (a ≡ a') × (e ≡ e')
unfolding key_of
key_of-injective u u' t t' a a' e e' (hu, ht, ha) (hu', ht', ha') h =
    let (same_u, h1) = before_zero u u' _ _ hu hu' h in
    let (same_t, h2) = before_zero t t' _ _ ht ht' h1 in
    let (same_a, same_e) = before_zero a a' _ _ ha ha' h2 in (same_u, same_t, same_a, same_e)

-- An entry older than the time to live is not returned, and is dropped.
pub get_expired :
    (now : ℕ) (key : Bytes) (e : Entry) (c : Cache)
    → lookup key c.entries ≡ some e
    → e.stored_at + c.ttl < now
    → get now key c ≡ (none, remove_locked key c)
unfolding get
get_expired now key e c here old =
    let past : expired now c.ttl e ≡ true = ground arith in rw (here, get) (ground arith)
