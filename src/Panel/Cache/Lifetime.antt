-- ===== src/Panel/Cache/Lifetime.antt =====
-- What internal/panel/cache.go returns after an answer was stored.
use remnawave_subpage_proxy.Prelude.{
  ℕ, ◌+◌, ◌≡◌, refl, inl, inr, true, false, not, Option, none, some, if◌then◌else◌, ltb, arith,
  Bool-cases,
}
use remnawave_subpage_proxy.Prelude.Int.{ℤ, pos, negsuc, pos_part, ltb_ℤ}
use remnawave_subpage_proxy.Prelude.Text.{Bytes}
use remnawave_subpage_proxy.Prelude.Text.Laws.{bytes_eq_refl}
use remnawave_subpage_proxy.Prelude.Assoc.{lookup}
use remnawave_subpage_proxy.Panel.Info.{Info}
use remnawave_subpage_proxy.Panel.Cache.{
  Answer, answered, not_found, failed, KeptEntries, Cache, cached, lifetime, keep_until, store,
}
use remnawave_subpage_proxy.Panel.Cache.Laws.{positive}

-- What a lookup returns at a time after an answer was kept for a while, or else without it.
abbrev pub after_store : ℕ → ℕ → ℤ → Answer → Option Answer → Option Answer
after_store now later ttl a before =
    if ltb 0 (pos_part ttl)
    then (if ltb later (now + pos_part ttl) then some a else none)
    else before

module _ (order : KeptEntries → KeptEntries) (now : ℕ) (c : Cache) (short_uuid : Bytes) where
  cached-keep_until :
      (a : Answer) (t later : ℕ)
      → cached later short_uuid (keep_until order now short_uuid a t c)
        ≡ (if ltb later t then some a else none)
  unfolding cached lookup
  cached-keep_until a t later = rw (cached, lookup, bytes_eq_refl short_uuid) (ground arith)

  store_off :
      (a : Answer) (ttl : ℤ)
      → lifetime c a ≡ some ttl
      → ltb 0 (pos_part ttl) ≡ false
      → store order now short_uuid a c ≡ c
  unfolding store
  store_off a ttl kept off =
      let gate : not (ltb_ℤ (pos 0) ttl) ≡ true = gate_off ttl off in rw (store, kept, gate) refl
    where
      gate_off : (n : ℤ) → ltb 0 (pos_part n) ≡ false → not (ltb_ℤ (pos 0) n) ≡ true
      gate_off (pos n) h = ground arith
      gate_off (negsuc n) h = ground arith

  store_on :
      (a : Answer) (ttl : ℤ)
      → lifetime c a ≡ some ttl
      → ltb 0 (pos_part ttl) ≡ true
      → store order now short_uuid a c ≡ keep_until order now short_uuid a (now + pos_part ttl) c
  unfolding store
  store_on a ttl kept on =
      let gate : ltb_ℤ (pos 0) ttl ≡ true = positive ttl (ground arith) in
      rw (store, kept, gate) refl

  cached-store_for :
      (a : Answer) (ttl : ℤ) (later : ℕ)
      → lifetime c a ≡ some ttl
      → cached later short_uuid (store order now short_uuid a c)
        ≡ after_store now later ttl a (cached later short_uuid c)
  cached-store_for a ttl later kept = elim (Bool-cases (ltb 0 (pos_part ttl))) [
    | inr off ↦ rw (off, store_off a ttl kept off) refl
    | inl on ↦ rw (on, store_on a ttl kept on) (cached-keep_until a (now + pos_part ttl) later)
  ]

  -- Right after an answer was stored, a lookup returns a subscription that was found until `ttl` has
  -- passed, and the answer that there is none until `negativeTTL` has passed, and from then on nothing,
  -- where that lifetime is positive; otherwise it returns what it did before. Another error is never
  -- stored.
  pub cached-store_self :
      (later : ℕ) (info : Info) (e : Bytes)
      → (cached later short_uuid (store order now short_uuid (answered info) c)
          ≡ after_store now later c.ttl (answered info) (cached later short_uuid c))
        × (cached later short_uuid (store order now short_uuid not_found c)
            ≡ after_store now later c.negative_ttl not_found (cached later short_uuid c))
        × (store order now short_uuid (failed e) c ≡ c)
  unfolding store lifetime
  cached-store_self later info e = (
    cached-store_for (answered info) c.ttl later refl,
    cached-store_for not_found c.negative_ttl later refl,
    refl,
  )
