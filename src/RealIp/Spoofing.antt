-- ===== src/RealIp/Spoofing.antt =====
-- internal/realip: what a client writes into X-Forwarded-For itself does not count.
use remnawave_subpage_proxy.Prelude.{
  ℕ, zero, suc, ◌+◌, ◌-◌, ◌≡◌, ◌≤◌, refl, sym, ap, inl, inr, true, false, List, [], ◌∷◌, ◌++◌, some,
  ltb, length, length-append, get_elem?, is_some, arith, Bool-cases, Option-cases,
}
use remnawave_subpage_proxy.Prelude.Text.{Bytes}
use remnawave_subpage_proxy.Prelude.Text.Case.{Unicode}
use remnawave_subpage_proxy.RealIp.{
  NetIp, Resolver, nothing_in, peer_ip, forwarded_chain, last_untrusted, client_of, client_ip,
}

get_elem?-append :
    (xs ys : List Bytes) (i j : ℕ) → j ≡ length xs + i → get_elem? (xs ++ ys) j ≡ get_elem? ys i
get_elem?-append [] ys i j h = let same : j ≡ i = omega (arith, h) in ap (get_elem? ys) same
get_elem?-append (x ∷ xs) ys i zero h = absurd (omega (arith, h))
get_elem?-append (x ∷ xs) ys i (suc j) h = get_elem?-append xs ys i j (omega (arith, h))

append_assoc : (xs ys zs : List Bytes) → (xs ++ ys) ++ zs ≡ xs ++ (ys ++ zs)
append_assoc [] ys zs = refl
append_assoc (x ∷ xs) ys zs = ap (λ t. x ∷ t) (append_assoc xs ys zs)

module _ (u : Unicode) (n : NetIp) where
  forwarded_chain-append :
      (xs ys : List Bytes)
      → forwarded_chain u n (xs ++ ys) ≡ forwarded_chain u n xs ++ forwarded_chain u n ys
  unfolding forwarded_chain
  forwarded_chain-append [] ys = refl
  forwarded_chain-append (x ∷ xs) ys =
      rw (forwarded_chain-append xs ys) (sym (append_assoc _ (forwarded_chain u n xs) _))

  last_untrusted-append :
      (r : Resolver u n) (xs ys : List Bytes) (ip : Bytes)
      → last_untrusted u n r ys ≡ some ip
      → last_untrusted u n r (xs ++ ys) ≡ some ip
  unfolding last_untrusted
  last_untrusted-append r [] ys ip h = h
  last_untrusted-append r (x ∷ xs) ys ip h = rw (last_untrusted-append r xs ys ip h)

  hop-append :
      (spoofed forwarded : List Bytes) (peer : Bytes) (hops : ℕ)
      → hops ≤ length forwarded
      → get_elem?
          ((spoofed ++ forwarded) ++ peer ∷ [])
          (length ((spoofed ++ forwarded) ++ peer ∷ []) - 1 - hops)
        ≡ get_elem? (forwarded ++ peer ∷ []) (length (forwarded ++ peer ∷ []) - 1 - hops)
  hop-append spoofed forwarded peer hops h =
      let chain = forwarded ++ peer ∷ [] in
      let flat = append_assoc spoofed forwarded (peer ∷ []) in
      let size = length-append spoofed chain in
      let room = length-append forwarded (peer ∷ []) in
      rw flat (
        get_elem?-append spoofed chain (length chain - 1 - hops)
          (length (spoofed ++ chain) - 1 - hops) (omega (arith, size, room, h)))

  -- The entries that a trusted proxy has appended decide: the hops lie among them, or one of them is
  -- not trusted.
  pub record IsDecided (r : Resolver u n) (peer : Bytes) (forwarded : List Bytes) : Type 0 where
    pub checked : r.trust_all ≡ false
    pub counted : r.hops ≤ length forwarded
    pub found : r.hops ≡ 0 → is_some (last_untrusted u n r (forwarded ++ peer ∷ [])) ≡ true

  client_of-append :
      (r : Resolver u n) (peer : Bytes) (spoofed forwarded : List Bytes)
      → IsDecided r peer forwarded
      → client_of u n r peer (spoofed ++ forwarded) ≡ client_of u n r peer forwarded
  unfolding client_of
  client_of-append r peer spoofed forwarded d = elim (Bool-cases (ltb 0 r.hops)) [
    | inl some_hops ↦ rw (d.checked, some_hops, hop-append spoofed forwarded peer r.hops d.counted)
    | inr no_hops ↦
        let none_given : r.hops ≡ 0 = ground arith in
        elim (Option-cases (last_untrusted u n r (forwarded ++ peer ∷ []))) [
          | inl absent ↦ let seen = d.found none_given in cc
          | inr (ip, last) ↦ rw (
            append_assoc spoofed forwarded (peer ∷ []),
            last,
            last_untrusted-append r spoofed (forwarded ++ peer ∷ []) ip last,
            no_hops,
            d.checked,
          )
        ]
  ]

  nothing_in-append : (xs ys : List Bytes) → nothing_in ys ≡ false → nothing_in (xs ++ ys) ≡ false
  nothing_in-append [] ys h = h
  nothing_in-append (x ∷ xs) ys h = refl

  -- Where trusted proxies decide the address, by the number of hops or by an entry of theirs that is
  -- not trusted, lines of X-Forwarded-For that a client sends ahead of theirs change nothing.
  pub client_ip-spoofed :
      (r : Resolver u n) (remote : Bytes) (spoofed values : List Bytes)
      → nothing_in (forwarded_chain u n values) ≡ false
      → IsDecided r (peer_ip u n remote) (forwarded_chain u n values)
      → client_ip u n r remote (spoofed ++ values) ≡ client_ip u n r remote values
  unfolding client_ip
  client_ip-spoofed r remote spoofed values present d =
      let more =
        nothing_in-append (forwarded_chain u n spoofed) (forwarded_chain u n values) present in
      let same =
        client_of-append r (peer_ip u n remote) (forwarded_chain u n spoofed)
          (forwarded_chain u n values) d in
      rw (forwarded_chain-append spoofed values, present, more, same)
