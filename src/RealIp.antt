-- ===== src/RealIp.antt =====
-- The package internal/realip: the address of a client behind proxies that are trusted. Go's packages
-- net and net/netip are a parameter.
pub mod Spoofing
use remnawave_subpage_proxy.Prelude.{
  ℕ, ◌-◌, Bool, true, false, not, ◌&&◌, ◌||◌, List, [], ◌∷◌, ◌++◌, Option, none, some, ◌==◌, ltb,
  if◌then◌else◌, length, map, any, get_elem?,
}
use remnawave_subpage_proxy.Prelude.Int.{ℤ, pos_part, is_neg}
use remnawave_subpage_proxy.Prelude.Text.{Bytes, codes, bytes_eq, is_empty, split, trim_space}
use remnawave_subpage_proxy.Prelude.Text.Case.{Unicode, to_lower}
use remnawave_subpage_proxy.Prelude.Text.Decimal.{parse_int}

-- `plain_text a` is `a.Unmap().WithZone("").String()`, `prefix_of a` is
-- `netip.PrefixFrom(a, a.BitLen())`, and `host_of` is the host of `net.SplitHostPort`.
pub record NetIp : Type 1 where
  pub Addr : Type 0
  pub Prefix : Type 0
  pub parse_addr : Bytes → Option Addr
  pub parse_prefix : Bytes → Option Prefix
  pub prefix_of : Addr → Prefix
  pub unmap : Addr → Addr
  pub holds : Prefix → Addr → Bool
  pub plain_text : Addr → Bytes
  pub host_of : Bytes → Option Bytes

abbrev pub loopback : List Bytes
loopback = codes "127.0.0.0/8" ∷ codes "::1/128" ∷ []

abbrev pub link_local : List Bytes
link_local = codes "169.254.0.0/16" ∷ codes "fe80::/10" ∷ []

abbrev pub unique_local : List Bytes
unique_local =
    codes "10.0.0.0/8" ∷ codes "172.16.0.0/12" ∷ codes "192.168.0.0/16" ∷ codes "fc00::/7" ∷ []

-- The table of presets.
unfoldable pub preset : Bytes → Option (List Bytes)
preset name =
    if bytes_eq name (codes "loopback")
    then some loopback
    else if bytes_eq name (codes "linklocal")
    then some link_local
    else if bytes_eq name (codes "uniquelocal")
    then some unique_local
    else none

abbrev pub or_text : Bytes → Option Bytes → Bytes
or_text s none = s
or_text s (some t) = t

abbrev pub nothing_in : {A : Type 0} → List A → Bool
nothing_in [] = true
nothing_in (_ ∷ _) = false

abbrev pub first_or : Bytes → List Bytes → Bytes
first_or s [] = s
first_or s (t ∷ _) = t

module _ (u : Unicode) (n : NetIp) where
  pub record Resolver : Type 0 where
    pub trust_all : Bool
    pub hops : ℕ
    pub nets : List n.Prefix

  -- What `Parse` returns: the resolver, or the text that its error names.
  pub data Parsed : Type 0 where
    made : Resolver → Parsed
    bad_hops : ℤ → Parsed
    bad_entry : Bytes → Parsed
    no_networks : Parsed

  abbrev pub trusting : Bool → ℕ → List n.Prefix → Resolver
  trusting all hops nets = record { trust_all = all; hops = hops; nets = nets }

  -- The networks of a preset; `MustParsePrefix` reads every one of them.
  abbrev pub onto_nets : Option n.Prefix → List n.Prefix → List n.Prefix
  onto_nets none nets = nets
  onto_nets (some q) nets = q ∷ nets

  unfoldable pub preset_nets : List Bytes → List n.Prefix
  preset_nets [] = []
  preset_nets (cidr ∷ cidrs) = onto_nets (n.parse_prefix cidr) (preset_nets cidrs)

  -- The networks of one entry that is not blank; an entry that is nothing known is `none`.
  unfoldable pub entry_nets : Bytes → Option (List n.Prefix)
  unfolding preset preset_nets
  entry_nets token = elim (preset (to_lower u token)) [
    | some cidrs ↦ some (preset_nets cidrs)
    | none ↦ elim (n.parse_prefix token) [
      | some q ↦ some (q ∷ [])
      | none ↦ elim (n.parse_addr token) [ some a ↦ some (n.prefix_of a ∷ []) | none ↦ none ]
    ]
  ]

  -- The loop of `Parse`, over the networks so far.
  unfoldable pub parse_entries : List Bytes → List n.Prefix → Parsed
  unfolding entry_nets
  parse_entries [] nets = if nothing_in nets then no_networks else made (trusting false 0 nets)
  parse_entries (part ∷ parts) nets =
      let token = trim_space part in
      let skipped = parse_entries parts nets in
      if is_empty token then skipped else elim (entry_nets token) [
        | none ↦ bad_entry token
        | some more ↦ parse_entries parts (nets ++ more)
      ]

  unfoldable pub parse : Bytes → Parsed
  unfolding parse_entries
  parse spec =
      let trimmed = trim_space spec in
      if is_empty trimmed
      then made (trusting false 0 [])
      else if bytes_eq (to_lower u trimmed) (codes "true")
      then made (trusting true 0 [])
      else if bytes_eq (to_lower u trimmed) (codes "false")
      then made (trusting false 0 [])
      else elim (parse_int trimmed) [
        | some hops ↦
            if is_neg hops then bad_hops hops else made (trusting false (pos_part hops) [])
        | none ↦ parse_entries (split b',' trimmed) []
      ]

  unfoldable pub normalize : Bytes → Bytes
  normalize raw =
      let trimmed = trim_space raw in
      if is_empty trimmed
      then []
      else elim (n.parse_addr trimmed) [ none ↦ trimmed | some a ↦ n.plain_text a ]

  unfoldable pub peer_ip : Bytes → Bytes
  peer_ip remote = normalize (or_text remote (n.host_of remote))

  -- The inner loop of `forwardedChain`
  unfoldable pub addresses : List Bytes → List Bytes
  addresses [] = []
  addresses (part ∷ parts) =
      let ip = normalize (trim_space part) in
      let rest = addresses parts in if is_empty ip then rest else ip ∷ rest

  -- The loop over the values of X-Forwarded-For.
  unfoldable pub forwarded_chain : List Bytes → List Bytes
  forwarded_chain [] = []
  forwarded_chain (value ∷ values) = addresses (split b',' value) ++ forwarded_chain values

  unfoldable pub trusted : Resolver → Bytes → Bool
  trusted r ip = elim (n.parse_addr ip) [
    | none ↦ false
    | some a ↦ any (λ q. n.holds q (n.unmap a)) r.nets
  ]

  -- The last entry of a chain that is not trusted.
  unfoldable pub last_untrusted : Resolver → List Bytes → Option Bytes
  last_untrusted r [] = none
  last_untrusted r (ip ∷ ips) = elim (last_untrusted r ips) [
    | some found ↦ some found
    | none ↦ if trusted r ip then none else some ip
  ]

  -- The switch of `ClientIP`. An index below 0 becomes 0, where the subtraction of ℕ stops.
  unfoldable pub client_of : Resolver → Bytes → List Bytes → Bytes
  client_of r peer forwarded =
      let chain = forwarded ++ peer ∷ [] in
      if r.trust_all
      then first_or peer forwarded
      else if ltb 0 r.hops
      then or_text peer (get_elem? chain (length chain - 1 - r.hops))
      else if not (nothing_in r.nets)
      then or_text (first_or peer chain) (last_untrusted r chain)
      else peer

  -- `ClientIP`, of the socket's address and the values of X-Forwarded-For.
  unfoldable pub client_ip : Resolver → Bytes → List Bytes → Bytes
  unfolding client_of
  client_ip r remote values =
      let peer = peer_ip remote in
      if not r.trust_all && r.hops == 0 && nothing_in r.nets
      then peer
      else if nothing_in (forwarded_chain values)
      then peer
      else client_of r peer (forwarded_chain values)
