-- ===== src/Tests/RealIp.antt =====
-- The address of a client behind one trusted proxy.
use remnawave_subpage_proxy.Prelude.{◌≡◌, refl, false, List, [], ◌∷◌, ◌++◌, arith}
use remnawave_subpage_proxy.Prelude.Text.{Bytes, codes, bytes_eq, split, trim_space}
use remnawave_subpage_proxy.Prelude.Text.Case.{to_lower}
use remnawave_subpage_proxy.Prelude.Text.Decimal.{parse_int}
use remnawave_subpage_proxy.RealIp.{
  Resolver, nothing_in, normalize, peer_ip, addresses, forwarded_chain, trusted, last_untrusted,
  client_of, client_ip, parse, made, preset, entry_nets, preset_nets, parse_entries,
}
use remnawave_subpage_proxy.RealIp.Spoofing.{IsDecided, client_ip-spoofed}
use remnawave_subpage_proxy.Tests.Data.{plain_case, texts}

program : Unit {0}
unfolding split trim_space bytes_eq normalize peer_ip addresses forwarded_chain trusted
    last_untrusted client_of client_ip parse preset entry_nets preset_nets parse_entries to_lower
    parse_int
program = tt

abbrev behind_one : Resolver plain_case texts
behind_one = record { trust_all = false; hops = 0; nets = codes "10.0.0.1" ∷ [] }

parsed : parse plain_case texts (codes " 10.0.0.1, ") ≡ made behind_one
unfolding program
parsed = refl

abbrev one_hop : Resolver plain_case texts
one_hop = record { trust_all = false; hops = 1; nets = [] }

hop_parsed : parse plain_case texts (codes "1") ≡ made one_hop
unfolding program
hop_parsed = refl

abbrev from_proxy : List Bytes
from_proxy = codes "8.8.8.8" ∷ []

seen : nothing_in (forwarded_chain plain_case texts from_proxy) ≡ false
unfolding program
seen = refl

decided :
    IsDecided plain_case texts behind_one
      (peer_ip plain_case texts (codes "10.0.0.1"))
      (forwarded_chain plain_case texts from_proxy)
unfolding program
decided = record { checked = refl; counted = omega arith; found = λ e. refl }

client_ip-spoofed_example :
    client_ip plain_case texts behind_one
      (codes "10.0.0.1")
      ((codes "1.2.3.4, x" ∷ []) ++ from_proxy)
    ≡ client_ip plain_case texts behind_one (codes "10.0.0.1") from_proxy
client_ip-spoofed_example =
    client_ip-spoofed plain_case texts behind_one (codes "10.0.0.1") (codes "1.2.3.4, x" ∷ [])
      from_proxy seen decided

found_client : client_ip plain_case texts behind_one (codes "10.0.0.1") from_proxy ≡ codes "8.8.8.8"
unfolding program
found_client = refl
