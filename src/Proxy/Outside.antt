-- ===== src/Proxy/Outside.antt =====
-- What internal/proxy uses of other packages than the repository's own.
use remnawave_subpage_proxy.Prelude.{ℕ}
use remnawave_subpage_proxy.Prelude.Text.{Bytes}
use remnawave_subpage_proxy.Hosts.Apply.{Readers}
use remnawave_subpage_proxy.Hosts.Placeholder.{Writers}
use remnawave_subpage_proxy.RealIp.{NetIp}
use remnawave_subpage_proxy.Rewrite.Header.{Header}
use remnawave_subpage_proxy.Subcache.{Entries}
use remnawave_subpage_proxy.Subinfo.Floats.{Platform}

-- `itoa` is `strconv.Itoa`, `order` the order in which the headers of
-- a response are visited, and `order_entries` the one of the entries of the cache.
pub record Outside : Type 1 where
  pub readers : Readers
  pub writers : Writers
  pub platform : Platform
  pub net : NetIp
  pub itoa : ℕ → Bytes
  pub order : Header → Header
  pub order_entries : Entries → Entries
