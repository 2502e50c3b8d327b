-- ===== src/Proxy/Start.antt =====
-- proxybatcher/proxy_handler.go, startDHCPProxy: the state that the proxy starts with. Its
-- goroutines are in ProxySystem; the stop signal is not modelled.
use dhcp_batcher.Common.{Bytes, true, some, List, [], ◌∷◌, ◌≡◌, ◌≢◌, refl, arith, All, get_or}
use dhcp_batcher.Net.{IpText}
use dhcp_batcher.Options.{ProxyConfig}
use dhcp_batcher.Options.Check.{System}
use dhcp_batcher.Options.Check.Passes.{ProxyOk}
use dhcp_batcher.Lease.{init}
use dhcp_batcher.Lease.Table.{IsLeaseTable, init-IsLeaseTable}
use dhcp_batcher.Dhcp.{Dhcp}
use dhcp_batcher.Proxy.{Handler}
use dhcp_batcher.Proxy.Trace.{Trace, start}

-- dhcpServers, proxyServerIP and the handler; a nil address is [].
pub record ProxyState : Type 0 where
  pub dhcp_servers : List Bytes
  pub proxy_server_ip : Bytes
  pub handler : Handler

-- The loop over the configured servers, from an empty list of servers.
unfoldable pub parse_servers : IpText → List Bytes → List Bytes
parse_servers ip [] = []
parse_servers ip (s ∷ servers) = get_or (ip.parse_ip s) [] ∷ parse_servers ip servers

unfoldable pub start_dhcp_proxy : IpText → ProxyConfig → ProxyState
start_dhcp_proxy ip proxy = record {
  dhcp_servers = parse_servers ip proxy.upstream_server_ips;
  proxy_server_ip = get_or (ip.parse_ip proxy.proxy_server_ip) [];
  handler = record { m = []; leases = init };
}

-- Two lists of texts and of the addresses that they parse to.
abbrev pub AllParsed : IpText → List Bytes → List Bytes → Type 0
AllParsed ip [] [] = Unit
AllParsed ip (s ∷ texts) (v ∷ ips) = (ip.parse_ip s ≡ some v) × AllParsed ip texts ips
AllParsed ip texts ips = ⊥

parse_servers-ne-nil :
    (ip : IpText) (servers : List Bytes) → servers ≢ [] → parse_servers ip servers ≢ []
unfolding parse_servers
parse_servers-ne-nil ip [] h e = h e
parse_servers-ne-nil ip (s ∷ servers) h e = ground arith

module _ (sys : System) (ip : IpText)
    (parses : (s : Bytes) → sys.is_ip s ≡ true → (v : Bytes) × (ip.parse_ip s ≡ some v)) where
  parse_servers-AllParsed :
      (servers : List Bytes)
      → All (λ s. sys.is_ip s ≡ true) servers
      → AllParsed ip servers (parse_servers ip servers)
  unfolding parse_servers
  parse_servers-AllParsed [] h = tt
  parse_servers-AllParsed (s ∷ servers) (here, later) =
      let (v, e) = parses s here in (rw e refl, parse_servers-AllParsed servers later)

  -- If every text that the checks take for an address parses, a configuration that meets the
  -- proxy's requirements makes startDHCPProxy start with the parsed addresses of all servers, at
  -- least one, the parsed address of the proxy, no transaction, and a well-formed lease table.
  pub start_dhcp_proxy-ProxyOk :
      (d : Dhcp) (proxy : ProxyConfig)
      → ProxyOk sys proxy
      → AllParsed ip proxy.upstream_server_ips (start_dhcp_proxy ip proxy).dhcp_servers
        × ((start_dhcp_proxy ip proxy).dhcp_servers ≢ [])
        × (ip.parse_ip proxy.proxy_server_ip ≡ some (start_dhcp_proxy ip proxy).proxy_server_ip)
        × Trace d [] (start_dhcp_proxy ip proxy).handler
        × IsLeaseTable (start_dhcp_proxy ip proxy).handler.leases
  unfolding start_dhcp_proxy
  start_dhcp_proxy-ProxyOk d proxy ok =
      let (v, e) = parses proxy.proxy_server_ip ok.ip in
      let parsed = parse_servers-AllParsed proxy.upstream_server_ips ok.servers in
      (
        parsed,
        parse_servers-ne-nil ip proxy.upstream_server_ips ok.some_server,
        rw e refl,
        start init,
        init-IsLeaseTable,
      )
