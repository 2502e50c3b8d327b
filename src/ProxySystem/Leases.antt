-- ===== src/ProxySystem/Leases.antt =====
-- The lease table over the whole of the proxy mode.
use mathlib.Core.Path.{subst}
use dhcp_batcher.Common.{ℕ, ◌<◌, Bytes, List, inl, inr, sym, All}
use dhcp_batcher.Dhcp.{Dhcp}
use dhcp_batcher.Net.{IpText}
use dhcp_batcher.Options.{ProgramConfig}
use dhcp_batcher.Lease.{option}
use dhcp_batcher.Lease.Table.{IsLeaseTable, init-IsLeaseTable, insert_lease-IsLeaseTable}
use dhcp_batcher.Lease.Trim.{trim-IsLeaseTable}
use dhcp_batcher.Proxy.{Handler, option_ip_address_lease_time}
use dhcp_batcher.Proxy.Ack.{uint32-lt}
use dhcp_batcher.Proxy.Start.{start_dhcp_proxy}
use dhcp_batcher.Server.{Datagram}
use dhcp_batcher.ProxySystem.{
  Network, ProxySystem, ProxyReach, boot_proxy, receive, age, send, env, started,
}
use dhcp_batcher.ProxySystem.Grants.{serve_dhcp-leases, Handled, serve-Handled}

module _ (d : Dhcp) (ip : IpText) (net : Network) (options : ProgramConfig) where
  open d use {Packet, view, parse_options}

  -- The lease time of a datagram consists of bytes.
  abbrev pub HasBytes : Datagram d → Type 0
  HasBytes g = All (λ b. b < 256) (option option_ip_address_lease_time (parse_options g.packet))

  Handled-IsLeaseTable :
      (now : ℕ) (beyond : Bytes) (g : Datagram d) (h h' : Handler)
      → HasBytes g
      → Handled d (env d ip net options now beyond) g h h'
      → IsLeaseTable h.leases
      → IsLeaseTable h'.leases
  Handled-IsLeaseTable now beyond g h h' small r ok =
      elim (serve_dhcp-leases d (env d ip net options now beyond) r.order g.packet r.type
        (parse_options g.packet) h r.run) [
          | inl same ↦ subst IsLeaseTable (sym same) ok
          | inr grant ↦ subst IsLeaseTable (sym grant.leases) (
              insert_lease-IsLeaseTable now _ _ grant.secs (parse_options g.packet) grant.ids
                h.leases
                (uint32-lt (option option_ip_address_lease_time (parse_options g.packet)) small
                  grant.time)
                ok)
        ]

  -- If the lease times of all datagrams consist of bytes, the lease table of the proxy mode is well
  -- formed at all times, whatever the order of datagrams, rounds of the timer and ticks.
  pub ProxyReach-IsLeaseTable :
      {past : List (Datagram d)} {s : ProxySystem}
      → ProxyReach d ip net options past s
      → All HasBytes past
      → IsLeaseTable s.handler.leases
  unfolding start_dhcp_proxy
  ProxyReach-IsLeaseTable boot_proxy small = init-IsLeaseTable
  ProxyReach-IsLeaseTable (receive {past} {s} r conn of now beyond order g visited {h} e)
        (here, later) =
      let ok = ProxyReach-IsLeaseTable r later in
      elim (serve-Handled d (env d ip net options now beyond) conn
        (started d ip net options).dhcp_servers order g s.handler e) [
          | inl same ↦ subst (λ k. IsLeaseTable k.leases) (sym same) ok
          | inr handled ↦ Handled-IsLeaseTable now beyond g s.handler h here handled ok
        ]
  ProxyReach-IsLeaseTable (age {past} {s} r) small =
      trim-IsLeaseTable s.handler.leases (ProxyReach-IsLeaseTable r small)
  ProxyReach-IsLeaseTable (send r order visited) small = ProxyReach-IsLeaseTable r small
