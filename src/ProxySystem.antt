-- ===== src/ProxySystem.antt =====
-- The program in proxy mode as a whole: the two loops that startDHCPProxy of
-- proxybatcher/proxy_handler.go starts over one handler (ListenAndServeIf of
-- proxybatcher/proxy_server.go), the timer of proxybatcher/proxy_lease.go and the scheduler of
-- proxybatcher/batch_scheduler.go, in any interleaving. The loops share the handler's map without a lock;
-- a round of Serve is one step here.
pub mod Grants
pub mod Leases
pub mod Asked
pub mod Ending
pub mod Stop
use mathlib.Core.List.{Permᴰ}
use dhcp_batcher.Common.{
  ℕ, Bytes, Bool, true, false, Option, none, some, List, [], ◌∷◌, ◌++◌, ◌≡◌, ◌⊎◌, ◌>>=◌,
  if◌then◌else◌,
}
use dhcp_batcher.Dhcp.{Dhcp}
use dhcp_batcher.Net.{IpText}
use dhcp_batcher.Options.{ProxyConfig, ProgramConfig}
use dhcp_batcher.Lease.{Lease, trim}
use dhcp_batcher.Proxy.{Handler, Env}
use dhcp_batcher.Proxy.Start.{ProxyState, start_dhcp_proxy}
use dhcp_batcher.Batch.{Assignment, RecordTable, Scheduler, init_table, proxy_cycle}
use dhcp_batcher.Server.{ServeIfConn, Datagram, Write, serve}

-- What the network packages do: the index of an interface, and whether a socket for a port can be
-- opened and its control messages switched on. none and false are errors.
pub record Network : Type 0 where
  pub interface_index : Bytes → Option ℕ
  pub listen_packet : ℕ → Bool
  pub set_control_message : ℕ → Bool

-- ServeIf and ListenAndServeIf up to Serve: the connection that Serve reads, or none for an error.
unfoldable pub serve_if : Network → ℕ → ℕ → ℕ → Option ServeIfConn
serve_if net if_index other_index port =
    if net.set_control_message port
    then some (record { if_index = if_index; other_index = other_index })
    else none

unfoldable pub listen_and_serve_if : Network → Bytes → Bytes → ℕ → Option ServeIfConn
listen_and_serve_if net interface_name other_name port = do
  if_index ← net.interface_index interface_name
  other_index ← net.interface_index other_name
  if net.listen_packet port then serve_if net if_index other_index port else none

-- The two goroutines of startDHCPProxy.
unfoldable pub proxy_listeners : Network → ProxyConfig → List ServeIfConn
proxy_listeners net proxy =
    let opened : Option ServeIfConn → List ServeIfConn =
      λ c. elim c [ none ↦ [] | some conn ↦ conn ∷ [] ] in
    opened (listen_and_serve_if net proxy.upstream_interface proxy.downstream_interface 67)
    ++ opened (listen_and_serve_if net proxy.downstream_interface proxy.upstream_interface 68)

-- The handler, the scheduler's table, and the batches that were handed to sendBatch.
pub record ProxySystem : Type 0 where
  pub handler : Handler
  pub table : RecordTable
  pub dispatched : List (List Assignment)

abbrev pub IsOneOf : ServeIfConn → List ServeIfConn → Type 0
IsOneOf x [] = ⊥
IsOneOf x (y ∷ ys) = (x ≡ y) ⊎ IsOneOf x ys

-- The scheduler as a tick sees it: the lease table is the handler's.
abbrev pub scheduler_of : ProxySystem → Scheduler
scheduler_of s = record { table = s.table; leases = s.handler.leases; dispatched = s.dispatched }

module _ (d : Dhcp) (ip : IpText) (net : Network) (options : ProgramConfig) where
  abbrev pub started : ProxyState
  started = start_dhcp_proxy ip options.proxy

  abbrev pub env : ℕ → Bytes → Env
  env now beyond = record {
    proxy_server_ip = started.proxy_server_ip;
    ip_string = ip.ip_string;
    now = now;
    beyond = beyond;
  }

  -- The states after the datagrams of a past, the last first: one of the loops takes a datagram
  -- without a panic, the timer makes a round, or the scheduler ticks, with any order of its loop.
  pub data ProxyReach : List (Datagram d) → ProxySystem → Type 0 where
    boot_proxy :
        ProxyReach []
          (record { handler = started.handler; table = init_table options; dispatched = [] })
    receive :
        {past : List (Datagram d)} {s : ProxySystem}
        → ProxyReach past s
        → (conn : ServeIfConn) → IsOneOf conn (proxy_listeners net options.proxy)
        → (now : ℕ) (beyond : Bytes) (order : List (ℕ × Bytes)) (g : Datagram d)
        → Permᴰ (d.parse_options g.packet) order
        → {h : Handler} {ws : List (Write d)}
        → serve d conn (env now beyond) started.dhcp_servers order g s.handler ≡ some (h, ws)
        → ProxyReach (g ∷ past) (record s { handler = h })
    age :
        {past : List (Datagram d)} {s : ProxySystem}
        → ProxyReach past s
        → ProxyReach past
            (record s { handler = record s.handler { leases = trim s.handler.leases } })
    send :
        {past : List (Datagram d)} {s : ProxySystem}
        → ProxyReach past s
        → (order : List (Bytes × Lease)) → Permᴰ s.handler.leases order
        → ProxyReach past (record s {
          table = (proxy_cycle order (scheduler_of s)).table;
          dispatched = (proxy_cycle order (scheduler_of s)).dispatched;
        })
