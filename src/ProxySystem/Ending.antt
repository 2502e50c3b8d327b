-- ===== src/ProxySystem/Ending.antt =====
-- How the proxy mode ends: the tail of startDHCPProxy of proxybatcher/proxy_handler.go. Its stop signal
-- goes to a channel from which both RunBatchScheduler and trim receive.
use mathlib.Core.List.{Permᴰ}
use dhcp_batcher.Common.{ℕ, Bytes, some, List, [], ◌∷◌, ◌≡◌}
use dhcp_batcher.Dhcp.{Dhcp}
use dhcp_batcher.Net.{IpText}
use dhcp_batcher.Options.{ProgramConfig}
use dhcp_batcher.Lease.{Lease, trim}
use dhcp_batcher.Proxy.{Handler}
use dhcp_batcher.Batch.{init_table, proxy_cycle}
use dhcp_batcher.Server.{ServeIfConn, Datagram, Write, serve}
use dhcp_batcher.ProxySystem.{
  Network, ProxySystem, ProxyReach, boot_proxy, receive, age, send, env, started, proxy_listeners,
  IsOneOf, scheduler_of,
}

-- Who has received the stop signal.
pub data Receiver : Type 0 where
  scheduler : Receiver
  timer : Receiver

-- Where startDHCPProxy stands: at `<-stop`, at `ctl <- true`, or past it, at the return of main.
pub data ProxyPhase : Type 0 where
  waiting : ProxyPhase
  signalling : ProxyPhase
  returning : Receiver → ProxyPhase

-- The loops that go on: a loop returns when it has received the signal, and one signal is sent.
abbrev pub IsTiming : ProxyPhase → Type 0
IsTiming (returning timer) = ⊥
IsTiming p = Unit

abbrev pub IsScheduling : ProxyPhase → Type 0
IsScheduling (returning scheduler) = ⊥
IsScheduling p = Unit

module _ (d : Dhcp) (ip : IpText) (net : Network) (options : ProgramConfig) where
  -- What a state of the proxy mode, with the phase of its main goroutine, can become.
  pub data ProxyFollows (p₀ : ProxyPhase) (past₀ : List (Datagram d)) (s₀ : ProxySystem)
      : ProxyPhase → List (Datagram d) → ProxySystem → Type 0 where
    begin : ProxyFollows p₀ past₀ s₀ p₀ past₀ s₀
    take :
        {p : ProxyPhase} {past : List (Datagram d)} {s : ProxySystem}
        → ProxyFollows p₀ past₀ s₀ p past s
        → (conn : ServeIfConn) → IsOneOf conn (proxy_listeners net options.proxy)
        → (now : ℕ) (beyond : Bytes) (order : List (ℕ × Bytes)) (g : Datagram d)
        → Permᴰ (d.parse_options g.packet) order
        → {h : Handler} {ws : List (Write d)}
        → serve d conn
            (env d ip net options now beyond)
            (started d ip net options).dhcp_servers
            order
            g
            s.handler
          ≡ some (h, ws)
        → ProxyFollows p₀ past₀ s₀ p (g ∷ past) (record s { handler = h })
    trimmed :
        {p : ProxyPhase} {past : List (Datagram d)} {s : ProxySystem}
        → ProxyFollows p₀ past₀ s₀ p past s
        → IsTiming p
        → ProxyFollows p₀ past₀ s₀ p past
            (record s { handler = record s.handler { leases = trim s.handler.leases } })
    tick :
        {p : ProxyPhase} {past : List (Datagram d)} {s : ProxySystem}
        → ProxyFollows p₀ past₀ s₀ p past s
        → IsScheduling p
        → (order : List (Bytes × Lease)) → Permᴰ s.handler.leases order
        → ProxyFollows p₀ past₀ s₀ p past (record s {
          table = (proxy_cycle order (scheduler_of s)).table;
          dispatched = (proxy_cycle order (scheduler_of s)).dispatched;
        })
    interrupt :
        {past : List (Datagram d)} {s : ProxySystem}
        → ProxyFollows p₀ past₀ s₀ waiting past s
        → ProxyFollows p₀ past₀ s₀ signalling past s
    stopped :
        {past : List (Datagram d)} {s : ProxySystem}
        → ProxyFollows p₀ past₀ s₀ signalling past s
        → (r : Receiver) → ProxyFollows p₀ past₀ s₀ (returning r) past s

  -- The states of the proxy mode from its start on.
  abbrev pub ProxyLive : ProxyPhase → List (Datagram d) → ProxySystem → Type 0
  ProxyLive = ProxyFollows waiting [] (record {
    handler = (started d ip net options).handler;
    table = init_table options;
    dispatched = [];
  })

  -- The end of the program adds no state to those of the running system.
  pub ProxyLive-ProxyReach :
      {p : ProxyPhase} {past : List (Datagram d)} {s : ProxySystem}
      → ProxyLive p past s
      → ProxyReach d ip net options past s
  ProxyLive-ProxyReach begin = boot_proxy
  ProxyLive-ProxyReach (take l conn of now beyond order g visited e) =
      receive (ProxyLive-ProxyReach l) conn of now beyond order g visited e
  ProxyLive-ProxyReach (trimmed l on) = age (ProxyLive-ProxyReach l)
  ProxyLive-ProxyReach (tick l on order visited) = send (ProxyLive-ProxyReach l) order visited
  ProxyLive-ProxyReach (interrupt l) = ProxyLive-ProxyReach l
  ProxyLive-ProxyReach (stopped l r) = ProxyLive-ProxyReach l
