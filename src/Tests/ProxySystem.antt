-- ===== src/Tests/ProxySystem.antt =====
-- Tests of the proxy mode as a whole: one client asks, the timer makes a round, and the scheduler
-- ticks.
use mathlib.Core.List.Permᴰ
use dhcp_batcher.Common.{
  bytes, str_eq, true, some, [], ◌∷◌, ◌≡◌, inl, inr, refl, arith, map, if◌then◌else◌,
}
use dhcp_batcher.Dhcp.{Fields}
use dhcp_batcher.Dhcp.Model.{fields_dhcp, parse, store, is_storable}
use dhcp_batcher.Options.{ProgramConfig}
use dhcp_batcher.Lease.{option, to4, trim}
use dhcp_batcher.Lease.Table.{IsLeaseTable}
use dhcp_batcher.Batch.{init_table}
use dhcp_batcher.Proxy.{discover, Handler, Env}
use dhcp_batcher.Proxy.Request.{IsForwarded}
use dhcp_batcher.Proxy.Start.{start_dhcp_proxy}
use dhcp_batcher.Server.{message_type, serve}
use dhcp_batcher.Server.Dispatch.{IsServed, to_server, serve_client}
use dhcp_batcher.ProxySystem.{
  Network, ProxySystem, ProxyReach, boot_proxy, receive, age, env, started, proxy_listeners,
  listen_and_serve_if, serve_if, IsOneOf,
}
use dhcp_batcher.ProxySystem.Leases.{ProxyReach-IsLeaseTable}
use dhcp_batcher.ProxySystem.Asked.{Explained, ProxyReach-Explained}
use dhcp_batcher.ProxySystem.Ending.{timer, returning, ProxyFollows, begin, take}
use dhcp_batcher.ProxySystem.Stop.{StandsStill, ProxyFollows-StandsStill}
use dhcp_batcher.Tests.Endpoint.{ip_text, router_ip}
use dhcp_batcher.Tests.Options.{batch_options}
use dhcp_batcher.Tests.Proxy.{client}
use dhcp_batcher.Tests.Server.{conn, asked}
use dhcp_batcher.Tests.Start.{proxy}

abbrev options : ProgramConfig
options = record batch_options { proxy = proxy }

abbrev net : Network
net = record {
  interface_index = λ name. if str_eq name (bytes "eth0") then some 2 else some 3;
  listen_packet = λ port. true;
  set_control_message = λ port. true;
}

abbrev host : Env
host = env fields_dhcp ip_text net options 0 []

abbrev fresh : Handler
fresh = (started fields_dhcp ip_text net options).handler

listening : IsOneOf conn (proxy_listeners net proxy)
unfolding proxy_listeners listen_and_serve_if serve_if str_eq bytes
listening = inr (inl refl)

host_address : to4 host.proxy_server_ip ≡ some router_ip
unfolding start_dhcp_proxy to4 str_eq bytes
host_address = refl

asked_served :
    IsServed fields_dhcp conn host
      (started fields_dhcp ip_text net options).dhcp_servers
      asked
      discover
unfolding message_type option parse store is_storable
asked_served = record { here = inl refl; large = ground arith; hw = ground arith; type = refl }

asked_run :
    (h : Handler) × (q : Fields) × (serve fields_dhcp conn host
        (started fields_dhcp ip_text net options).dhcp_servers
        (fields_dhcp.parse_options client)
        asked
        fresh
      ≡ some (
        h,
        map
            (to_server fields_dhcp conn host
              (started fields_dhcp ip_text net options).dhcp_servers
              q)
            (started fields_dhcp ip_text net options).dhcp_servers,
      ))
    × IsForwarded fields_dhcp router_ip client q
    × (h.leases ≡ fresh.leases)
asked_run =
    serve_client fields_dhcp conn host (started fields_dhcp ip_text net options).dhcp_servers
      router_ip (fields_dhcp.parse_options client) asked fresh host_address
      (Permᴰ.refl (fields_dhcp.parse_options client)) 3 discover asked_served tt refl

abbrev state : ProxySystem
state = record {
  handler = record asked_run.0 { leases = trim asked_run.0.leases };
  table = init_table options;
  dispatched = [];
}

state-ProxyReach : ProxyReach fields_dhcp ip_text net options (asked ∷ []) state
state-ProxyReach = age (
    receive boot_proxy conn listening 0 [] (fields_dhcp.parse_options client) asked
      (Permᴰ.refl (fields_dhcp.parse_options client)) (asked_run.2))

ProxyReach-IsLeaseTable_example : IsLeaseTable state.handler.leases
unfolding parse option store is_storable
ProxyReach-IsLeaseTable_example =
    ProxyReach-IsLeaseTable fields_dhcp ip_text net options state-ProxyReach (tt, tt)

ProxyReach-Explained_example : Explained fields_dhcp ip_text net options (asked ∷ []) state
ProxyReach-Explained_example = ProxyReach-Explained fields_dhcp ip_text net options state-ProxyReach

-- The timer takes the stop signal at the start, and a datagram comes after it.
abbrev at_start : ProxySystem
at_start = record { handler = fresh; table = init_table options; dispatched = [] }

abbrev late : ProxySystem
late = record { handler = asked_run.0; table = init_table options; dispatched = [] }

late-ProxyFollows :
    ProxyFollows fields_dhcp ip_text net options
      (returning timer)
      []
      at_start
      (returning timer)
      (asked ∷ [])
      late
late-ProxyFollows =
    take begin conn listening 0 [] (fields_dhcp.parse_options client) asked
      (Permᴰ.refl (fields_dhcp.parse_options client)) (asked_run.2)

ProxyFollows-StandsStill_example :
    (returning timer ≡ returning timer) × StandsStill timer at_start late
ProxyFollows-StandsStill_example =
    ProxyFollows-StandsStill fields_dhcp ip_text net options timer late-ProxyFollows
