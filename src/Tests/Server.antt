-- ===== src/Tests/Server.antt =====
-- Tests of proxybatcher/proxy_server.go and of proxybatcher/dhcp-batcher.go.
use mathlib.Core.List.Permᴰ
use dhcp_batcher.Common.{ℕ, Bytes, none, some, List, [], ◌∷◌, ◌≡◌, inl, inr, refl, arith, map}
use dhcp_batcher.Dhcp.{Fields}
use dhcp_batcher.Dhcp.Model.{fields_dhcp, parse, store, is_storable}
use dhcp_batcher.Lease.{init, option, option_router}
use dhcp_batcher.Proxy.{discover, offer, MessageType, Handler, is_known}
use dhcp_batcher.Proxy.Request.{IsForwarded}
use dhcp_batcher.Proxy.Reply.{IsAnswer}
use dhcp_batcher.Server.{ServeIfConn, Datagram, message_type, serve, Write, serve_loop}
use dhcp_batcher.Server.Dispatch.{IsServed, to_server, to_router, serve_client, serve_offer}
use dhcp_batcher.Server.Loop.{Continues, serve_loop-Continues}
use dhcp_batcher.Proxy.Trace.{start}
use dhcp_batcher.Tests.Proxy.{proxy_ip, env, client, idle, begun, begun_known, address}

abbrev pub conn : ServeIfConn
conn = record { if_index = 3; other_index = 2 }

abbrev pub servers : List Bytes
servers = (10 ∷ 9 ∷ 9 ∷ 9 ∷ []) ∷ []

abbrev pub asked : Datagram fields_dhcp
asked = record { size = 300; index = some 3; packet = client }

abbrev unmarked : Datagram fields_dhcp
unmarked = record { size = 300; index = none; packet = client }

abbrev offered : Datagram fields_dhcp
offered = record {
  size = 300;
  index = some 2;
  packet = record client { options = (53, 2 ∷ []) ∷ (3, 10 ∷ 1 ∷ 0 ∷ 1 ∷ []) ∷ [] };
}

abbrev short : Datagram fields_dhcp
short = record asked { size = 239 }

asked-IsServed : IsServed fields_dhcp conn env servers asked discover
unfolding message_type option parse store is_storable
asked-IsServed = record { here = inl refl; large = ground arith; hw = ground arith; type = refl }

unmarked-IsServed : IsServed fields_dhcp conn env servers unmarked discover
unfolding message_type option parse store is_storable
unmarked-IsServed = record { here = tt; large = ground arith; hw = ground arith; type = refl }

offered-IsServed : IsServed fields_dhcp conn env servers offered offer
unfolding message_type option parse store is_storable
offered-IsServed = record { here = inr refl; large = ground arith; hw = ground arith; type = refl }

short_unserved : (t : MessageType) → IsServed fields_dhcp conn env servers short t → ⊥
short_unserved t s = ground (arith, s.large)

serve_client_example :
    (h' : Handler) × (q : Fields) × (serve fields_dhcp conn env servers
        (fields_dhcp.parse_options client)
        asked
        idle
      ≡ some (h', map (to_server fields_dhcp conn env servers q) servers))
    × IsForwarded fields_dhcp proxy_ip client q
    × (h'.leases ≡ idle.leases)
serve_client_example =
    serve_client fields_dhcp conn env servers proxy_ip (fields_dhcp.parse_options client) asked idle
      address (Permᴰ.refl (fields_dhcp.parse_options client)) 3 discover asked-IsServed tt refl

client_run :
    (h' : Handler) × (q : Fields) × (serve fields_dhcp conn env servers
        (fields_dhcp.parse_options client)
        asked
        idle
      ≡ some (h', map (to_server fields_dhcp conn env servers q) servers))
    × IsForwarded fields_dhcp proxy_ip client q
    × (h'.leases ≡ idle.leases)
client_run =
    serve_client fields_dhcp conn env servers proxy_ip (fields_dhcp.parse_options client) asked idle
      address (Permᴰ.refl (fields_dhcp.parse_options client)) 3 discover asked-IsServed tt refl

abbrev reads : List (List (ℕ × Bytes) × Datagram fields_dhcp)
reads = (fields_dhcp.parse_options client, asked) ∷ []

abbrev written : List (Write fields_dhcp)
written = map (to_server fields_dhcp conn env servers client_run.1) servers

loop_run : serve_loop fields_dhcp conn env servers reads idle ≡ some (client_run.0, written)
unfolding serve_loop
loop_run = rw (client_run.2) refl

serve_loop-Continues_example :
    Continues fields_dhcp env proxy_ip address conn servers [] client_run.0 written
serve_loop-Continues_example =
    serve_loop-Continues fields_dhcp env proxy_ip address conn servers reads idle client_run.0 []
      written (Permᴰ.refl (fields_dhcp.parse_options client), tt) (start init) loop_run

serve_offer_example :
    (q : Fields) × (serve fields_dhcp conn env servers
        (fields_dhcp.parse_options offered.packet)
        offered
        begun
      ≡ some (
        begun,
        to_router fields_dhcp conn env servers q
            (option option_router (fields_dhcp.parse_options offered.packet)),
      ))
    × IsAnswer fields_dhcp proxy_ip offered.packet q
unfolding is_known
serve_offer_example =
    serve_offer fields_dhcp conn env servers proxy_ip (fields_dhcp.parse_options offered.packet)
      offered begun address (Permᴰ.refl (fields_dhcp.parse_options offered.packet)) 2
      offered-IsServed begun_known refl
