-- ===== src/Tests/Proxy.antt =====
-- Tests of proxybatcher/proxy_handler.go, with packets that are records of their fields.
use mathlib.Core.List.Permᴰ
use dhcp_batcher.Common.{
  ◌<◌, Bytes, str_eq, true, false, ◌||◌, none, some, [], ◌∷◌, ◌≡◌, ◌↔◌, ◌⊎◌, refl, arith, length,
}
use dhcp_batcher.GoMap.{lookup, insert}
use dhcp_batcher.Lease.{
  Options, option, option_relay_agent_information, to4, relay_ids, slice, init,
}
use dhcp_batcher.Lease.Table.{IsLeaseTable, init-IsLeaseTable}
use dhcp_batcher.Net.Mac.{mac_string}
use dhcp_batcher.Dhcp.{Fields, blank, boot_request, boot_reply}
use dhcp_batcher.Dhcp.Model.{fields_dhcp, parse, store, is_storable}
use dhcp_batcher.Proxy.{
  discover, offer, ack, Handler, Env, uint32, option_ip_address_lease_time, is_known, remember,
  serve_dhcp,
}
use dhcp_batcher.Proxy.Request.{begins, IsForwarded, serve_dhcp-IsForwarded}
use dhcp_batcher.Proxy.Reply.{IsAnswer, serve_dhcp-IsAnswer}
use dhcp_batcher.Lease.Relay.{IsCutShort}
use dhcp_batcher.Proxy.Ack.{granted, serve_dhcp-eq-none_iff, serve_dhcp_ack}
use dhcp_batcher.Proxy.Trace.{Trace, start, step, serve_dhcp_unasked}

abbrev pub proxy_ip : Bytes
proxy_ip = 10 ∷ 0 ∷ 0 ∷ 1 ∷ []

abbrev pub env : Env
env = record { proxy_server_ip = proxy_ip; ip_string = λ ip. ip; now = 1000; beyond = [] }

abbrev pub client : Fields
client = record (blank boot_request) {
  x_id = 1 ∷ 2 ∷ 3 ∷ 4 ∷ [];
  ch_addr = 2 ∷ 0 ∷ 0 ∷ 0 ∷ 0 ∷ 10 ∷ [];
  options = (53, 1 ∷ []) ∷ (82, 1 ∷ 3 ∷ 7 ∷ 8 ∷ 9 ∷ 2 ∷ 2 ∷ 4 ∷ 5 ∷ []) ∷ [];
}

abbrev server : Fields
server = record client {
  op_code = boot_reply;
  yi_addr = 10 ∷ 1 ∷ 2 ∷ 3 ∷ [];
  options =
      (53, 5 ∷ [])
      ∷ (54, 10 ∷ 9 ∷ 9 ∷ 9 ∷ [])
      ∷ (51, 0 ∷ 0 ∷ 14 ∷ 16 ∷ [])
      ∷ (82, 1 ∷ 3 ∷ 7 ∷ 8 ∷ 9 ∷ 2 ∷ 2 ∷ 4 ∷ 5 ∷ [])
      ∷ [];
}

abbrev pub idle : Handler
idle = record { m = []; leases = init }

-- The handler after the client's packet.
abbrev pub begun : Handler
begun = remember fields_dhcp client idle

pub begun_known : is_known fields_dhcp begun server ≡ true
unfolding is_known remember insert lookup str_eq
begun_known = refl

idle_unknown : is_known fields_dhcp idle server ≡ false
unfolding is_known lookup
idle_unknown = refl

pub address : to4 env.proxy_server_ip ≡ some proxy_ip
unfolding to4
address = refl

abbrev server_options : Options
server_options = fields_dhcp.parse_options server

serve_dhcp-IsForwarded_example :
    (h' : Handler) × (q : Fields) × (serve_dhcp fields_dhcp env
        (fields_dhcp.parse_options client)
        client
        discover
        []
        idle
      ≡ some (h', some q))
    × IsForwarded fields_dhcp proxy_ip client q
    × (h'.leases ≡ idle.leases)
    × (is_known fields_dhcp h' client ≡ (begins discover || is_known fields_dhcp idle client))
serve_dhcp-IsForwarded_example =
    serve_dhcp-IsForwarded fields_dhcp env proxy_ip client (fields_dhcp.parse_options client)
      address (ground arith) (Permᴰ.refl (fields_dhcp.parse_options client)) discover [] idle tt

serve_dhcp-IsAnswer_example :
    (q : Fields) × (serve_dhcp fields_dhcp env server_options server offer server_options begun
      ≡ some (begun, some q))
    × IsAnswer fields_dhcp proxy_ip server q
serve_dhcp-IsAnswer_example =
    serve_dhcp-IsAnswer fields_dhcp env proxy_ip server server_options address (ground arith)
      (Permᴰ.refl server_options) offer server_options begun tt begun_known

small_time : option option_ip_address_lease_time server_options ≡ 0 ∷ 0 ∷ 14 ∷ 16 ∷ []
unfolding option parse store is_storable
small_time = refl

serve_dhcp_ack_example :
    (h' : Handler) × (q : Fields) × (serve_dhcp fields_dhcp env server_options server ack
        server_options begun
      ≡ some (h', some q))
    × IsAnswer fields_dhcp proxy_ip server q
    × (h'.m ≡ begun.m)
    × IsLeaseTable h'.leases
    × (lookup (mac_string server.ch_addr) h'.leases
        ≡ some (granted fields_dhcp env server 3600 (7 ∷ 8 ∷ 9 ∷ [], 4 ∷ 5 ∷ [])))
unfolding option parse store is_storable uint32 relay_ids slice remember
serve_dhcp_ack_example =
    serve_dhcp_ack fields_dhcp env server server_options server_options begun begun_known proxy_ip
      address (ground arith) (Permᴰ.refl server_options) 3600 (7 ∷ 8 ∷ 9 ∷ [], 4 ∷ 5 ∷ [])
      (ground arith) refl refl init-IsLeaseTable

serve_dhcp-eq-none_iff_example :
    (serve_dhcp fields_dhcp env server_options server ack [] begun ≡ none) ↔ (
      (length (option option_ip_address_lease_time []) < 4)
      ⊎ IsCutShort (option option_relay_agent_information server_options))
unfolding option parse store is_storable
serve_dhcp-eq-none_iff_example =
    serve_dhcp-eq-none_iff fields_dhcp env server server_options [] begun begun_known (ground arith)
      (ground arith)

begun-Trace : Trace fields_dhcp ((discover, client.x_id) ∷ []) begun
unfolding serve_dhcp
begun-Trace = step env (fields_dhcp.parse_options client) client discover [] _ (start init) refl

serve_dhcp_unasked_example :
    serve_dhcp fields_dhcp env server_options
      (record server { x_id = 9 ∷ [] })
      offer
      server_options
      begun
    ≡ some (begun, none)
serve_dhcp_unasked_example =
    serve_dhcp_unasked fields_dhcp begun-Trace env server_options (record server { x_id = 9 ∷ [] })
      server_options offer tt (λ e. ground arith)
