-- ===== src/Server.antt =====
-- proxybatcher/proxy_server.go: the loop that reads datagrams, filters them, calls ServeDHCP and
-- writes what it returns. ListenAndServeIf and ServeIf, which open the socket, are in ProxySystem.
-- `none` is a run-time panic; an error of a write is only logged.
pub mod Dispatch
pub mod Due
pub mod Loop
use dhcp_batcher.Common.{
  ℕ, suc, Bytes, Bool, true, false, not, ◌&&◌, Option, none, some, List, [], ◌∷◌, ◌++◌, length, map,
  ltb, ◌==◌, if◌then◌else◌, ◌>>=◌,
}
use dhcp_batcher.Dhcp.{Dhcp}
use dhcp_batcher.Lease.{option, option_router}
use dhcp_batcher.Proxy.{
  MessageType, discover, offer, request, decline, ack, nak, release, inform, Handler, Env,
  serve_dhcp,
}

pub record ServeIfConn : Type 0 where
  pub if_index : ℕ
  pub other_index : ℕ

abbrev pub option_message_type : ℕ
option_message_type = 53

-- The tests of the message type: one byte, between Discover and Inform.
unfoldable pub message_type : Bytes → Option MessageType
message_type (t ∷ []) =
    if t == 1
    then some discover
    else if t == 2
    then some offer
    else if t == 3
    then some request
    else if t == 4
    then some decline
    else if t == 5
    then some ack
    else if t == 6
    then some nak
    else if t == 7
    then some release
    else if t == 8
    then some inform
    else none
message_type t = none

-- The first bytes of net.IPv4's result.
unfoldable pub ipv4 : Bytes → Bytes
ipv4 o = 0 ∷ 0 ∷ 0 ∷ 0 ∷ 0 ∷ 0 ∷ 0 ∷ 0 ∷ 0 ∷ 0 ∷ 255 ∷ 255 ∷ o

module _ (d : Dhcp) where
  open d use {Packet, view, parse_options}

  -- What one read of the socket yields: the number of bytes, the interface of the control message,
  -- none where there is no control message, and the packet in the buffer.
  pub record Datagram : Type 0 where
    pub size : ℕ
    pub index : Option ℕ
    pub packet : Packet

  -- One call of PacketConn.WriteTo.
  pub record Write : Type 0 where
    pub packet : Packet
    pub ip : Bytes
    pub port : ℕ
    pub src : Bytes
    pub index : ℕ

  -- ReadFrom: the size, which is 0 for a datagram of another interface.
  unfoldable pub read_from : ServeIfConn → Datagram → ℕ
  read_from conn g = elim g.index [
    | none ↦ g.size
    | some i ↦ if not (i == conn.if_index) && not (i == conn.other_index) then 0 else g.size
  ]

  -- WriteTo, which writes to the control message of the last read.
  unfoldable pub write_to : Option ℕ → Packet → Bytes → Bytes → ℕ → Option Write
  write_to none b ip src index = none
  write_to (some i) b ip src index =
      some (record { packet = b; ip = ip; port = 67; src = src; index = index })

  -- The loop over dhcpServers.
  unfoldable pub upstream : ServeIfConn → Option ℕ → Env → Packet → List Bytes → Option (List Write)
  upstream conn cm env res [] = some []
  upstream conn cm env res (ip ∷ servers) = do
    w ← write_to cm res ip env.proxy_server_ip conn.other_index
    ws ← upstream conn cm env res servers
    some (w ∷ ws)

  -- The case of a reply: to the router that option 3 names.
  unfoldable pub downstream : ServeIfConn → Option ℕ → Env → Packet → Option (List Write)
  downstream conn cm env res =
      let o = option option_router (parse_options res) in
      if length o == 4
      then (do w ← write_to cm res (ipv4 o) env.proxy_server_ip conn.if_index; some (w ∷ []))
      else some []

  -- What is written of ServeDHCP's result.
  unfoldable pub dispatch :
      ServeIfConn → Option ℕ → Env → List Bytes → Option Packet → Option (List Write)
  dispatch conn cm env servers none = some []
  dispatch conn cm env servers (some res) =
      if (view res).op_code == 1
      then upstream conn cm env res servers
      else downstream conn cm env res

  -- One round of Serve, after a read without an error. `order` is the order of ServeDHCP's loop.
  unfoldable pub serve :
      ServeIfConn
      → Env
      → List Bytes
      → List (ℕ × Bytes)
      → Datagram
      → Handler
      → Option (Handler × List Write)
  serve conn env servers order g h =
      if ltb (read_from conn g) 240
      then some (h, [])
      else if ltb 16 (view g.packet).h_len
      then some (h, [])
      else elim (message_type (option option_message_type (parse_options g.packet))) [
        | none ↦ some (h, [])
        | some t ↦ (do
          (h', res) ← serve_dhcp d env order g.packet t (parse_options g.packet) h
          ws ← dispatch conn g.index env servers res
          some (h', ws))
      ]

  -- Serve: the rounds of the reads up to the one that returns an error, which ends it.
  unfoldable pub serve_loop :
      ServeIfConn
      → Env
      → List Bytes
      → List (List (ℕ × Bytes) × Datagram)
      → Handler
      → Option (Handler × List Write)
  serve_loop conn env servers [] h = some (h, [])
  serve_loop conn env servers ((order, g) ∷ reads) h = do
    (h', ws) ← serve conn env servers order g h
    (h'', ws') ← serve_loop conn env servers reads h'
    some (h'', ws ++ ws')
