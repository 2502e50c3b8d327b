-- ===== src/Proxy.antt =====
-- proxybatcher/proxy_handler.go: ServeDHCP, which turns a packet of a client or of a server into the
-- packet that the proxy forwards. `none` is a run-time panic.
pub mod Request
pub mod Copied
pub mod Reply
pub mod Ack
pub mod Trace
pub mod Start
use dhcp_batcher.Common.{
  ℕ, zero, suc, ◌+◌, ◌*◌, Bytes, Bool, true, false, not, Option, none, some, List, [], ◌∷◌, get_or,
  ◌==◌, ◌||◌, if◌then◌else◌, ◌>>=◌,
}
use dhcp_batcher.Dhcp.{Dhcp, boot_request, boot_reply}
use dhcp_batcher.GoMap.{lookup, insert}
use dhcp_batcher.Lease.{LeaseTable, Options, option, to4, add_lease}
use dhcp_batcher.Net.Mac.{mac_string}

abbrev pub option_server_identifier : ℕ
option_server_identifier = 54

abbrev pub option_ip_address_lease_time : ℕ
option_ip_address_lease_time = 51

-- dhcp.MessageType.
pub data MessageType : Type 0 where
  discover offer request decline ack nak release inform : MessageType

-- DHCPHandler and the lease table that it fills: the transactions that a client has begun.
pub record Handler : Type 0 where
  pub m : List (Bytes × Bool)
  pub leases : LeaseTable

-- binary.BigEndian.Uint32, which panics on fewer than four bytes.
unfoldable pub uint32 : Bytes → Option ℕ
uint32 (a ∷ b ∷ c ∷ d ∷ rest) = some (((a * 256 + b) * 256 + c) * 256 + d)
uint32 s = none

-- What ServeDHCP reads besides its arguments: the proxy's address, net.IP's String, the clock, and
-- what the packet's buffer holds behind option 82.
pub record Env : Type 0 where
  pub proxy_server_ip : Bytes
  pub ip_string : Bytes → Bytes
  pub now : ℕ
  pub beyond : Bytes

-- []byte(proxyServerIP.To4())
abbrev pub proxy_id : Env → Bytes
proxy_id env = get_or (to4 env.proxy_server_ip) []

module _ (d : Dhcp) where
  open d use {
    Packet, view, new_packet, set_x_id, set_secs, set_flags, set_ci_addr, set_yi_addr, set_si_addr,
    set_gi_addr, set_ch_addr, set_file, set_broadcast, add_option,
  }

  -- The loops that copy the options, in the order in which Go visits them.
  unfoldable pub add_options : List (ℕ × Bytes) → Packet → Packet
  add_options [] p = p
  add_options ((k, v) ∷ opts) p = add_options opts (add_option k v p)

  -- The loop of the NAK case.
  unfoldable pub add_nak_options : Env → List (ℕ × Bytes) → Packet → Packet
  add_nak_options env [] p = p
  add_nak_options env ((k, v) ∷ opts) p =
      add_nak_options env opts
        (if k == option_server_identifier then add_option k (proxy_id env) p else add_option k v p)

  -- The case of DISCOVER: p2, before the options.
  unfoldable pub discover_packet : Env → Packet → Packet
  discover_packet env p = set_broadcast false (
      set_x_id (view p).x_id
        (set_gi_addr env.proxy_server_ip (set_ch_addr (view p).ch_addr (new_packet boot_request))))

  -- The cases of REQUEST, RELEASE and DECLINE build the same packet.
  unfoldable pub request_packet : Env → Packet → Packet
  request_packet env p = set_broadcast false (
      set_x_id (view p).x_id (
        set_gi_addr env.proxy_server_ip (
          set_si_addr (view p).si_addr (
            set_ci_addr (view p).ci_addr
              (set_file (view p).file (set_ch_addr (view p).ch_addr (new_packet boot_request)))))))

  -- The cases of OFFER, ACK and NAK, which differ in the order of some calls.
  unfoldable pub offer_packet : Packet → Packet
  offer_packet p = set_secs (view p).secs (
      set_ch_addr (view p).ch_addr (
        set_si_addr (view p).si_addr (
          set_gi_addr (view p).gi_addr (
            set_yi_addr (view p).yi_addr (
              set_flags (view p).flags
                (set_file (view p).file (set_x_id (view p).x_id (new_packet boot_reply))))))))

  unfoldable pub ack_packet : Packet → Packet
  ack_packet p = set_secs (view p).secs (
      set_ch_addr (view p).ch_addr (
        set_gi_addr (view p).gi_addr (
          set_yi_addr (view p).yi_addr (
            set_si_addr (view p).si_addr (
              set_flags (view p).flags
                (set_file (view p).file (set_x_id (view p).x_id (new_packet boot_reply))))))))

  unfoldable pub nak_packet : Packet → Packet
  nak_packet p = set_secs (view p).secs (
      set_ch_addr (view p).ch_addr (
        set_gi_addr (view p).gi_addr (
          set_si_addr (view p).si_addr (
            set_yi_addr (view p).yi_addr (
              set_flags (view p).flags
                (set_file (view p).file (set_x_id (view p).x_id (new_packet boot_reply))))))))

  -- `h.m[string(p.XId())]`
  unfoldable pub is_known : Handler → Packet → Bool
  is_known h p = get_or (lookup (view p).x_id h.m) false

  -- `h.m[string(p.XId())] = true`
  unfoldable pub remember : Packet → Handler → Handler
  remember p h = record h { m = insert (view p).x_id true h.m }

  -- The call of addLease in the ACK case.
  unfoldable pub record_lease : Env → Packet → Options → Handler → Option Handler
  record_lease env p options h = do
    lease_time ← uint32 (option option_ip_address_lease_time options)
    leases ←
        add_lease env.now env.beyond (mac_string (view p).ch_addr) (env.ip_string (view p).yi_addr)
          lease_time (d.parse_options p) h.leases
    some (record h { leases = leases })

  -- ServeDHCP: the packet to forward, none for a packet that is dropped. `order` is the order of the
  -- loop over the parsed options.
  unfoldable pub serve_dhcp :
      Env
      → List (ℕ × Bytes)
      → Packet
      → MessageType
      → Options
      → Handler
      → Option (Handler × Option Packet)
  serve_dhcp env order p discover options h =
      some (remember p h, some (add_options order (discover_packet env p)))
  serve_dhcp env order p offer options h =
      if not (is_known h p)
      then some (h, none)
      else some (
        h,
        some (
            add_option option_server_identifier (proxy_id env)
              (add_options order (offer_packet p))),
      )
  serve_dhcp env order p request options h =
      some (remember p h, some (add_options order (request_packet env p)))
  serve_dhcp env order p ack options h = if not (is_known h p) then some (h, none) else (do
    h' ← record_lease env p options h
    some (
      h',
      some (add_option option_server_identifier (proxy_id env) (add_options order (ack_packet p))),
    ))
  serve_dhcp env order p nak options h =
      if not (is_known h p)
      then some (h, none)
      else some (h, some (add_nak_options env order (nak_packet p)))
  serve_dhcp env order p release options h =
      some (h, some (add_options order (request_packet env p)))
  serve_dhcp env order p decline options h =
      some (h, some (add_options order (request_packet env p)))
  serve_dhcp env order p inform options h = some (h, none)
