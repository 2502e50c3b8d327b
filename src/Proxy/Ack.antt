-- ===== src/Proxy/Ack.antt =====
-- The ACK case of ServeDHCP (proxybatcher/proxy_handler.go): the lease that it records, and when it
-- panics.
use mathlib.Core.List.{Permᴰ}
use dhcp_batcher.Common.{
  ℕ, ◌^◌, ◌≤◌, ◌<◌, Bytes, true, Option, none, some, List, [], ◌∷◌, ◌≡◌, ◌⊎◌, inl, inr, ◌↔◌, refl,
  arith, length, All, Option-cases,
}
use dhcp_batcher.GoMap.{lookup, insert}
use dhcp_batcher.GoMap.Laws.{lookup-insert_self}
use dhcp_batcher.Lease.{
  Lease, Options, option, option_relay_agent_information, to4, relay_ids, add_lease,
}
use dhcp_batcher.Lease.Table.{IsLeaseTable, new_lease, add_lease_lem}
use dhcp_batcher.Lease.Relay.{IsCutShort, relay_ids-IsCutShort}
use dhcp_batcher.Net.Mac.{mac_string}
use dhcp_batcher.Dhcp.{Dhcp}
use dhcp_batcher.Proxy.{
  ack, Handler, Env, uint32, option_ip_address_lease_time, is_known, record_lease, serve_dhcp,
}
use dhcp_batcher.Proxy.Reply.{IsAnswer, ack-IsAnswer}

uint32-eq-none_iff : (s : Bytes) → (uint32 s ≡ none) ↔ (length s < 4)
unfolding uint32
uint32-eq-none_iff [] = ground arith
uint32-eq-none_iff (a ∷ []) = ground arith
uint32-eq-none_iff (a ∷ b ∷ []) = ground arith
uint32-eq-none_iff (a ∷ b ∷ c ∷ []) = ground arith
uint32-eq-none_iff (a ∷ b ∷ c ∷ e ∷ s) = ground arith

pub uint32-lt : (s : Bytes) {n : ℕ} → All (λ b. b < 256) s → uint32 s ≡ some n → n < 2 ^ 32
unfolding uint32
uint32-lt [] h e = absurd (ground arith)
uint32-lt (a ∷ []) h e = absurd (ground arith)
uint32-lt (a ∷ b ∷ []) h e = absurd (ground arith)
uint32-lt (a ∷ b ∷ c ∷ []) h e = absurd (ground arith)
uint32-lt (a ∷ b ∷ c ∷ k ∷ s) h e = ground arith

module _ (d : Dhcp) (env : Env) (p : d.Packet) where
  -- The two ids that addLease finds in the packet.
  abbrev pub relayed : Option (Bytes × Bytes)
  relayed = relay_ids env.beyond (option option_relay_agent_information (d.parse_options p))

  -- The lease that addLease makes of the packet.
  abbrev pub granted : ℕ → Bytes × Bytes → Lease
  granted secs ids =
      new_lease env.now (mac_string (d.view p).ch_addr) (env.ip_string (d.view p).yi_addr) secs
        (d.parse_options p) ids

module _ (d : Dhcp) (env : Env) (p : d.Packet) (order : List (ℕ × Bytes)) (options : Options)
    (h : Handler) (known : is_known d h p ≡ true) where
  record_lease-eq-none_iff :
      (record_lease d env p options h ≡ none)
      ↔ ((length (option option_ip_address_lease_time options) < 4) ⊎ (relayed d env p ≡ none))
  unfolding record_lease add_lease
  record_lease-eq-none_iff =
      let secs = uint32-eq-none_iff (option option_ip_address_lease_time options) in
      elim (Option-cases (uint32 (option option_ip_address_lease_time options))) [
        | inl e ↦ ground (arith, secs)
        | inr (n, e) ↦ elim (Option-cases (relayed d env p)) [
          | inl e' ↦ ground (arith, secs)
          | inr (ids, e') ↦ ground (arith, secs)
        ]
      ]

  add_lease-some :
      (secs : ℕ) (ids : Bytes × Bytes)
      → relayed d env p ≡ some ids
      → add_lease env.now env.beyond
          (mac_string (d.view p).ch_addr)
          (env.ip_string (d.view p).yi_addr)
          secs
          (d.parse_options p)
          h.leases
        ≡ some (insert (mac_string (d.view p).ch_addr) (granted d env p secs ids) h.leases)
  unfolding add_lease
  add_lease-some secs ids cut = rw cut refl

  record_lease-some :
      (secs : ℕ) (ids : Bytes × Bytes)
      → uint32 (option option_ip_address_lease_time options) ≡ some secs
      → relayed d env p ≡ some ids
      → record_lease d env p options h
        ≡ some (record h {
          leases = insert (mac_string (d.view p).ch_addr) (granted d env p secs ids) h.leases;
        })
  unfolding record_lease
  record_lease-some secs ids time cut = rw (time, add_lease-some secs ids cut) refl

  -- An ACK of a known transaction whose option 82 consists of at most 255 bytes panics exactly when
  -- its lease time has fewer than four bytes, or its option 82 is longer than two bytes and fewer
  -- than n + 2 bytes follow the first two, where n is the second.
  pub serve_dhcp-eq-none_iff :
      All (λ b. b < 256) (option option_relay_agent_information (d.parse_options p))
      → length (option option_relay_agent_information (d.parse_options p)) ≤ 255
      → (serve_dhcp d env order p ack options h ≡ none) ↔ (
          (length (option option_ip_address_lease_time options) < 4)
          ⊎ IsCutShort (option option_relay_agent_information (d.parse_options p)))
  unfolding serve_dhcp
  serve_dhcp-eq-none_iff small short =
      let cut =
        relay_ids-IsCutShort env.beyond (option option_relay_agent_information (d.parse_options p))
          small short in
      let recorded = record_lease-eq-none_iff in
      elim (Option-cases (record_lease d env p options h)) [
        | inl e ↦ rw known (ground (arith, recorded, cut))
        | inr (h', e) ↦ rw known (ground (arith, recorded, cut))
      ]

  module _ (ip : Bytes) (addr : to4 env.proxy_server_ip ≡ some ip) (hw : (d.view p).h_len ≤ 16)
      (visited : Permᴰ (d.parse_options p) order) where
    -- If the proxy has an IPv4 address and the packet's hardware address has at most 16 bytes, an
    -- ACK of a known transaction whose lease time can be read and whose option 82 can be cut is
    -- forwarded as an answer of the proxy, the known transactions stay, and the lease table, well
    -- formed before, is well formed and holds the lease of the packet under its hardware address.
    pub serve_dhcp_ack :
        (secs : ℕ) (ids : Bytes × Bytes)
        → All (λ b. b < 256) (option option_ip_address_lease_time options)
        → uint32 (option option_ip_address_lease_time options) ≡ some secs
        → relayed d env p ≡ some ids
        → IsLeaseTable h.leases
        → (h' : Handler) × (q : d.Packet) × (serve_dhcp d env order p ack options h
            ≡ some (h', some q))
          × IsAnswer d ip p q
          × (h'.m ≡ h.m)
          × IsLeaseTable h'.leases
          × (lookup (mac_string (d.view p).ch_addr) h'.leases ≡ some (granted d env p secs ids))
    unfolding serve_dhcp
    serve_dhcp_ack secs ids small time cut ok =
        let mac = mac_string (d.view p).ch_addr in
        let ip_text = env.ip_string (d.view p).yi_addr in
        let stored = record_lease-some secs ids time cut in
        let (_, _, well_formed, _) =
          add_lease_lem env.now env.beyond mac ip_text secs (d.parse_options p) h.leases
            (add_lease-some secs ids cut)
            (uint32-lt (option option_ip_address_lease_time options) small time) ok in
        rw (known, stored)
          (
            _,
            _,
            refl,
            ack-IsAnswer d env ip p order addr hw visited,
            refl,
            well_formed,
            lookup-insert_self mac (granted d env p secs ids) h.leases,
          )
