-- ===== src/Endpoint/Accept.antt =====
-- What the sanity checks of BatchModeEndpointRouter (proxybatcher/batch_mode.go) accept.
use dhcp_batcher.Common.{
  ◌≤◌, Bytes, is_empty, false, none, some, [], ◌∷◌, ◌≡◌, ◌≢◌, ◌↔◌, ◌⊎◌, inl, inr, refl, arith,
  length, Option-cases, pos,
}
use dhcp_batcher.Net.Mac.{parse_mac}
use dhcp_batcher.Net.Mac.RoundTrip.{parse_mac_canonical}
use dhcp_batcher.Strings.{atoi}
use dhcp_batcher.Endpoint.{EndpointBatchRequest, Web, Update, accept, check_lease}

module _ (web : Web) (router_ip : Bytes) where
  -- A lease that is acceptable, and the update that it stands for: the addresses are the parsed
  -- ones, the flag is a number that is 0 or 1, and the remote id is at most 246 bytes long.
  pub record Accepts (lease : EndpointBatchRequest) (u : Update) : Type 0 where
    pub mac : parse_mac lease.leased_mac_address ≡ some u.host_addr
    pub ip_given : is_empty lease.ip_address ≡ false
    pub ip : web.ip.parse_ip lease.ip_address ≡ some u.host_ip
    pub flag : (atoi lease.expired ≡ some (pos 0)) ⊎ (atoi lease.expired ≡ some (pos 1))
    pub short : length lease.remote_id ≤ 246
    pub expired : u.expired ≡ lease.expired
    pub router : u.router_ip ≡ router_ip
    pub remote_id : u.remote_id ≡ lease.remote_id

  check_lease_sound :
      (lease : EndpointBatchRequest) (u : Update)
      → check_lease web router_ip lease ≡ accept u
      → Accepts lease u
  unfolding check_lease
  check_lease_sound lease u e = elim (Option-cases (parse_mac lease.leased_mac_address)) [
    | inl no_mac ↦ absurd (ground arith)
    | inr (hw, mac) ↦ elim (Option-cases (web.ip.parse_ip lease.ip_address)) [
      | inl no_ip ↦ absurd (ground arith)
      | inr (ip, is_ip) ↦ ground (
        arith,
        parse_mac_canonical lease.leased_mac_address mac,
        web.ip.parse_ip-ip_string lease.ip_address ip is_ip,
      )
    ]
  ]

  is_empty_mac : (s : Bytes) → parse_mac s ≢ none → is_empty s ≡ false
  unfolding is_empty parse_mac
  is_empty_mac [] h = absurd (h refl)
  is_empty_mac (c ∷ s) h = refl

  is_empty_flag : (s : Bytes) → atoi s ≢ none → is_empty s ≡ false
  unfolding is_empty atoi
  is_empty_flag [] h = absurd (h refl)
  is_empty_flag (c ∷ s) h = refl

  check_lease_complete :
      (lease : EndpointBatchRequest) (u : Update)
      → Accepts lease u
      → check_lease web router_ip lease ≡ accept u
  unfolding check_lease
  check_lease_complete lease u a = ground (
    arith,
    a.mac,
    a.ip_given,
    a.ip,
    a.flag,
    a.short,
    a.expired,
    a.router,
    a.remote_id,
    is_empty_mac lease.leased_mac_address,
    is_empty_flag lease.expired,
    parse_mac_canonical lease.leased_mac_address a.mac,
    web.ip.parse_ip-ip_string lease.ip_address u.host_ip a.ip,
  )

  -- The sanity checks accept a lease with an update exactly when the lease is acceptable and the
  -- update is the one it stands for.
  pub check_lease_iff :
      (lease : EndpointBatchRequest) (u : Update)
      → (check_lease web router_ip lease ≡ accept u) ↔ Accepts lease u
  check_lease_iff lease u = (check_lease_sound lease u, check_lease_complete lease u)
