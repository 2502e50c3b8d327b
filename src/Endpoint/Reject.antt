-- ===== src/Endpoint/Reject.antt =====
-- What BatchModeEndpointRouter (proxybatcher/batch_mode.go) answers when it starts no update: its
-- statuses, and the silent return.
use dhcp_batcher.Common.{
  ℕ, Bytes, bytes, str_eq, is_empty, true, Option, none, some, List, [], ◌≡◌, ◌≢◌, ◌⊎◌, inl, inr,
  refl, arith, get_or, Option-cases, Bool-cases,
}
use dhcp_batcher.Net.Mac.{parse_mac}
use dhcp_batcher.Options.{BatchRouterAuth}
use dhcp_batcher.Endpoint.{
  EndpointBatchRequest, Uri, Request, Web, Update, Response, finished, answer_router, write_header,
  Check, accept, reject, panic, ◌>>=◌, find_router, first_value, read_get, read_post, read_lease,
  check_lease, conclude, assignments, endpoint,
}

module _ (web : Web) where
  -- A refusal of the checks is 400, but for a lease with a good MAC address and no IP address.
  check_lease-reject :
      (router_ip : Bytes) (lease : EndpointBatchRequest) (code : Option ℕ)
      → check_lease web router_ip lease ≡ reject code
      → (code ≡ some 400)
        ⊎ ((code ≡ none)
            × (is_empty lease.ip_address ≡ true)
            × (parse_mac lease.leased_mac_address ≢ none))
  unfolding check_lease
  check_lease-reject router_ip lease code e = ground arith

  read_lease-reject :
      (req : Request) (uri : Uri) (code : Option ℕ)
      → read_lease web req uri ≡ reject code
      → code ≡ some 400
  unfolding read_lease read_get read_post first_value
  read_lease-reject req uri code e = ground arith

  -- The handler has returned with no status: a known router, a lease that could be read, a good
  -- MAC address, and no IP address.
  pub record IsSilent (routers : List BatchRouterAuth) (req : Request) : Type 0 where
    pub uri : Uri
    pub parsed : web.parse_uri req.request_uri ≡ some uri
    pub known : find_router (web.split_host_port req.remote_addr) routers ≢ none
    pub lease : EndpointBatchRequest
    pub readable : read_lease web req uri ≡ accept lease
    pub mac : parse_mac lease.leased_mac_address ≢ none
    pub no_ip : is_empty lease.ip_address ≡ true

  -- A return without an update: 400, or nothing at all for a lease with no IP address.
  abbrev Declines : Response → EndpointBatchRequest → Response → Type 0
  Declines r lease r' =
      (r' ≡ write_header 400 r)
      ⊎ ((r' ≡ r)
          × (parse_mac lease.leased_mac_address ≢ none)
          × (is_empty lease.ip_address ≡ true))

  conclude-Declines :
      (r : Response) (router_ip : Bytes) (lease : EndpointBatchRequest) (c : Check Update)
      (r' : Response)
      → check_lease web router_ip lease ≡ c
      → conclude web r c ≡ finished r'
      → r'.update ≡ none
      → Declines r lease r'
  conclude-Declines r router_ip lease (accept u) r' checked e h = absurd (ground arith)
  conclude-Declines r router_ip lease (reject code) r' checked e h =
      ground (arith, check_lease-reject router_ip lease code checked)
  conclude-Declines r router_ip lease panic r' checked e h = absurd (ground arith)

  read-Declines :
      (r : Response) (req : Request) (uri : Uri) (router_ip : Bytes)
      (c : Check EndpointBatchRequest) (r' : Response)
      → read_lease web req uri ≡ c
      → conclude web r (c >>= check_lease web router_ip) ≡ finished r'
      → r'.update ≡ none
      → (r' ≡ write_header 400 r)
        ⊎ ((lease : EndpointBatchRequest) × (read_lease web req uri ≡ accept lease)
            × Declines r lease r')
  read-Declines r req uri router_ip (accept lease) r' read e h =
      inr (lease, read, conclude-Declines r router_ip lease _ r' refl e h)
  read-Declines r req uri router_ip (reject code) r' read e h =
      inl (ground (arith, read_lease-reject req uri code read))
  read-Declines r req uri router_ip panic r' read e h = absurd (ground arith)

  -- How the handler ends without an update: with 400, with 401, or silently.
  abbrev NoUpdate : List BatchRouterAuth → Request → Response → Type 0
  NoUpdate routers req r =
      (r.status ≡ some 400) ⊎ (r.status ≡ some 401) ⊎ ((r.status ≡ none) × IsSilent routers req)

  assignments-Declines :
      (req : Request) (uri : Uri) (router_ip : Bytes) (creds : Bytes × Bytes) (r r' : Response)
      → assignments web req uri router_ip creds r ≡ finished r'
      → r'.update ≡ none
      → (r' ≡ write_header 401 r)
        ⊎ (conclude web r (read_lease web req uri >>= check_lease web router_ip) ≡ finished r')
  unfolding assignments
  assignments-Declines req uri router_ip creds r r' e h = ground arith

  answer_router-status :
      (code : ℕ) (found : Option (Bytes × Bytes))
      → (code ≡ 400) ⊎ (code ≡ 401)
      → ((write_header code (answer_router found)).status ≡ some 400)
        ⊎ ((write_header code (answer_router found)).status ≡ some 401)
  answer_router-status code found h = ground arith

  Declines-NoUpdate :
      (routers : List BatchRouterAuth) (req : Request) (uri : Uri) (lease : EndpointBatchRequest)
      (r : Response)
      → web.parse_uri req.request_uri ≡ some uri
      → read_lease web req uri ≡ accept lease
      → Declines (answer_router (find_router (web.split_host_port req.remote_addr) routers)) lease r
      → NoUpdate routers req r
  Declines-NoUpdate routers req uri lease r parsed read d =
      elim (Option-cases (find_router (web.split_host_port req.remote_addr) routers)) [
        | inl unknown ↦ inr (inl (ground (arith, unknown, d)))
        | inr (creds, known) ↦ elim d [
          | inl refused ↦ inl (ground (arith, known, refused))
          | inr (same, mac, no_ip) ↦ inr (
              inr (
                ground (arith, known, same),
                record {
                  uri = uri;
                  parsed = parsed;
                  known = ground (arith, known);
                  lease = lease;
                  readable = read;
                  mac = mac;
                  no_ip = no_ip;
                },
              ))
        ]
      ]

  write_header-NoUpdate :
      (routers : List BatchRouterAuth) (req : Request) (code : ℕ) (r : Response)
      → (code ≡ 400) ⊎ (code ≡ 401)
      → r
        ≡ write_header code
            (answer_router (find_router (web.split_host_port req.remote_addr) routers))
      → NoUpdate routers req r
  write_header-NoUpdate routers req code r h same =
      let found = find_router (web.split_host_port req.remote_addr) routers in
      elim (answer_router-status code found h) [
        | inl bad ↦ inl (ground (arith, same, bad))
        | inr denied ↦ inr (inl (ground (arith, same, denied)))
      ]

  assignments-NoUpdate :
      (routers : List BatchRouterAuth) (req : Request) (uri : Uri) (router_ip : Bytes)
      (creds : Bytes × Bytes) (r : Response)
      → web.parse_uri req.request_uri ≡ some uri
      → assignments web req uri router_ip creds
          (answer_router (find_router (web.split_host_port req.remote_addr) routers))
        ≡ finished r
      → r.update ≡ none
      → NoUpdate routers req r
  assignments-NoUpdate routers req uri router_ip creds r parsed e h =
      let start = answer_router (find_router (web.split_host_port req.remote_addr) routers) in
      elim (assignments-Declines req uri router_ip creds start r e h) [
        | inl denied ↦ write_header-NoUpdate routers req 401 r (inr refl) denied
        | inr checks ↦ elim (read-Declines start req uri router_ip _ r refl checks h) [
          | inl bad ↦ write_header-NoUpdate routers req 400 r (inl refl) bad
          | inr (lease, read, d) ↦ Declines-NoUpdate routers req uri lease r parsed read d
        ]
      ]

  -- If the handler finishes without an update it has set 400 or 401, or it has set no status, and
  -- then the router is known, the lease could be read, its MAC address is good and its IP address
  -- is missing.
  pub endpoint_no_update :
      (routers : List BatchRouterAuth) (req : Request) (r : Response)
      → endpoint web routers req ≡ finished r
      → r.update ≡ none
      → (r.status ≡ some 400) ⊎ (r.status ≡ some 401) ⊎ ((r.status ≡ none) × IsSilent routers req)
  unfolding endpoint
  endpoint_no_update routers req r e h =
      let host = web.split_host_port req.remote_addr in
      let found = find_router host routers in
      elim (Option-cases (web.parse_uri req.request_uri)) [
        | inl bad ↦ absurd (ground (arith, bad, e))
        | inr (uri, parsed) ↦ elim (Option-cases (web.ip.parse_ip host)) [
          | inl no_ip ↦ inl (ground (arith, parsed, no_ip, e))
          | inr (ip, is_ip) ↦ elim (Bool-cases (str_eq uri.path (bytes "/api/dhcp_assignments"))) [
            | inl here ↦
                assignments-NoUpdate routers req uri ip (get_or found ([], [])) r parsed
                  (rw (parsed, endpoint, is_ip, here) at e) h
            | inr elsewhere ↦
                write_header-NoUpdate routers req 400 r (inl refl)
                  (ground (arith, parsed, is_ip, elsewhere, e))
          ]
        ]
      ]
