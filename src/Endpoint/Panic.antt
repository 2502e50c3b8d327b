-- ===== src/Endpoint/Panic.antt =====
-- When BatchModeEndpointRouter (proxybatcher/batch_mode.go) panics.
use dhcp_batcher.Common.{
  Bytes, bytes, Option, none, some, List, [], ◌∷◌, ◌≡◌, ◌≢◌, ◌↔◌, inl, inr, refl, arith, get_or,
  Option-cases,
}
use dhcp_batcher.GoMap.{lookup}
use dhcp_batcher.Options.{BatchRouterAuth}
use dhcp_batcher.Endpoint.{
  EndpointBatchRequest, Uri, Request, Web, Response, panicked, answer_router, Check, accept, reject,
  panic, ◌>>=◌, find_router, first_value, read_get, read_post, read_lease, check_lease, conclude,
  assignments, endpoint,
}

-- url.ParseQuery never returns a name without a value.
abbrev pub HasValues : List (Bytes × List Bytes) → Type 0
HasValues q = (name : Bytes) → lookup name q ≢ some []

first_value-HasValues :
    (name : Bytes) (q : List (Bytes × List Bytes))
    → HasValues q
    → (v : Bytes) × (first_value name q ≡ accept v)
unfolding first_value
first_value-HasValues name q h = by_lookup (lookup name q) refl
  where
    by_lookup :
        (o : Option (List Bytes))
        → lookup name q ≡ o
        → (v : Bytes) × (first_value name q ≡ accept v)
    by_lookup none e = ([], ground arith)
    by_lookup (some []) e = absurd (h name e)
    by_lookup (some (v ∷ vs)) e = (v, ground arith)

read_get-HasValues :
    (q : List (Bytes × List Bytes))
    → HasValues q
    → (lease : EndpointBatchRequest) × (read_get q ≡ accept lease)
unfolding read_get
read_get-HasValues q h =
    let (ip, e1) = first_value-HasValues (bytes "ip_address") q h in
    let (mac, e2) = first_value-HasValues (bytes "leased_mac_address") q h in
    let (expired, e3) = first_value-HasValues (bytes "expired") q h in
    let (rid, e4) = first_value-HasValues (bytes "remote_id") q h in
    (
      record { leased_mac_address = mac; ip_address = ip; remote_id = rid; expired = expired },
      rw (e1, e2, e3, e4),
    )

module _ (web : Web) where
  check_lease-ne-panic :
      (router_ip : Bytes) (lease : EndpointBatchRequest) → check_lease web router_ip lease ≢ panic
  unfolding check_lease
  check_lease-ne-panic router_ip lease e = ground arith

  -- Every name that the query of the URI holds has a value.
  abbrev pub QueryHasValues : Uri → Type 0
  QueryHasValues uri =
      (q : List (Bytes × List Bytes)) → web.parse_query uri.raw_query ≡ some q → HasValues q

  read_post-ne-panic : (body : Option Bytes) → read_post web body ≢ panic
  unfolding read_post
  read_post-ne-panic body e = ground arith

  read_lease-ne-panic :
      (req : Request) (uri : Uri) → QueryHasValues uri → read_lease web req uri ≢ panic
  unfolding read_lease
  read_lease-ne-panic req uri h e = elim (Option-cases (web.parse_query uri.raw_query)) [
    | inl bad ↦ ground (arith, bad, e)
    | inr (q, parsed) ↦
        let (lease, read) = read_get-HasValues q (h q parsed) in
        ground (arith, parsed, read, e, read_post-ne-panic req.body)
  ]

  conclude-ne-panicked :
      (r : Response) (req : Request) (uri : Uri) (router_ip : Bytes)
      → QueryHasValues uri
      → conclude web r (read_lease web req uri >>= check_lease web router_ip) ≢ panicked
  conclude-ne-panicked r req uri router_ip h e = by_read (read_lease web req uri) refl
    where
      by_read : (c : Check EndpointBatchRequest) → read_lease web req uri ≡ c → ⊥
      by_read (accept lease) e' = ground (arith, e, e', check_lease-ne-panic router_ip lease)
      by_read (reject code) e' = ground (arith, e, e')
      by_read panic e' = read_lease-ne-panic req uri h e'

  assignments-ne-panicked :
      (req : Request) (uri : Uri) (router_ip : Bytes) (creds : Bytes × Bytes) (r : Response)
      → QueryHasValues uri
      → assignments web req uri router_ip creds r ≢ panicked
  unfolding assignments
  assignments-ne-panicked req uri router_ip creds r h e =
      ground (arith, conclude-ne-panicked r req uri router_ip h, e)

  -- If the parser of queries gives every name a value, the handler panics exactly on a request URI
  -- that does not parse.
  pub endpoint-panicked_iff :
      (routers : List BatchRouterAuth) (req : Request)
      → ((uri : Uri) → web.parse_uri req.request_uri ≡ some uri → QueryHasValues uri)
      → (endpoint web routers req ≡ panicked) ↔ (web.parse_uri req.request_uri ≡ none)
  unfolding endpoint
  endpoint-panicked_iff routers req h = elim (Option-cases (web.parse_uri req.request_uri)) [
    | inl bad ↦ (λ _. bad, λ _. rw (bad, endpoint))
    | inr (uri, parsed) ↦
        let host = web.split_host_port req.remote_addr in
        let found = find_router host routers in
        let calm = λ (ip : Bytes).
          assignments-ne-panicked req uri ip (get_or found ([], [])) (answer_router found)
            (h uri parsed) in
        (
          λ e. elim (Option-cases (web.ip.parse_ip host)) [
            | inl no_ip ↦ absurd (ground (arith, parsed, no_ip, e))
            | inr (ip, is_ip) ↦ absurd (ground (arith, parsed, is_ip, e, calm ip))
          ],
          λ bad. absurd (ground (arith, parsed, bad)),
        )
  ]
