-- ===== src/Endpoint/Auth.antt =====
-- Whom BatchModeEndpointRouter (proxybatcher/batch_mode.go) lets write to the batch table.
use dhcp_batcher.Common.{
  ℕ, Bytes, bytes, str_eq, str_eq_iff, str_eq_refl, true, ◌&&◌, Option, none, some, List, [], ◌≡◌,
  ◌↔◌, ◌⊎◌, inl, inr, refl, sym, ap, ◌∙◌, arith, get_or, Option-cases, Bool-cases,
}
use mathlib.Core.Path.{subst}
use dhcp_batcher.Options.{BatchRouterAuth}
use dhcp_batcher.Endpoint.{
  EndpointBatchRequest, Uri, Request, Web, Update, Response, finished, answer_router, write_header,
  Check, accept, reject, panic, ◌>>=◌, find_router, read_lease, check_lease, conclude, assignments,
  endpoint,
}
use dhcp_batcher.Endpoint.Accept.{Accepts, check_lease_iff}

module _ (web : Web) (routers : List BatchRouterAuth) (req : Request) where
  -- The host of the request's remote address, and the credentials that are asked of it: those of
  -- the first configured router with that address, and empty ones if there is none.
  abbrev pub remote_host : Bytes
  remote_host = web.split_host_port req.remote_addr

  abbrev pub expected_credentials : Bytes × Bytes
  expected_credentials = get_or (find_router remote_host routers) ([], [])

  abbrev pub found_status : ℕ
  found_status = elim (find_router remote_host routers) [ none ↦ 401 | some _ ↦ 200 ]

  -- A request to the endpoint, from an address, with the credentials that are asked of it, whose
  -- lease is readable and acceptable and stands for the update.
  pub record Authorised (u : Update) : Type 0 where
    pub uri : Uri
    pub parsed : web.parse_uri req.request_uri ≡ some uri
    pub path : uri.path ≡ bytes "/api/dhcp_assignments"
    pub router_ip : web.ip.parse_ip remote_host ≡ some u.router_ip
    pub credentials : req.auth ≡ some expected_credentials
    pub lease : EndpointBatchRequest
    pub readable : read_lease web req uri ≡ accept lease
    pub accepted : Accepts web u.router_ip lease u

  conclude-update :
      (r : Response) (c : Check Update) {r' : Response} (u : Update)
      → conclude web r c ≡ finished r'
      → r.update ≡ none
      → r'.update ≡ some u
      → (c ≡ accept u) × (r' ≡ write_header 200 (record r { update = some u }))
  conclude-update r (accept v) u e fresh h = ground arith
  conclude-update r (reject none) u e fresh h = absurd (ground arith)
  conclude-update r (reject (some code)) u e fresh h = absurd (ground arith)
  conclude-update r panic u e fresh h = absurd (ground arith)

  assignments-update :
      (uri : Uri) (router_ip : Bytes) (creds : Bytes × Bytes) (r : Response) {r' : Response}
      (u : Update)
      → assignments web req uri router_ip creds r ≡ finished r'
      → r.update ≡ none
      → r'.update ≡ some u
      → (req.auth ≡ some creds)
        × (((read_lease web req uri >>= check_lease web router_ip) ≡ accept u)
            × (r' ≡ write_header 200 (record r { update = some u })))
  unfolding assignments
  assignments-update uri router_ip (ru, rp) r u e fresh h = elim (Option-cases req.auth) [
    | inl missing ↦ absurd (ground (arith, missing, e, fresh, h))
    | inr ((name, pass), given) ↦
        let same_name = str_eq_iff ru name in
        let same_pass = str_eq_iff rp pass in
        let checks = read_lease web req uri >>= check_lease web router_ip in
        elim (Bool-cases (str_eq ru name && str_eq rp pass)) [
          | inl match ↦ (
            ground (arith, match, same_name, same_pass, given),
            conclude-update r checks u (rw (given, assignments, match) at e) fresh h,
          )
          | inr differ ↦ absurd (ground (arith, differ, given, e, fresh, h))
        ]
  ]

  -- The response of a handler that has started an update.
  abbrev pub updated : Update → Response
  updated u = record { status = some found_status; update = some u }

  bind-eq-accept :
      (router_ip : Bytes) (c : Check EndpointBatchRequest) (u : Update)
      → (c >>= check_lease web router_ip) ≡ accept u
      → (lease : EndpointBatchRequest) × (c ≡ accept lease) × Accepts web router_ip lease u
  bind-eq-accept router_ip (accept lease) u e =
      (lease, refl, (check_lease_iff web router_ip lease u).0 e)
  bind-eq-accept router_ip (reject code) u e = absurd (ground arith)
  bind-eq-accept router_ip panic u e = absurd (ground arith)

  answer_router_fresh : (found : Option (Bytes × Bytes)) → (answer_router found).update ≡ none
  answer_router_fresh none = refl
  answer_router_fresh (some creds) = refl

  answer_router-updated :
      (u : Update)
      → write_header 200
          (record (answer_router (find_router remote_host routers)) { update = some u })
        ≡ updated u
  answer_router-updated u = ground arith

  endpoint-update_sound :
      (u : Update) (r : Response)
      → endpoint web routers req ≡ finished r
      → r.update ≡ some u
      → Authorised u × (r ≡ updated u)
  unfolding endpoint
  endpoint-update_sound u r e h = elim (Option-cases (web.parse_uri req.request_uri)) [
    | inl bad ↦ absurd (ground (arith, bad, e))
    | inr (uri, parsed) ↦ elim (Option-cases (web.ip.parse_ip remote_host)) [
      | inl no_ip ↦ absurd (ground (arith, parsed, no_ip, e, h))
      | inr (router_ip, is_ip) ↦
          elim (Bool-cases (str_eq uri.path (bytes "/api/dhcp_assignments"))) [
            | inl here ↦
                let found = find_router remote_host routers in
                let e' = rw (parsed, endpoint, is_ip, here) at e in
                let (credentials, (checks, same)) =
                  assignments-update uri router_ip expected_credentials (answer_router found) u e'
                    (answer_router_fresh found) h in
                let (lease, readable, accepted) =
                  bind-eq-accept router_ip (read_lease web req uri) u checks in
                let same_ip = sym accepted.router in
                (
                  record {
                    uri = uri;
                    parsed = parsed;
                    path = (str_eq_iff _ _).0 here;
                    router_ip = is_ip ∙ ap some same_ip;
                    credentials = credentials;
                    lease = lease;
                    readable = readable;
                    accepted = subst (λ ip. Accepts web ip lease u) same_ip accepted;
                  },
                  same ∙ answer_router-updated u,
                )
            | inr elsewhere ↦ absurd (
                ground (
                  arith,
                  parsed,
                  is_ip,
                  elsewhere,
                  e,
                  h,
                  answer_router_fresh (find_router remote_host routers),
                ))
          ]
    ]
  ]

  assignments_accept :
      (uri : Uri) (router_ip : Bytes) (creds : Bytes × Bytes) (r : Response) (u : Update)
      → req.auth ≡ some creds
      → (read_lease web req uri >>= check_lease web router_ip) ≡ accept u
      → assignments web req uri router_ip creds r
        ≡ finished (write_header 200 (record r { update = some u }))
  unfolding assignments
  assignments_accept uri router_ip (ru, rp) r u given checks =
      rw (given, assignments, str_eq_refl ru, str_eq_refl rp, checks) refl

  endpoint-update_complete :
      (u : Update) → Authorised u → endpoint web routers req ≡ finished (updated u)
  unfolding endpoint
  endpoint-update_complete u a =
      let here : str_eq a.uri.path (bytes "/api/dhcp_assignments") ≡ true =
        (str_eq_iff _ _).1 a.path in
      let checks : (read_lease web req a.uri >>= check_lease web u.router_ip) ≡ accept u =
        rw a.readable ((check_lease_iff web u.router_ip a.lease u).1 a.accepted) in
      let found = find_router remote_host routers in
      let run =
        assignments_accept a.uri u.router_ip expected_credentials (answer_router found) u
          a.credentials checks in
      rw (a.parsed, endpoint, a.router_ip, here) (run ∙ ap finished (answer_router-updated u))

  -- The handler finishes with a response that starts an update exactly when the request is
  -- authorised for that update (a parsed URI of the endpoint, a remote address, the credentials
  -- that are asked of it, a readable and acceptable lease) and the response is that of an update,
  -- 200 for a configured router and 401 for one that is not.
  pub endpoint-update_iff :
      (u : Update) (r : Response)
      → ((endpoint web routers req ≡ finished r) × (r.update ≡ some u))
        ↔ (Authorised u × (r ≡ updated u))
  endpoint-update_iff u r = (
    λ (e, h). endpoint-update_sound u r e h,
    λ (a, same). rw same (endpoint-update_complete u a, refl),
  )

  -- If an update is started, either the router is configured, its credentials were given and the
  -- status is 200, or no router has the address, both credentials were given as empty texts and the
  -- status is 401.
  pub endpoint-update_cases :
      (u : Update) (r : Response)
      → endpoint web routers req ≡ finished r
      → r.update ≡ some u
      → ((creds : Bytes × Bytes) × (find_router remote_host routers ≡ some creds)
          × (req.auth ≡ some creds)
          × (r.status ≡ some 200))
        ⊎ ((find_router remote_host routers ≡ none)
            × (req.auth ≡ some ([], []))
            × (r.status ≡ some 401))
  endpoint-update_cases u r e h =
      let (a, same) = endpoint-update_sound u r e h in
      elim (Option-cases (find_router remote_host routers)) [
        | inl unknown ↦ inr (unknown, rw unknown at a.credentials, ground (arith, same, unknown))
        | inr (creds, known) ↦
            inl (creds, known, rw known at a.credentials, ground (arith, same, known))
      ]

  -- A request for an acceptable lease with an empty user name and password from an address that no
  -- configured router has is answered 401, and its update is started.
  pub unknown_router-update :
      (u : Update) (uri : Uri) (lease : EndpointBatchRequest)
      → find_router remote_host routers ≡ none
      → req.auth ≡ some ([], [])
      → web.parse_uri req.request_uri ≡ some uri
      → uri.path ≡ bytes "/api/dhcp_assignments"
      → web.ip.parse_ip remote_host ≡ some u.router_ip
      → read_lease web req uri ≡ accept lease
      → Accepts web u.router_ip lease u
      → endpoint web routers req ≡ finished (record { status = some 401; update = some u })
  unknown_router-update u uri lease unknown given parsed path is_ip readable accepted =
      let a : Authorised u = record {
        uri = uri;
        parsed = parsed;
        path = path;
        router_ip = is_ip;
        credentials = rw unknown given;
        lease = lease;
        readable = readable;
        accepted = accepted;
      } in
      ground (arith, endpoint-update_complete u a, unknown)
