-- ===== src/Endpoint.antt =====
-- proxybatcher/batch_mode.go, BatchModeEndpointRouter: the endpoint that a router's script calls.
-- The calls of endpointLogger (Logging) are left out, except that one of them reads a field through a
-- nil pointer; startBatchModeServer is in System/Start.
pub mod Auth
pub mod Accept
pub mod Reject
pub mod Panic
pub mod Servers
use dhcp_batcher.Common.{
  ℕ, Bytes, bytes, str_eq, is_empty, Bool, true, false, not, ◌&&◌, ◌||◌, Option, none, some, List,
  [], ◌∷◌, length, ltb, leb, get_or, if◌then◌else◌, ℤ, pos, ltb_ℤ,
}
use dhcp_batcher.GoMap.{lookup}
use dhcp_batcher.Net.{IpText}
use dhcp_batcher.Net.Mac.{parse_mac, mac_string}
use dhcp_batcher.Options.{BatchRouterAuth}
use dhcp_batcher.Strings.{to_lower, atoi}

pub record EndpointBatchRequest : Type 0 where
  pub leased_mac_address : Bytes
  pub ip_address : Bytes
  pub remote_id : Bytes
  pub expired : Bytes

pub record Uri : Type 0 where
  pub path : Bytes
  pub raw_query : Bytes

-- http.Request: `auth` is what BasicAuth returns, `body` what ReadAll returns, none for its error.
pub record Request : Type 0 where
  pub remote_addr : Bytes
  pub request_uri : Bytes
  pub method : Bytes
  pub auth : Option (Bytes × Bytes)
  pub body : Option Bytes

-- The parsers of the packages net/url, net and encoding/json that the handler calls; none is an
-- error. `split_host_port` is the host that net.SplitHostPort returns, empty with an error, and
-- `unicode_lower` is what strings.ToLower does with a text that is not ASCII.
pub record Web : Type 0 where
  pub parse_uri : Bytes → Option Uri
  pub split_host_port : Bytes → Bytes
  pub parse_query : Bytes → Option (List (Bytes × List Bytes))
  pub unmarshal : Bytes → Option EndpointBatchRequest
  pub unicode_lower : Bytes → Bytes
  pub ip : IpText

-- The arguments of UpdateBatchTable.
pub record Update : Type 0 where
  pub expired : Bytes
  pub router_ip : Bytes
  pub host_addr : Bytes
  pub host_ip : Bytes
  pub remote_id : Bytes

-- What the handler has done: the status of the first call of WriteHeader, and the goroutine that
-- it has started.
pub record Response : Type 0 where
  pub status : Option ℕ
  pub update : Option Update

pub data Outcome : Type 0 where
  panicked : Outcome
  finished : Response → Outcome

abbrev pub untouched : Response
untouched = record { status = none; update = none }

-- A second call of WriteHeader has no effect.
abbrev pub write_header : ℕ → Response → Response
write_header code r = elim r.status [ none ↦ record r { status = some code } | some earlier ↦ r ]

-- The status that the client sees: 200, where the handler has set none.
abbrev pub sent_status : Response → ℕ
sent_status r = get_or r.status 200

-- The response after the search for the router: 401 if there is none with the address.
abbrev pub answer_router : Option (Bytes × Bytes) → Response
answer_router none = write_header 401 untouched
answer_router (some creds) = untouched

-- A step of the handler: a value, a return with or without a call of WriteHeader, or a panic.
pub data Check {ℓ} (A : Type ℓ) : Type ℓ where
  accept : A → Check A
  reject : Option ℕ → Check A
  panic : Check A

infixl 5 ◌>>=◌ ◌>>◌
abbrev pub ◌>>=◌ {ℓ κ} : {A : Type ℓ} {B : Type κ} → Check A → (A → Check B) → Check B
accept a >>= f = f a
reject code >>= f = reject code
panic >>= f = panic

abbrev pub ◌>>◌ {ℓ} : {B : Type ℓ} → Check (Unit {0}) → Check B → Check B
m >> k = m >>= λ _. k

-- Go on, or return.
abbrev pub guard : Bool → Option ℕ → Check (Unit {0})
guard true code = accept tt
guard false code = reject code

abbrev pub of_option {ℓ} : {A : Type ℓ} → Option A → ℕ → Check A
of_option none code = reject (some code)
of_option (some a) code = accept a

-- The loop over the configured routers: the credentials of the first with the address.
unfoldable pub find_router : Bytes → List BatchRouterAuth → Option (Bytes × Bytes)
find_router host [] = none
find_router host (v ∷ routers) =
    if str_eq v.router_ip host then some (v.username, v.password) else find_router host routers

-- `q[name][0]` where the name is there, and the empty text where it is not.
unfoldable pub first_value : Bytes → List (Bytes × List Bytes) → Check Bytes
first_value name q = elim (lookup name q) [
  | none ↦ accept []
  | some [] ↦ panic
  | some (v ∷ vs) ↦ accept v
]

unfoldable pub read_get : List (Bytes × List Bytes) → Check EndpointBatchRequest
read_get q = do
  ip_address ← first_value (bytes "ip_address") q
  mac ← first_value (bytes "leased_mac_address") q
  expired ← first_value (bytes "expired") q
  remote_id ← first_value (bytes "remote_id") q
  accept (record {
    leased_mac_address = mac;
    ip_address = ip_address;
    remote_id = remote_id;
    expired = expired;
  })

module _ (web : Web) where
  unfoldable pub read_post : Option Bytes → Check EndpointBatchRequest
  read_post body = do bytes_read ← of_option body 400; of_option (web.unmarshal bytes_read) 400

  -- The query is parsed whatever the method is.
  unfoldable pub read_lease : Request → Uri → Check EndpointBatchRequest
  read_lease req uri = do
    q ← of_option (web.parse_query uri.raw_query) 400
    if str_eq (to_lower web.unicode_lower req.method) (bytes "post")
        then read_post req.body
        else read_get q

  -- The sanity checks in their order. Where the address is missing the handler returns with no call
  -- of WriteHeader. The canonical texts are parsed again for the update, a failure giving nil.
  unfoldable pub check_lease : Bytes → EndpointBatchRequest → Check Update
  check_lease router_ip lease = do
    guard (not (is_empty lease.leased_mac_address)) (some 400)
    host_addr ← of_option (parse_mac lease.leased_mac_address) 400
    let leased_mac_address = mac_string host_addr
    guard (not (is_empty lease.ip_address)) none
    host_ip ← of_option (web.ip.parse_ip lease.ip_address) 400
    let ip_address = web.ip.ip_string host_ip
    guard (not (is_empty lease.expired)) (some 400)
    exp ← of_option (atoi lease.expired) 400
    guard (not (ltb_ℤ exp (pos 0) || ltb_ℤ (pos 1) exp)) (some 400)
    guard (leb 0 (length lease.remote_id) && leb (length lease.remote_id) 246) (some 400)
    accept (record {
      expired = lease.expired;
      router_ip = router_ip;
      host_addr = get_or (parse_mac leased_mac_address) [];
      host_ip = get_or (web.ip.parse_ip ip_address) [];
      remote_id = lease.remote_id;
    })

  -- How a chain of checks ends the handler.
  abbrev pub conclude : Response → Check Update → Outcome
  conclude r (accept u) = finished (write_header 200 (record r { update = some u }))
  conclude r (reject none) = finished r
  conclude r (reject (some code)) = finished (write_header code r)
  conclude r panic = panicked

  -- The case of /api/dhcp_assignments; the credentials are empty if no router was found.
  unfoldable pub assignments : Request → Uri → Bytes → Bytes × Bytes → Response → Outcome
  assignments req uri router_ip (router_username, router_password) r = elim req.auth [
    | none ↦ finished (write_header 401 r)
    | some (username, password) ↦
        if str_eq router_username username && str_eq router_password password
        then conclude r (read_lease req uri >>= check_lease router_ip)
        else finished (write_header 401 r)
  ]

  -- BatchModeEndpointRouter. A URI that does not parse makes it read RawQuery through a nil pointer.
  -- An unknown router is answered 401, and the handler goes on.
  unfoldable pub endpoint : List BatchRouterAuth → Request → Outcome
  endpoint routers req = elim (web.parse_uri req.request_uri) [
    | none ↦ panicked
    | some uri ↦
        let remote_host = web.split_host_port req.remote_addr in
        elim (web.ip.parse_ip remote_host) [
          | none ↦ finished (write_header 400 untouched)
          | some router_ip ↦
              let found = find_router remote_host routers in
              let r = answer_router found in
              if str_eq uri.path (bytes "/api/dhcp_assignments")
              then assignments req uri router_ip (get_or found ([], [])) r
              else finished (write_header 400 r)
        ]
  ]
