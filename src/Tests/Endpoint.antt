-- ===== src/Tests/Endpoint.antt =====
-- Tests of proxybatcher/batch_mode.go: one router, one lease, and parsers that know the texts of
-- these tests.
use dhcp_batcher.Common.{
  Bytes, bytes, str_eq, is_empty, Option, none, some, List, [], ◌∷◌, ◌≡◌, ◌↔◌, ◌⊎◌, inl, refl,
  arith, if◌then◌else◌,
}
use dhcp_batcher.GoMap.{lookup}
use dhcp_batcher.Net.{IpText}
use dhcp_batcher.Net.Mac.{
  parse_mac, mac_string, hex_digit, hex_byte, hex_value, octets, is_mac_size, parse_octets,
}
use dhcp_batcher.Options.{BatchRouterAuth}
use dhcp_batcher.Strings.{atoi, to_lower, is_ascii, lower_byte, digits_value, parse_digits, negate}
use dhcp_batcher.Endpoint.{
  EndpointBatchRequest, Uri, Request, Web, Update, Response, panicked, finished, find_router,
  first_value, read_get, read_lease, check_lease, assignments, endpoint,
}
use dhcp_batcher.Endpoint.Accept.{Accepts}
use dhcp_batcher.Endpoint.Auth.{Authorised, updated, endpoint-update_iff}
use dhcp_batcher.Endpoint.Panic.{QueryHasValues, endpoint-panicked_iff}
use dhcp_batcher.Endpoint.Reject.{IsSilent, endpoint_no_update}

abbrev pub router_text : Bytes
router_text = bytes "10.0.0.1"

abbrev pub host_text : Bytes
host_text = bytes "10.1.2.3"

abbrev pub router_ip : Bytes
router_ip = 10 ∷ 0 ∷ 0 ∷ 1 ∷ []

abbrev pub host_ip : Bytes
host_ip = 10 ∷ 1 ∷ 2 ∷ 3 ∷ []

-- The two addresses of the tests.
abbrev pub parse_two : Bytes → Option Bytes
parse_two s =
    if str_eq s router_text
    then some router_ip
    else if str_eq s host_text
    then some host_ip
    else none

abbrev pub print_two : Bytes → Bytes
print_two ip = if str_eq ip router_ip then router_text else host_text

pub print_two_lem : (s ip : Bytes) → parse_two s ≡ some ip → parse_two (print_two ip) ≡ some ip
unfolding bytes str_eq
print_two_lem s ip e = ground arith

abbrev pub ip_text : IpText
ip_text = record { parse_ip = parse_two; ip_string = print_two; parse_ip-ip_string = print_two_lem }

abbrev mac_text : Bytes
mac_text = bytes "02-00-00-00-00-0A"

-- The fields of the query; the query of a test is its IP address.
abbrev fields : Bytes → List (Bytes × List Bytes)
fields ip =
    (bytes "ip_address", ip ∷ [])
    ∷ (bytes "leased_mac_address", mac_text ∷ [])
    ∷ (bytes "expired", bytes "0" ∷ [])
    ∷ (bytes "remote_id", bytes "port-7" ∷ [])
    ∷ []

abbrev pub web : Web
web = record {
  parse_uri = λ s.
      if str_eq s (bytes "%")
      then none
      else some (record { path = bytes "/api/dhcp_assignments"; raw_query = s });
  split_host_port = λ s. s;
  parse_query = λ s. some (fields s);
  unmarshal = λ s. none;
  unicode_lower = λ s. s;
  ip = ip_text;
}

abbrev pub routers : List BatchRouterAuth
routers = record { username = bytes "edge"; password = bytes "pass"; router_ip = router_text } ∷ []

abbrev pub uri : Uri
uri = record { path = bytes "/api/dhcp_assignments"; raw_query = host_text }

abbrev pub request : Bytes → Option (Bytes × Bytes) → Request
request query auth = record {
  remote_addr = router_text;
  request_uri = query;
  method = bytes "GET";
  auth = auth;
  body = none;
}

abbrev pub good_request : Request
good_request = request host_text (some (bytes "edge", bytes "pass"))

abbrev silent_request : Request
silent_request = request [] (some (bytes "edge", bytes "pass"))

abbrev blank_request : Request
blank_request = request host_text (some ([], []))

abbrev pub lease : EndpointBatchRequest
lease = record {
  leased_mac_address = mac_text;
  ip_address = host_text;
  remote_id = bytes "port-7";
  expired = bytes "0";
}

abbrev pub change : Update
change = record {
  expired = bytes "0";
  router_ip = router_ip;
  host_addr = 2 ∷ 0 ∷ 0 ∷ 0 ∷ 0 ∷ 10 ∷ [];
  host_ip = host_ip;
  remote_id = bytes "port-7";
}

-- The MAC address is printed in its canonical form.
canonical_mac : mac_string change.host_addr ≡ bytes "02:00:00:00:00:0a"
unfolding mac_string bytes hex_digit
canonical_mac = refl

pub good_run :
    endpoint web routers good_request ≡ finished (updated web routers good_request change)
unfolding endpoint str_eq bytes assignments find_router read_lease to_lower read_get first_value
    lookup check_lease is_empty parse_mac parse_octets is_mac_size octets hex_byte hex_value atoi
    digits_value is_ascii lower_byte negate parse_digits mac_string hex_digit
good_run = refl

lease_Accepts : Accepts web router_ip lease change
unfolding bytes parse_mac parse_octets is_mac_size octets hex_byte is_empty str_eq atoi
lease_Accepts = record {
  mac = refl;
  ip_given = refl;
  ip = refl;
  flag = inl refl;
  short = ground arith;
  expired = refl;
  router = refl;
  remote_id = refl;
}

endpoint-update_iff_example :
    ((endpoint web routers good_request ≡ finished (updated web routers good_request change))
      × (some change ≡ some change))
    ↔ (Authorised web routers good_request change
        × (updated web routers good_request change ≡ updated web routers good_request change))
endpoint-update_iff_example =
    endpoint-update_iff web routers good_request change (updated web routers good_request change)

abbrev silent : Response
silent = record { status = none; update = none }

silent_run : endpoint web routers silent_request ≡ finished silent
unfolding endpoint str_eq bytes assignments find_router read_lease to_lower read_get first_value
    lookup check_lease is_empty parse_mac parse_octets is_mac_size octets hex_byte hex_value atoi
    digits_value is_ascii lower_byte negate parse_digits mac_string hex_digit
silent_run = refl

endpoint_no_update_example :
    (silent.status ≡ some 400)
    ⊎ (silent.status ≡ some 401)
    ⊎ ((silent.status ≡ none) × IsSilent web routers silent_request)
endpoint_no_update_example = endpoint_no_update web routers silent_request silent silent_run refl

query_HasValues : (u : Uri) → web.parse_uri good_request.request_uri ≡ some u → QueryHasValues web u
unfolding lookup
query_HasValues u parsed q read name e = ground arith

endpoint-panicked_iff_example :
    (endpoint web routers good_request ≡ panicked) ↔ (web.parse_uri good_request.request_uri ≡ none)
endpoint-panicked_iff_example = endpoint-panicked_iff web routers good_request query_HasValues
