-- ===== src/Net.antt =====
-- Package net of Go's standard library, as proxybatcher/ uses it: hardware addresses in full, and
-- IP addresses as an interface. An address is the list of its bytes, and a nil address is [].
pub mod Mac
use dhcp_batcher.Common.{Bytes, Option, some, ◌≡◌, ℕ}
use Mac.{parse_mac, mac_string}

-- net.ParseIP and net.IP's String. The law is that a parsed address is printed in a form that
-- parses to the same address.
pub record IpText : Type 0 where
  pub parse_ip : Bytes → Option Bytes
  pub ip_string : Bytes → Bytes
  pub parse_ip-ip_string : (s ip : Bytes) → parse_ip s ≡ some ip → parse_ip (ip_string ip) ≡ some ip
