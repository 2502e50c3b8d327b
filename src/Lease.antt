-- ===== src/Lease.antt =====
-- proxybatcher/proxy_lease.go: the leases that the proxy has seen, by MAC address, and the timer
-- that marks them as expired. `none` is a run-time panic of Go. The log lines (printDebug,
-- printInfo) are in Lease/Printed.
pub mod Relay
pub mod Trim
pub mod Loop
pub mod Printed
pub mod Table
use dhcp_batcher.Common.{
  ℕ, suc, ◌+◌, ◌-◌, ◌%◌, ◌^◌, Bytes, bytes, str_eq, Bool, not, ◌&&◌, Option, none, some, List, [],
  ◌∷◌, ◌++◌, length, get_elem?, take, drop, ltb, leb, ◌==◌, if◌then◌else◌, ◌>>=◌,
}
use dhcp_batcher.GoMap.{insert}

pub record Lease : Type 0 where
  pub mac : Bytes
  pub ip : Bytes
  -- A net.IP of four bytes, or nil, as it is when the lease is made. It is a slice of the buffer that
  -- packets are read into, which later reads overwrite; only printDebug reads it (Lease/Printed).
  pub router : Option Bytes
  pub cid : Bytes
  pub rid : Bytes
  pub lease_time : ℕ  -- uint32, in seconds
  pub time_stamp : ℕ
  pub is_expired : Bytes

-- The field `entry` of leaseRecord.
abbrev pub LeaseTable : Type 0
LeaseTable = List (Bytes × Lease)

-- dhcp.Options: the parsed options of a packet, by code.
abbrev pub Options : Type 0
Options = List (ℕ × Bytes)

-- `options[code]`, nil for a code that is not there.
unfoldable pub option : ℕ → Options → Bytes
option code [] = []
option code ((c, v) ∷ opts) = if c == code then v else option code opts

abbrev pub option_router : ℕ
option_router = 3

abbrev pub option_relay_agent_information : ℕ
option_relay_agent_information = 82

-- The first bytes of an IPv4 address in the 16-byte form.
abbrev v4_prefix : Bytes
v4_prefix = 0 ∷ 0 ∷ 0 ∷ 0 ∷ 0 ∷ 0 ∷ 0 ∷ 0 ∷ 0 ∷ 0 ∷ 255 ∷ 255 ∷ []

-- net.IP's To4.
unfoldable pub to4 : Bytes → Option Bytes
to4 ip =
    if length ip == 4
    then some ip
    else if length ip == 16 && str_eq (take 12 ip) v4_prefix
    then some (drop 12 ip)
    else none

-- `backing[lo:hi]`, where `backing` is the slice up to its capacity.
unfoldable pub slice : Bytes → ℕ → ℕ → Option Bytes
slice backing lo hi =
    if leb lo hi && leb hi (length backing) then some (take (hi - lo) (drop lo backing)) else none

-- The circuit id and the remote id of option 82. `beyond` is what the packet's buffer holds behind
-- the option, since Go slices up to the capacity; `2+s1` is a sum of bytes, which wraps around.
unfoldable pub relay_ids : Bytes → Bytes → Option (Bytes × Bytes)
relay_ids beyond o =
    if ltb 2 (length o)
    then (do
      s1 ← get_elem? o 1
      cid ← slice (o ++ beyond) 2 ((2 + s1) % 256)
      rid ← slice (o ++ beyond) (length cid + 4) (length o)
      some (cid, rid))
    else some ([], [])

-- addLease: the lease is built before the table is locked, so a panic leaves the table as it was.
unfoldable pub add_lease : ℕ → Bytes → Bytes → Bytes → ℕ → Options → LeaseTable → Option LeaseTable
add_lease now beyond mac ip lease_time opts table = do
  (cid, rid) ← relay_ids beyond (option option_relay_agent_information opts)
  let a : Lease = record {
    mac = mac;
    ip = ip;
    router = to4 (option option_router opts);
    cid = cid;
    rid = rid;
    lease_time = lease_time;
    time_stamp = now;
    is_expired = bytes "0";
  }
  some (insert mac a table)

-- leaseRecord's init.
unfoldable pub init : LeaseTable
init = []

-- One lease in a round of the trim loop. The subtraction is that of uint32.
unfoldable pub trim_lease : Lease → Lease
trim_lease v =
    if ltb v.lease_time 10 && str_eq v.is_expired (bytes "0")
    then record v { lease_time = 0; is_expired = bytes "1" }
    else if not (str_eq v.is_expired (bytes "1"))
    then record v { is_expired = bytes "0"; lease_time = (v.lease_time + 2 ^ 32 - 10) % 2 ^ 32 }
    else v

-- What the round adds to the counters `updated` and `expired`.
unfoldable pub trim_counts : Lease → ℕ × ℕ
trim_counts v =
    if ltb v.lease_time 10 && str_eq v.is_expired (bytes "0")
    then (0, 1)
    else if not (str_eq v.is_expired (bytes "1"))
    then (1, 0)
    else (0, 0)

-- One round of trim: every lease is written back under its own key, so the order does not matter.
unfoldable pub trim : LeaseTable → LeaseTable
unfolding trim_lease
trim [] = []
trim ((k, v) ∷ table) = (k, trim_lease v) ∷ trim table

-- The counters after the round.
unfoldable pub trim_tally : LeaseTable → ℕ × ℕ
unfolding trim_counts
trim_tally [] = (0, 0)
trim_tally ((k, v) ∷ table) =
    let (updated, expired) = trim_tally table in
    let (u, e) = trim_counts v in (u + updated, e + expired)
