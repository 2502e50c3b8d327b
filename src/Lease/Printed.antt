-- ===== src/Lease/Printed.antt =====
-- proxybatcher/proxy_lease.go, printDebug and printInfo, and what addLease and trim write to the log.
use dhcp_batcher.Common.{
  ℕ, ◌+◌, ◌*◌, suc, Bytes, bytes, List, [], ◌∷◌, ◌++◌, ◌≡◌, refl, length, length-append, arith, ap,
  inl, inr, Bool-cases, Bool, true, false, if◌then◌else◌,
}
use dhcp_batcher.Lease.{Lease, LeaseTable, Options, option, trim_tally}
use dhcp_batcher.Logging.{LogLine, Level, debug_level, debug_line, info_line}

-- How the values that are not texts are printed: a count, a time, the router of a lease, and a byte
-- slice. The router shares its bytes with the buffer that packets are read into, so what is printed
-- for a lease depends on what the buffer holds at that moment, and is not determined by the lease.
pub record Printer : Type 0 where
  pub decimal : ℕ → Bytes
  pub time_text : ℕ → Bytes
  pub router_text : Lease → Bytes
  pub slice_text : Bytes → Bytes

-- A round of the loop of printDebug.
unfoldable pub debug_lines : Printer → Bytes → Lease → List LogLine
debug_lines p key v =
    debug_line []
    ∷ debug_line (bytes "    leaseRecord: " ++ key)
    ∷ debug_line (bytes "     circuit id: " ++ v.cid)
    ∷ debug_line (bytes "      remote id: " ++ v.rid)
    ∷ debug_line (bytes "      timestamp: " ++ p.time_text v.time_stamp)
    ∷ debug_line (bytes "     lease time: " ++ p.decimal v.lease_time)
    ∷ debug_line (bytes "             IP: " ++ v.ip)
    ∷ debug_line (bytes "      router IP: " ++ p.router_text v)
    ∷ debug_line (bytes "            MAC: " ++ v.mac)
    ∷ debug_line (bytes "     is expired: " ++ v.is_expired)
    ∷ debug_line []
    ∷ []

-- The loops over the table, in the order of their visits.
unfoldable pub print_debug : Printer → List (Bytes × Lease) → List LogLine
print_debug p [] = []
print_debug p ((i, v) ∷ order) = debug_lines p i v ++ print_debug p order

-- The line of a lease in printInfo.
unfoldable pub lease_text : Lease → Bytes
lease_text v =
    bytes "IP: " ++ (v.ip ++ (bytes " MAC: " ++ (v.mac ++ (bytes " expired: " ++ v.is_expired))))

unfoldable pub print_info : List (Bytes × Lease) → List LogLine
print_info [] = []
print_info ((i, v) ∷ order) = info_line (lease_text v) ∷ print_info order

abbrev pub option_renewal_time_value : ℕ
option_renewal_time_value = 58

abbrev pub is_debug : Level → Bool
is_debug debug_level = true
is_debug level = false

-- What addLease logs once the table is written and unlocked.
unfoldable pub add_lease_lines : Printer → Level → Options → List (Bytes × Lease) → List LogLine
add_lease_lines p level opts order =
    if is_debug level
    then debug_line
        (bytes "renewal lease time is : " ++ p.slice_text (option option_renewal_time_value opts))
      ∷ print_debug p order
    else print_info order

-- The last line of a round of trim, with its two counters.
unfoldable pub summary : Printer → ℕ × ℕ → Bytes
summary p (updated, expired) =
    bytes "trim - "
    ++ (p.decimal updated ++ (bytes " updated, " ++ (p.decimal expired ++ bytes " expired")))

-- What trim logs after a round over the table, with the two counters of that round.
unfoldable pub trim_lines : Printer → Level → LeaseTable → List (Bytes × Lease) → List LogLine
trim_lines p level table order =
    if is_debug level
    then print_debug p order ++ debug_line (summary p (trim_tally table)) ∷ []
    else print_info order ++ info_line (summary p (trim_tally table)) ∷ []

length-print_debug :
    (p : Printer) (order : List (Bytes × Lease)) → length (print_debug p order) ≡ 11 * length order
unfolding print_debug debug_lines
length-print_debug p [] = omega arith
length-print_debug p ((i, v) ∷ order) =
    omega
      (arith, length-append (debug_lines p i v) (print_debug p order), length-print_debug p order)

length-print_info : (order : List (Bytes × Lease)) → length (print_info order) ≡ length order
unfolding print_info
length-print_info [] = refl
length-print_info ((i, v) ∷ order) = ap suc (length-print_info order)

-- A round of trim logs one line at its end, and before it eleven lines for every lease at level debug and
-- one at any other.
pub length-trim_lines :
    (p : Printer) (level : Level) (table : LeaseTable) (order : List (Bytes × Lease))
    → length (trim_lines p level table order)
      ≡ (if is_debug level then 11 * length order else length order) + 1
unfolding trim_lines
length-trim_lines p level table order = elim (Bool-cases (is_debug level)) [
  | inl debug ↦
      rw (debug, trim_lines)
        (ground (
          arith,
          length-append (print_debug p order) (debug_line (summary p (trim_tally table)) ∷ []),
          length-print_debug p order,
        ))
  | inr other ↦
      rw (other, trim_lines)
        (ground (
          arith,
          length-append (print_info order) (info_line (summary p (trim_tally table)) ∷ []),
          length-print_info order,
        ))
]
