-- ===== src/Net/Mac.antt =====
-- net.ParseMAC and net.HardwareAddr's String.
pub mod RoundTrip
use dhcp_batcher.Common.{
  ℕ, zero, suc, ◌+◌, ◌-◌, ◌*◌, ◌/◌, ◌%◌, Bytes, Bool, true, false, ◌&&◌, ◌||◌, Option, none, some,
  List, [], ◌∷◌, length, get_elem?, leb, ltb, ◌==◌, if◌then◌else◌, ◌>>=◌,
}

-- The value of a hexadecimal digit, in either case.
unfoldable pub hex_value : ℕ → Option ℕ
hex_value c =
    if leb b'0' c && leb c b'9'
    then some (c - b'0')
    else if leb b'a' c && leb c b'f'
    then some (c - b'a' + 10)
    else if leb b'A' c && leb c b'F'
    then some (c - b'A' + 10)
    else none

unfoldable pub hex_digit : ℕ → ℕ
hex_digit n = if ltb n 10 then b'0' + n else b'a' + (n - 10)

-- One byte of two digits (xtoi2).
unfoldable pub hex_byte : ℕ → ℕ → Option ℕ
unfolding hex_value
hex_byte hi lo = do h ← hex_value hi; l ← hex_value lo; some (h * 16 + l)

-- `n` octets, each but the last followed by the separator: aa:bb:cc.
unfoldable pub octets : ℕ → ℕ → Bytes → Option Bytes
octets sep (suc zero) (a ∷ b ∷ []) = do x ← hex_byte a b; some (x ∷ [])
octets sep (suc (suc n)) (a ∷ b ∷ s ∷ rest) = elim (s == sep) [
  | true ↦ (do x ← hex_byte a b; xs ← octets sep (suc n) rest; some (x ∷ xs))
  | false ↦ none
]
octets sep n s = none

-- `n` pairs of octets, separated by dots: aabb.ccdd.
unfoldable pub dotted : ℕ → Bytes → Option Bytes
dotted (suc zero) (a ∷ b ∷ c ∷ d ∷ []) = do x ← hex_byte a b; y ← hex_byte c d; some (x ∷ y ∷ [])
dotted (suc (suc n)) (a ∷ b ∷ c ∷ d ∷ s ∷ rest) = elim (s == b'.') [
  | true ↦ (do x ← hex_byte a b; y ← hex_byte c d; xs ← dotted (suc n) rest; some (x ∷ y ∷ xs))
  | false ↦ none
]
dotted n s = none

-- The lengths of an address: 48 bits, 64 bits, or the 20 bytes of InfiniBand.
unfoldable pub is_mac_size : ℕ → Bool
is_mac_size n = n == 6 || n == 8 || n == 20

-- The two forms, each with its test of the length.
unfoldable pub parse_octets : ℕ → Bytes → Option Bytes
parse_octets sep s =
    let n = (length s + 1) / 3 in
    if (length s + 1) % 3 == 0 && is_mac_size n then octets sep n s else none

unfoldable pub parse_dotted : Bytes → Option Bytes
parse_dotted s =
    let n = (length s + 1) / 5 in
    if (length s + 1) % 5 == 0 && is_mac_size (2 * n) then dotted n s else none

-- The text is long enough and the separator at its place decides the form.
unfoldable pub parse_mac : Bytes → Option Bytes
parse_mac s = if ltb (length s) 14 then none else (do
  sep ← get_elem? s 2
  dot ← get_elem? s 4
  if sep == b':' || sep == b'-'
      then parse_octets sep s
      else if dot == b'.'
      then parse_dotted s
      else none)

-- Lower-case octets with colons, and the empty text for a nil address.
unfoldable pub mac_string : Bytes → Bytes
mac_string [] = []
mac_string (x ∷ []) = hex_digit (x / 16) ∷ hex_digit (x % 16) ∷ []
mac_string (x ∷ y ∷ xs) = hex_digit (x / 16) ∷ hex_digit (x % 16) ∷ b':' ∷ mac_string (y ∷ xs)
