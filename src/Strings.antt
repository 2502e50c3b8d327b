-- ===== src/Strings.antt =====
-- Packages strings and strconv of Go's standard library, as proxybatcher/ uses them: ToLower,
-- Replace of the first occurrence, and Atoi.
use dhcp_batcher.Common.{
  ℕ, zero, suc, ◌+◌, ◌-◌, ◌*◌, ◌^◌, Bytes, Bool, true, ◌&&◌, Option, none, some, [], ◌∷◌, map, ltb,
  leb, ◌==◌, if◌then◌else◌, ◌>>=◌, ℤ, pos, negsuc,
}

unfoldable pub is_ascii : Bytes → Bool
is_ascii [] = true
is_ascii (c ∷ s) = ltb c 128 && is_ascii s

unfoldable pub lower_byte : ℕ → ℕ
lower_byte c = if leb b'A' c && leb c b'Z' then c + 32 else c

-- strings.ToLower: byte by byte on an ASCII text; `unicode` is what it does with any other.
unfoldable pub to_lower : (Bytes → Bytes) → Bytes → Bytes
unfolding is_ascii lower_byte
to_lower unicode s = if is_ascii s then map lower_byte s else unicode s

-- Whether a text begins with another, and what follows then.
unfoldable pub strip_prefix : Bytes → Bytes → Option Bytes
strip_prefix [] s = some s
strip_prefix (p ∷ ps) [] = none
strip_prefix (p ∷ ps) (c ∷ s) = if p == c then strip_prefix ps s else none

-- strings.Replace(s, old, "", 1) for a non-empty `old`: the first occurrence is cut out.
unfoldable pub remove_first : Bytes → Bytes → Bytes
unfolding strip_prefix
remove_first old [] = []
remove_first old (c ∷ s) =
    let rest = c ∷ remove_first old s in
    elim (strip_prefix old (c ∷ s)) [ some after ↦ after | none ↦ rest ]

-- The number that decimal digits spell behind `n`; none at any other byte.
unfoldable pub digits_value : ℕ → Bytes → Option ℕ
digits_value n [] = some n
digits_value n (c ∷ s) =
    let rest = digits_value (n * 10 + (c - b'0')) s in
    if leb b'0' c && leb c b'9' then rest else none

-- One digit at least.
unfoldable pub parse_digits : Bytes → Option ℕ
unfolding digits_value
parse_digits [] = none
parse_digits (c ∷ s) = digits_value 0 (c ∷ s)

-- The negation of a number.
unfoldable pub negate : ℕ → ℤ
negate zero = pos 0
negate (suc n) = negsuc n

-- strconv.Atoi on a 64-bit machine: a sign, digits, and a value that an int holds.
unfoldable pub atoi : Bytes → Option ℤ
unfolding parse_digits negate
atoi [] = none
atoi (c ∷ s) =
    if c == b'-'
    then (do n ← parse_digits s; if leb n (2 ^ 63) then some (negate n) else none)
    else (do
      n ← parse_digits (if c == b'+' then s else c ∷ s)
      if ltb n (2 ^ 63) then some (pos n) else none)
