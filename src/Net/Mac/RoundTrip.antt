-- ===== src/Net/Mac/RoundTrip.antt =====
-- The texts of hardware addresses, printed and parsed again.
use dhcp_batcher.Common.{
  ℕ, zero, suc, ◌+◌, ◌*◌, ◌/◌, ◌%◌, ◌<◌, ◌≡◌, refl, ap, Bytes, true, some, [], ◌∷◌, length, All,
  arith, ◌==◌, >>=-eq-some, some-injective, Bool-cases, ◌⊎◌, inl, inr,
}
use mathlib.Core.Path.{subst}
use dhcp_batcher.Net.Mac.{
  hex_value, hex_digit, hex_byte, octets, dotted, is_mac_size, parse_octets, parse_dotted,
  parse_mac, mac_string,
}

abbrev pub IsByte : ℕ → Type 0
IsByte x = x < 256

hex_value-hex_digit : (n : ℕ) → n < 16 → hex_value (hex_digit n) ≡ some n
unfolding hex_value hex_digit
hex_value-hex_digit n h = ground arith

hex_byte-hex_digit : (x : ℕ) → x < 256 → hex_byte (hex_digit (x / 16)) (hex_digit (x % 16)) ≡ some x
unfolding hex_byte
hex_byte-hex_digit x h = ground (arith, hex_value-hex_digit (x / 16), hex_value-hex_digit (x % 16))

octets-mac_string :
    (x : ℕ) (xs : Bytes)
    → All IsByte (x ∷ xs)
    → octets b':' (suc (length xs)) (mac_string (x ∷ xs)) ≡ some (x ∷ xs)
unfolding octets mac_string
octets-mac_string x [] (h, _) = rw (hex_byte-hex_digit x h) refl
octets-mac_string x (y ∷ ys) (h, hs) = rw (hex_byte-hex_digit x h, octets-mac_string y ys hs) refl

length-mac_string : (x : ℕ) (xs : Bytes) → length (mac_string (x ∷ xs)) ≡ 3 * length xs + 2
unfolding mac_string
length-mac_string x [] = refl
length-mac_string x (y ∷ ys) = omega (arith, length-mac_string y ys)

parse_octets-mac_string :
    (x : ℕ) (xs : Bytes)
    → All IsByte (x ∷ xs)
    → is_mac_size (length (x ∷ xs)) ≡ true
    → parse_octets b':' (mac_string (x ∷ xs)) ≡ some (x ∷ xs)
unfolding parse_octets
parse_octets-mac_string x xs h size =
    let count : (length (mac_string (x ∷ xs)) + 1) / 3 ≡ suc (length xs) =
      omega (arith, length-mac_string x xs) in
    rw count (ground (arith, octets-mac_string x xs h, length-mac_string x xs))

-- Every address of a legal length is read back from its printed form.
pub parse_mac-mac_string :
    (hw : Bytes)
    → All IsByte hw
    → is_mac_size (length hw) ≡ true
    → parse_mac (mac_string hw) ≡ some hw
unfolding parse_mac is_mac_size mac_string
parse_mac-mac_string [] h size = absurd (ground arith)
parse_mac-mac_string (x ∷ []) h size = absurd (ground arith)
parse_mac-mac_string (x ∷ y ∷ []) h size = absurd (ground arith)
parse_mac-mac_string (x ∷ y ∷ z ∷ xs) h size =
    ground (arith, parse_octets-mac_string x (y ∷ z ∷ xs) h size, length-mac_string x (y ∷ z ∷ xs))

hex_value-lt : (c : ℕ) {v : ℕ} → hex_value c ≡ some v → v < 16
unfolding hex_value
hex_value-lt c e = ground arith

hex_byte-lt : (a b : ℕ) {x : ℕ} → hex_byte a b ≡ some x → x < 256
unfolding hex_byte
hex_byte-lt a b e = ground (arith, hex_value-lt a, hex_value-lt b)

-- A list of octets of the expected number.
abbrev IsOctets : ℕ → Bytes → Type 0
IsOctets n hw = All IsByte hw × (length hw ≡ n)

octets-IsOctets : (sep n : ℕ) (s : Bytes) {hw : Bytes} → octets sep n s ≡ some hw → IsOctets n hw
unfolding octets
octets-IsOctets sep (suc zero) (a ∷ b ∷ []) {hw} e =
    let (x, ex, same) = >>=-eq-some (hex_byte a b) _ e in
    subst (IsOctets 1) (some-injective same) ((hex_byte-lt a b ex, tt), refl)
octets-IsOctets sep (suc (suc n)) (a ∷ b ∷ s ∷ rest) {hw} e = elim (Bool-cases (s == sep)) [
  | inl yes_sep ↦
      let (x, ex, e') = >>=-eq-some (hex_byte a b) _ (rw (yes_sep, octets) at e) in
      let (xs, exs, same) = >>=-eq-some (octets sep (suc n) rest) _ e' in
      let (fits, size) = octets-IsOctets sep (suc n) rest exs in
      subst (IsOctets (suc (suc n))) (some-injective same) ((hex_byte-lt a b ex, fits), ap suc size)
  | inr no_sep ↦ absurd (ground arith)
]
octets-IsOctets sep n s e = absurd (ground arith)

dotted-IsOctets : (n : ℕ) (s : Bytes) {hw : Bytes} → dotted n s ≡ some hw → IsOctets (2 * n) hw
unfolding dotted
dotted-IsOctets (suc zero) (a ∷ b ∷ c ∷ d ∷ []) e =
    let (x, ex, e') = >>=-eq-some (hex_byte a b) _ e in
    let (y, ey, same) = >>=-eq-some (hex_byte c d) _ e' in
    subst (IsOctets 2) (some-injective same) ((hex_byte-lt a b ex, (hex_byte-lt c d ey, tt)), refl)
dotted-IsOctets (suc (suc n)) (a ∷ b ∷ c ∷ d ∷ s ∷ rest) e = elim (Bool-cases (s == b'.')) [
  | inl yes_dot ↦
      let (x, ex, e') = >>=-eq-some (hex_byte a b) _ (rw (yes_dot, dotted) at e) in
      let (y, ey, e'') = >>=-eq-some (hex_byte c d) _ e' in
      let (xs, exs, same) = >>=-eq-some (dotted (suc n) rest) _ e'' in
      let (fits, size) = dotted-IsOctets (suc n) rest exs in
      subst (IsOctets (2 * suc (suc n))) (some-injective same)
        ((hex_byte-lt a b ex, (hex_byte-lt c d ey, fits)), omega arith)
  | inr no_dot ↦ absurd (ground arith)
]
dotted-IsOctets n s e = absurd (ground arith)

abbrev pub IsMac : Bytes → Type 0
IsMac hw = All IsByte hw × (is_mac_size (length hw) ≡ true)

parse_octets-IsMac : (sep : ℕ) (s : Bytes) {hw : Bytes} → parse_octets sep s ≡ some hw → IsMac hw
unfolding parse_octets
parse_octets-IsMac sep s {hw} e =
    let n = (length s + 1) / 3 in
    let found : octets sep n s ≡ some hw = ground arith in
    let (fits, size) = octets-IsOctets sep n s found in (fits, rw size (ground arith))

parse_dotted-IsMac : (s : Bytes) {hw : Bytes} → parse_dotted s ≡ some hw → IsMac hw
unfolding parse_dotted
parse_dotted-IsMac s {hw} e =
    let n = (length s + 1) / 5 in
    let found : dotted n s ≡ some hw = ground arith in
    let (fits, size) = dotted-IsOctets n s found in (fits, rw size (ground arith))

parse_mac-cases :
    (s : Bytes) {hw : Bytes}
    → parse_mac s ≡ some hw
    → (parse_octets b':' s ≡ some hw) ⊎ (parse_octets b'-' s ≡ some hw) ⊎ (parse_dotted s ≡ some hw)
unfolding parse_mac
parse_mac-cases s e = ground arith

-- What ParseMAC accepts is an address of a legal length in bytes.
pub parse_mac-IsMac : (s : Bytes) {hw : Bytes} → parse_mac s ≡ some hw → IsMac hw
parse_mac-IsMac s e = elim (parse_mac-cases s e) [
  | inl colons ↦ parse_octets-IsMac b':' s colons
  | inr (inl dashes) ↦ parse_octets-IsMac b'-' s dashes
  | inr (inr dots) ↦ parse_dotted-IsMac s dots
]

-- The canonical text of a parsed address parses to the same address.
pub parse_mac_canonical :
    (s : Bytes) {hw : Bytes} → parse_mac s ≡ some hw → parse_mac (mac_string hw) ≡ some hw
parse_mac_canonical s {hw} e =
    let (fits, size) = parse_mac-IsMac s e in parse_mac-mac_string hw fits size
