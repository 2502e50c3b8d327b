-- ===== src/Configurator/Password.antt =====
-- proxybatcher/configurator.go, GenerateRandomBytes and GenerateRandomString: the password that the
-- page of the routers offers.
use native.Mathlib.Omega.{arith}
use dhcp_batcher.Common.{
  ℕ, zero, suc, ◌+◌, ◌-◌, ◌%◌, ◌<◌, Bytes, bytes, Option, none, some, List, [], ◌∷◌, map, length,
  get_elem?, get_or, ◌≡◌, ◌↔◌, ◌⊎◌, inl, inr, Option-cases, refl, sym, ap, ◌∙◌, leb, ◌==◌,
  if◌then◌else◌, length-map,
}

abbrev pub letters : Bytes
letters = bytes "0123456789ABCDEFGHIJKLMNOPQRSTUVWXYZabcdefghijklmnopqrstuvwxyz_-"

-- GenerateRandomBytes: `read` is crypto/rand.Read, the bytes that it reads, or none for its error.
abbrev pub generate_random_bytes : (ℕ → Option Bytes) → ℕ → Option Bytes
generate_random_bytes read n = read n

-- `letters[b%byte(len(letters))]`; an index beyond the last letter, which would panic, does not occur.
unfoldable pub letter : ℕ → ℕ
letter b = get_or (get_elem? letters (b % 64)) 0

unfoldable pub generate_random_string : (ℕ → Option Bytes) → ℕ → Option Bytes
generate_random_string read n = elim (generate_random_bytes read n) [
  | none ↦ none
  | some b ↦ some (map letter b)
]

-- The number of a letter, by the ranges of ASCII.
position : ℕ → ℕ
position c =
    if leb c 45
    then 63
    else if leb c 57
    then c - 48
    else if leb c 90
    then c - 55
    else if c == 95
    then 62
    else c - 61

upto : ℕ → ℕ → List ℕ
upto k zero = []
upto k (suc n) = k ∷ upto (suc k) n

positions : map position letters ≡ upto 0 64
unfolding bytes position upto
positions = refl

position-letters :
    (xs : Bytes) (k n i : ℕ)
    → map position xs ≡ upto k n
    → i < n
    → (c : ℕ) × (get_elem? xs i ≡ some c) × (position c ≡ k + i)
unfolding upto
position-letters xs k zero i e h = absurd (omega arith)
position-letters [] k (suc n) i e h = absurd (ground arith)
position-letters (x ∷ xs) k (suc n) zero e h = (x, refl, ground arith)
position-letters (x ∷ xs) k (suc n) (suc i) e h =
    let (c, at, here) = position-letters xs (suc k) n i (ground arith) (omega arith) in
    (c, at, omega arith)

letter_number :
    (b : ℕ) → (get_elem? letters (b % 64) ≡ some (letter b)) × (position (letter b) ≡ b % 64)
unfolding letter
letter_number b =
    let (c, at, here) = position-letters letters 0 64 (b % 64) positions (omega arith) in
    rw at (refl, here ∙ omega arith)

-- Of the 256 bytes exactly the four that agree with a byte modulo 64 give the letter that it gives,
-- so a generated password is drawn evenly from the letters.
pub letter-uniform :
    (b c : ℕ)
    → b < 256
    → let i = c % 64 in
      (letter b ≡ letter c) ↔ ((b ≡ i) ⊎ (b ≡ i + 64) ⊎ (b ≡ i + 128) ⊎ (b ≡ i + 192))
letter-uniform b c h =
    let (at_b, here_b) = letter_number b in
    let (at_c, here_c) = letter_number c in
    (
      λ e. omega (arith, here_b, here_c, ap position e),
      λ four. ap (λ o. get_or o 0) (sym at_b ∙ ap (get_elem? letters) (omega (arith, four)) ∙ at_c),
    )

get-map :
    (f : ℕ → ℕ) (xs : Bytes) (i c : ℕ)
    → get_elem? xs i ≡ some c
    → get_elem? (map f xs) i ≡ some (f c)
get-map f [] i c e = absurd (ground arith)
get-map f (x ∷ xs) zero c e = ap (λ o. some (f (get_or o 0))) e
get-map f (x ∷ xs) (suc i) c e = get-map f xs i c e

-- A text that GenerateRandomString returns has the length of the bytes that were read, and each of
-- its bytes is the letter with the number of that byte modulo 64.
pub generate_random_string_lem :
    (read : ℕ → Option Bytes) (n : ℕ) (text : Bytes)
    → generate_random_string read n ≡ some text
    → (b : Bytes) × (read n ≡ some b)
      × (length text ≡ length b)
      × ((i c : ℕ) → get_elem? b i ≡ some c → get_elem? text i ≡ get_elem? letters (c % 64))
unfolding generate_random_string
generate_random_string_lem read n text e = elim (Option-cases (read n)) [
  | inl failed ↦ absurd (ground (arith, failed, e))
  | inr (b, got) ↦
      let same : text ≡ map letter b =
        sym (ap (λ o. get_or o []) (rw (generate_random_string, got) at e)) in
      (
        b,
        got,
        ap length same ∙ length-map b letter,
        λ i c at. ap (λ t. get_elem? t i) same ∙ get-map letter b i c at ∙ sym (letter_number c).0,
      )
]
