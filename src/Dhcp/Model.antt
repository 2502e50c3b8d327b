-- ===== src/Dhcp/Model.antt =====
-- A packet as the record of its fields, for examples: an instance of the interface Dhcp.
use dhcp_batcher.Common.{
  ℕ, Bytes, Bool, true, List, [], ◌∷◌, ◌++◌, ◌≡◌, ◌≢◌, refl, arith, length, All, ◌==◌, ◌&&◌, not,
  leb, get_or, length-drop, if◌then◌else◌, some,
}
use dhcp_batcher.Lease.{Options, option, to4}
use dhcp_batcher.Dhcp.{Fields, blank, last_option, IsAbsent, IsOptionMap, IsStorable, Dhcp}

-- A write to the map of options.
unfoldable pub store : ℕ → Bytes → Options → Options
store c v [] = (c, v) ∷ []
store c v ((k, w) ∷ m) = if k == c then (k, v) ∷ m else (k, w) ∷ store c v m

-- Only legal options can stand in a packet.
unfoldable pub is_storable : ℕ → Bytes → Bool
is_storable c v = leb (length v) 255 && not (c == 0) && not (c == 255)

unfoldable pub parse : List (ℕ × Bytes) → Options → Options
parse [] m = m
parse ((c, v) ∷ opts) m = parse opts (if is_storable c v then store c v m else m)

option-store :
    (c k : ℕ) (v : Bytes) (m : Options)
    → option c (store k v m) ≡ (if k == c then v else option c m)
unfolding option store
option-store c k v [] = ground arith
option-store c k v ((i, w) ∷ m) = ground (arith, option-store c k v m)

store-IsAbsent :
    (c k : ℕ) (v : Bytes) (m : Options) → c ≢ k → IsAbsent c m → IsAbsent c (store k v m)
unfolding store
store-IsAbsent c k v [] ne h = (ne, tt)
store-IsAbsent c k v ((i, w) ∷ m) ne h = ground (arith, store-IsAbsent c k v m ne)

store-IsOptionMap : (k : ℕ) (v : Bytes) (m : Options) → IsOptionMap m → IsOptionMap (store k v m)
unfolding store
store-IsOptionMap k v [] h = (tt, tt)
store-IsOptionMap k v ((i, w) ∷ m) h =
    ground (arith, store-IsAbsent i k v m, store-IsOptionMap k v m h.1)

store-IsStorable :
    (k : ℕ) (v : Bytes) (m : Options)
    → IsStorable (k, v)
    → All IsStorable m
    → All IsStorable (store k v m)
unfolding store
store-IsStorable k v [] s h = (s, tt)
store-IsStorable k v ((i, w) ∷ m) s h = ground (arith, store-IsStorable k v m s h.1)

pub parse-IsOptionMap :
    (opts : List (ℕ × Bytes)) (m : Options) → IsOptionMap m → IsOptionMap (parse opts m)
unfolding parse
parse-IsOptionMap [] m h = h
parse-IsOptionMap ((c, v) ∷ opts) m h =
    parse-IsOptionMap opts (if is_storable c v then store c v m else m)
      (ground (arith, store-IsOptionMap c v m h))

is_storable-IsStorable : (c : ℕ) (v : Bytes) → is_storable c v ≡ true → IsStorable (c, v)
unfolding is_storable
is_storable-IsStorable c v h = ground arith

IsStorable-is_storable : (c : ℕ) (v : Bytes) → IsStorable (c, v) → is_storable c v ≡ true
unfolding is_storable
IsStorable-is_storable c v h = ground arith

pub parse-IsStorable :
    (opts : List (ℕ × Bytes)) (m : Options) → All IsStorable m → All IsStorable (parse opts m)
unfolding parse
parse-IsStorable [] m h = h
parse-IsStorable ((c, v) ∷ opts) m h =
    parse-IsStorable opts (if is_storable c v then store c v m else m) (
      ground
        (arith, is_storable-IsStorable c v, λ (s : IsStorable (c, v)). store-IsStorable c v m s h))

-- The options as they stand in a packet.
unfoldable pub stored : List (ℕ × Bytes) → List (ℕ × Bytes)
stored [] = []
stored ((c, v) ∷ opts) = let rest = stored opts in if is_storable c v then (c, v) ∷ rest else rest

pub stored-append :
    (opts : List (ℕ × Bytes)) (c : ℕ) (v : Bytes)
    → IsStorable (c, v)
    → stored (opts ++ (c, v) ∷ []) ≡ stored opts ++ (c, v) ∷ []
unfolding stored
stored-append [] c v h = ground (arith, IsStorable-is_storable c v h)
stored-append ((k, w) ∷ opts) c v h = ground (arith, stored-append opts c v h)

pub option-parse :
    (c : ℕ) (opts : List (ℕ × Bytes)) (m : Options)
    → option c (parse opts m) ≡ last_option c (stored opts) (option c m)
unfolding parse last_option stored
option-parse c [] m = refl
option-parse c ((k, v) ∷ opts) m =
    ground (arith, option-parse c opts (store k v m), option-parse c opts m, option-store c k v m)

-- Four bytes, whatever was stored.
unfoldable pub four_bytes : Bytes → Bytes
four_bytes ip = get_or (to4 ip) (0 ∷ 0 ∷ 0 ∷ 0 ∷ [])

pub four_bytes-some : (ip v : Bytes) → to4 ip ≡ some v → four_bytes ip ≡ v
unfolding four_bytes
four_bytes-some ip v h = ground arith

to4_four : (ip : Bytes) → length ip ≡ 4 → to4 ip ≡ some ip
unfolding to4
to4_four ip h = ground arith

length-four_bytes : (ip : Bytes) → length (four_bytes ip) ≡ 4
unfolding four_bytes to4
length-four_bytes ip = ground (arith, length-drop 12 ip)

pub four_bytes_idem : (ip : Bytes) → four_bytes (four_bytes ip) ≡ four_bytes ip
four_bytes_idem ip =
    four_bytes-some (four_bytes ip) (four_bytes ip)
      (to4_four (four_bytes ip) (length-four_bytes ip))

abbrev pub read : Fields → Fields
read p = record p {
  h_len = length p.ch_addr;
  gi_addr = four_bytes p.gi_addr;
  options = stored p.options;
}

pub option-parse_nil :
    (c : ℕ) (opts : List (ℕ × Bytes)) → option c (parse opts []) ≡ last_option c (stored opts) []
unfolding option
option-parse_nil c opts = option-parse c opts []

pub read-blank : (op : ℕ) → read (blank op) ≡ blank op
unfolding stored four_bytes to4
read-blank op = refl

abbrev pub fields_dhcp : Dhcp
fields_dhcp = record {
  Packet = Fields;
  view = read;
  parse_options = λ p. parse p.options [];
  new_packet = blank;
  set_x_id = λ v p. record p { x_id = v };
  set_secs = λ v p. record p { secs = v };
  set_flags = λ v p. record p { flags = v };
  set_ci_addr = λ v p. record p { ci_addr = v };
  set_yi_addr = λ v p. record p { yi_addr = v };
  set_si_addr = λ v p. record p { si_addr = v };
  set_gi_addr = λ v p. record p { gi_addr = v };
  set_ch_addr = λ v p. record p { ch_addr = v };
  set_file = λ v p. record p { file = v };
  set_broadcast = λ b p. p;
  add_option = λ c v p. record p { options = p.options ++ (c, v) ∷ [] };
  new_packet-view = read-blank;
  set_x_id-view = λ q p. refl;
  set_secs-view = λ q p. refl;
  set_flags-view = λ q p. refl;
  set_ci_addr-view = λ q p. refl;
  set_yi_addr-view = λ q p. refl;
  set_si_addr-view = λ q p. refl;
  set_gi_addr-copy = λ q p. (λ i. record (read p) { gi_addr = four_bytes_idem q.gi_addr i });
  set_gi_addr-view = λ ip v p e. (λ i. record (read p) { gi_addr = four_bytes-some ip v e i });
  set_ch_addr-view = λ q p h. refl;
  set_file-view = λ q p. refl;
  set_broadcast-view = λ p h. refl;
  add_option-view = λ c v p h. (λ i. record (read p) { options = stored-append p.options c v h i });
  option-parse_options = λ c p. option-parse_nil c p.options;
  parse_options-IsOptionMap = λ p. parse-IsOptionMap p.options [] tt;
  parse_options-IsStorable = λ p. parse-IsStorable p.options [] tt;
}
