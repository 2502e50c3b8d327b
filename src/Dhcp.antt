-- ===== src/Dhcp.antt =====
-- Package github.com/krolaw/dhcp4, which is not part of the repository, as proxybatcher/ uses it: an
-- interface of the calls, with what their documentation says of them as laws.
pub mod Copies
pub mod Model
use dhcp_batcher.Common.{
  ℕ, ◌≤◌, Bytes, Bool, false, Option, none, some, List, [], ◌∷◌, ◌++◌, ◌≡◌, ◌≢◌, All, length,
  get_or, ◌==◌, if◌then◌else◌,
}
use dhcp_batcher.Lease.{Options, option, to4}

-- What the accessors of a packet read; `options` are its options in the order in which they stand.
pub record Fields : Type 0 where
  pub op_code : ℕ
  pub h_len : ℕ
  pub x_id : Bytes
  pub secs : Bytes
  pub flags : Bytes
  pub ci_addr : Bytes
  pub yi_addr : Bytes
  pub si_addr : Bytes
  pub gi_addr : Bytes
  pub ch_addr : Bytes
  pub file : Bytes
  pub options : List (ℕ × Bytes)

abbrev pub boot_request : ℕ
boot_request = 1

abbrev pub boot_reply : ℕ
boot_reply = 2

abbrev pub zero_addr : Bytes
zero_addr = 0 ∷ 0 ∷ 0 ∷ 0 ∷ []

-- A new packet: all fields are zero but the operation.
abbrev pub blank : ℕ → Fields
blank op = record {
  op_code = op;
  h_len = 0;
  x_id = zero_addr;
  secs = 0 ∷ 0 ∷ [];
  flags = 0 ∷ 0 ∷ [];
  ci_addr = zero_addr;
  yi_addr = zero_addr;
  si_addr = zero_addr;
  gi_addr = zero_addr;
  ch_addr = [];
  file = [];
  options = [];
}

-- The value that a map built from the options holds: the last one under the code, or nil.
unfoldable pub last_option : ℕ → List (ℕ × Bytes) → Bytes → Bytes
last_option code [] v = v
last_option code ((c, w) ∷ opts) v = last_option code opts (if c == code then w else v)

-- A code is not among the options.
abbrev pub IsAbsent : ℕ → Options → Type 0
IsAbsent code [] = Unit
IsAbsent code ((c, v) ∷ opts) = (code ≢ c) × IsAbsent code opts

-- A map: every code stands once.
abbrev pub IsOptionMap : Options → Type 0
IsOptionMap [] = Unit
IsOptionMap ((c, v) ∷ opts) = IsAbsent c opts × IsOptionMap opts

-- An option that a packet can hold: codes 0 and 255 are the padding and the end.
abbrev pub IsStorable : ℕ × Bytes → Type 0
IsStorable e = (length e.1 ≤ 255) × (e.0 ≢ 0) × (e.0 ≢ 255)

-- The setters take values that were read from a packet, as the proxy calls them; SetGIAddr takes any
-- IPv4 address. SetBroadcast(false) leaves flags that are zero. A hardware address has at most 16
-- bytes.
pub record Dhcp : Type 1 where
  pub Packet : Type 0
  pub view : Packet → Fields
  pub parse_options : Packet → Options
  pub new_packet : ℕ → Packet
  pub set_x_id : Bytes → Packet → Packet
  pub set_secs : Bytes → Packet → Packet
  pub set_flags : Bytes → Packet → Packet
  pub set_ci_addr : Bytes → Packet → Packet
  pub set_yi_addr : Bytes → Packet → Packet
  pub set_si_addr : Bytes → Packet → Packet
  pub set_gi_addr : Bytes → Packet → Packet
  pub set_ch_addr : Bytes → Packet → Packet
  pub set_file : Bytes → Packet → Packet
  pub set_broadcast : Bool → Packet → Packet
  pub add_option : ℕ → Bytes → Packet → Packet
  pub new_packet-view : (op : ℕ) → view (new_packet op) ≡ blank op
  pub set_x_id-view :
      (q p : Packet) → view (set_x_id (view q).x_id p) ≡ record (view p) { x_id = (view q).x_id }
  pub set_secs-view :
      (q p : Packet) → view (set_secs (view q).secs p) ≡ record (view p) { secs = (view q).secs }
  pub set_flags-view :
      (q p : Packet)
      → view (set_flags (view q).flags p) ≡ record (view p) { flags = (view q).flags }
  pub set_ci_addr-view :
      (q p : Packet)
      → view (set_ci_addr (view q).ci_addr p) ≡ record (view p) { ci_addr = (view q).ci_addr }
  pub set_yi_addr-view :
      (q p : Packet)
      → view (set_yi_addr (view q).yi_addr p) ≡ record (view p) { yi_addr = (view q).yi_addr }
  pub set_si_addr-view :
      (q p : Packet)
      → view (set_si_addr (view q).si_addr p) ≡ record (view p) { si_addr = (view q).si_addr }
  pub set_gi_addr-copy :
      (q p : Packet)
      → view (set_gi_addr (view q).gi_addr p) ≡ record (view p) { gi_addr = (view q).gi_addr }
  pub set_gi_addr-view :
      (ip v : Bytes) (p : Packet)
      → to4 ip ≡ some v
      → view (set_gi_addr ip p) ≡ record (view p) { gi_addr = v }
  pub set_ch_addr-view :
      (q p : Packet)
      → (view q).h_len ≤ 16
      → view (set_ch_addr (view q).ch_addr p)
        ≡ record (view p) { ch_addr = (view q).ch_addr; h_len = (view q).h_len }
  pub set_file-view :
      (q p : Packet) → view (set_file (view q).file p) ≡ record (view p) { file = (view q).file }
  pub set_broadcast-view :
      (p : Packet) → (view p).flags ≡ 0 ∷ 0 ∷ [] → view (set_broadcast false p) ≡ view p
  pub add_option-view :
      (code : ℕ) (v : Bytes) (p : Packet)
      → IsStorable (code, v)
      → view (add_option code v p)
        ≡ record (view p) { options = (view p).options ++ (code, v) ∷ [] }
  pub option-parse_options :
      (code : ℕ) (p : Packet) → option code (parse_options p) ≡ last_option code (view p).options []
  pub parse_options-IsOptionMap : (p : Packet) → IsOptionMap (parse_options p)
  pub parse_options-IsStorable : (p : Packet) → All IsStorable (parse_options p)
