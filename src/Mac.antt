-- ===== src/Mac.antt =====
-- MAC addresses: src/macinfo.c and the macros of src/macinfo.h. A MACADDR is the list of its six
-- bytes, a C string the list of its characters; a 0 among them ends it.
pub mod Parse
pub mod Text
pub mod Generate
use tap_windows.Base.{
  ℕ, ◌+◌, ◌-◌, ◌*◌, ◌<◌, Bool, true, false, ◌&&◌, ◌||◌, List, [], ◌∷◌, ◌++◌, drop, Option, none,
  some, ltb, leb, ◌==◌, if◌then◌else◌, get_or, set, replicate, u8, bytes_eq, length, ◌≡◌, IsBytes,
}

abbrev pub Mac : Type 0
Mac = List ℕ

-- sizeof (MACADDR)
abbrev pub mac_size : ℕ
mac_size = 6

abbrev pub IsMac : Mac → Type 0
IsMac m = (length m ≡ mac_size) × IsBytes m

-- CLEAR_MAC
abbrev pub zero_mac : Mac
zero_mac = replicate mac_size 0

abbrev pub mac_equal : Mac → Mac → Bool
mac_equal = bytes_eq

unfoldable pub is_mac_delimiter : ℕ → Bool
is_mac_delimiter a = a == b':' || a == b'-' || a == b'.'

unfoldable pub is_hex_digit : ℕ → Bool
is_hex_digit c =
    (leb b'0' c && leb c b'9') || (leb b'A' c && leb c b'F') || (leb b'a' c && leb c b'f')

unfoldable pub hex_string_to_decimal_int : ℕ → ℕ
hex_string_to_decimal_int c =
    if leb b'A' c && leb c b'F'
    then c - b'A' + 10
    else if leb b'a' c && leb c b'f'
    then c - b'a' + 10
    else if leb b'0' c && leb c b'9'
    then c - b'0'
    else 0

-- The variables of ParseMAC.
pub record Parser : Type 0 where
  pub dest : Mac
  pub mac_index : ℕ
  pub high_digit : Bool
  pub delim_action : ℕ

abbrev pub start : Parser
start = record { dest = zero_mac; mac_index = 0; high_digit = false; delim_action = 1 }

-- The digit branch of the loop.
unfoldable pub parse_digit : ℕ → Parser → Parser
parse_digit digit p =
    if p.high_digit
    then record {
      dest = set p.dest p.mac_index (u8 (get_or p.dest p.mac_index 0 * 16 + digit));
      mac_index = p.mac_index + 1;
      high_digit = false;
      delim_action = 0;
    }
    else record p { dest = set p.dest p.mac_index (u8 digit); high_digit = true; delim_action = 1 }

-- One round of the loop; `none` is `return FALSE`.
unfoldable pub parse_char : ℕ → Parser → Option Parser
parse_char c p =
    if is_mac_delimiter c
    then some (record p {
      mac_index = p.mac_index + p.delim_action;
      high_digit = false;
      delim_action = 1;
    })
    else if is_hex_digit c && ltb p.mac_index mac_size
    then some (parse_digit (hex_string_to_decimal_int c) p)
    else none

abbrev pub parse_end : Parser → Bool × Mac
parse_end p = (leb mac_size (p.mac_index + p.delim_action), p.dest)

unfoldable pub parse_loop : List ℕ → Parser → Bool × Mac
parse_loop [] p = parse_end p
parse_loop (c ∷ src) p =
    if c == 0
    then parse_end p
    else elim (parse_char c p) [ none ↦ (false, p.dest) | some q ↦ parse_loop src q ]

-- ParseMAC into memory that begins with the six bytes of `dest`, which it clears first, and may go
-- on behind them: what it returns, and the memory.
unfoldable pub parse_mac_into : List ℕ → List ℕ → Bool × List ℕ
unfolding parse_loop
parse_mac_into memory src =
    parse_loop src (record start { dest = zero_mac ++ drop mac_size memory })

-- What ParseMAC returns, and what it leaves in `dest`.
unfoldable pub parse_mac : List ℕ → Bool × Mac
unfolding parse_loop
parse_mac src = parse_loop src start

-- The variables of GenerateRandomMac. The flags `brace` and `state` are 0 or 1.
pub record Generator : Type 0 where
  pub mac : Mac
  pub i : ℕ
  pub byte : ℕ
  pub brace : Bool
  pub state : Bool

-- `byte <<= 4; byte |= digit`: `byte` holds a digit there, so the bits do not overlap.
unfoldable pub random_digit : ℕ → Generator → Generator
random_digit digit g =
    if g.state
    then record g {
      byte = g.byte * 16 + digit;
      mac = set g.mac g.i (u8 (g.byte * 16 + digit));
      i = g.i + 1;
      state = false;
    }
    else record g { byte = digit; state = true }

unfoldable pub random_char : ℕ → Generator → Generator
random_char c g =
    let brace = if c == b'{' then true else g.brace in
    let g' : Generator = record g { brace = brace } in
    if is_hex_digit c && brace then random_digit (hex_string_to_decimal_int c) g' else g'

unfoldable pub random_loop : List ℕ → Generator → Mac
random_loop [] g = g.mac
random_loop (c ∷ name) g =
    if c == 0 || leb mac_size g.i then g.mac else random_loop name (random_char c g)

unfoldable pub generate_random_mac : List ℕ → Mac
generate_random_mac adapter_name = random_loop adapter_name (record {
  mac = 0x00 ∷ 0xff ∷ 0 ∷ 0 ∷ 0 ∷ 0 ∷ [];
  i = 2;
  byte = 0;
  brace = false;
  state = false;
})

-- ETH_COPY_NETWORK_ADDRESS (dest, src); dest[2] += (UCHAR) delta;
unfoldable pub generate_related_mac : Mac → ℕ → Mac
generate_related_mac src delta = set src 2 (u8 (get_or src 2 0 + u8 delta))
