-- ===== src/Dhcp/Scan.antt =====
-- GetDHCPMessageType of src/dhcp.c: the walk through the options of a received message.
pub mod Safety
pub mod Grammar
use tap_windows.Base.{
  ℕ, zero, suc, ◌+◌, ◌-◌, List, Option, none, some, leb, ◌==◌, if◌then◌else◌, get_elem?,
}

abbrev pub dhcp_pad : ℕ
dhcp_pad = 0

abbrev pub dhcp_msg_type : ℕ
dhcp_msg_type = 53

abbrev pub dhcp_end : ℕ
dhcp_end = 255

-- What the function returns: a message type, or -1. The other two stand for a read outside of the
-- options and for more rounds than there is fuel.
pub data Found : Type 0 where
  found : ℕ → Found
  minus_one bad_read no_fuel : Found

-- One round of the loop at index `i`: a return, or the index of the next round.
pub data Round : Type 0 where
  return : Found → Round
  next : ℕ → Round

abbrev pub read {ℓ} : {A : Type ℓ} → List ℕ → ℕ → A → (ℕ → A) → A
read p i fault k = elim (get_elem? p i) [ none ↦ fault | some b ↦ k b ]

abbrev pub msg_type_at : List ℕ → ℕ → ℕ → Round
msg_type_at p room i =
    if leb 2 room
    then read p (i + 1) (return bad_read) (λ len.
      if len == 1
      then read p (i + 2) (return bad_read) (λ t. return (found t))
      else return minus_one)
    else return minus_one

abbrev pub skip_at : List ℕ → ℕ → ℕ → Round
skip_at p room i =
    if leb 1 room
    then read p (i + 1) (return bad_read) (λ len. next (i + (len + 1) + 1))
    else next (i + 1)

unfoldable pub scan_round : List ℕ → ℕ → ℕ → Round
scan_round p optlen i =
    let room = optlen - i - 1 in
    read p i (return bad_read) λ type.
      if type == dhcp_end
      then return minus_one
      else if type == dhcp_pad
      then next (i + 1)
      else if type == dhcp_msg_type
      then msg_type_at p room i
      else skip_at p room i

unfoldable pub scan_loop : ℕ → List ℕ → ℕ → ℕ → Found
scan_loop zero p optlen i = if leb optlen i then minus_one else no_fuel
scan_loop (suc fuel) p optlen i =
    if leb optlen i
    then minus_one
    else elim (scan_round p optlen i) [ return r ↦ r | next j ↦ scan_loop fuel p optlen j ]

-- Every round moves on, so `optlen` rounds do.
unfoldable pub get_dhcp_message_type : List ℕ → ℕ → Found
unfolding scan_loop
get_dhcp_message_type p optlen = scan_loop optlen p optlen 0
