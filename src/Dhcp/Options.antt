-- ===== src/Dhcp/Options.antt =====
-- The options of a DHCP message under construction: DHCPMsg of src/dhcp.h and the SetDHCPOpt
-- functions of src/dhcp.c.
pub mod Append
use tap_windows.Base.{
  ℕ, zero, suc, ◌+◌, ◌/◌, ◌%◌, ◌^◌, Bool, true, false, List, [], ◌∷◌, ◌++◌, leb, ◌==◌,
  if◌then◌else◌, take, write_at, add32, u8, u32_bytes,
}

abbrev pub dhcp_options_buffer_size : ℕ
dhcp_options_buffer_size = 256

-- The members of DHCPMsg that stand outside of its `msg.pre`. The 256 bytes of the options are the
-- first of `options`, which may go on with the memory behind them.
pub record Options : Type 0 where
  pub optlen : ℕ
  pub overflow : Bool
  pub options : List ℕ

-- SetDHCPOpt
unfoldable pub set_dhcp_opt : Options → List ℕ → ℕ → Options
set_dhcp_opt m bytes len =
    if m.overflow
    then m
    else if leb (add32 m.optlen len) dhcp_options_buffer_size
    then if len == 0 then m else record m {
      options = write_at m.options m.optlen (take len bytes);
      optlen = add32 m.optlen len;
    }
    else record m { overflow = true }

-- SetDHCPOpt0, SetDHCPOpt8, SetDHCPOpt32, with the packed structs DHCPOPT0, DHCPOPT8, DHCPOPT32.
unfoldable pub set_dhcp_opt0 : Options → ℕ → Options
set_dhcp_opt0 m type = set_dhcp_opt m (u8 type ∷ []) 1

unfoldable pub set_dhcp_opt8 : Options → ℕ → ℕ → Options
set_dhcp_opt8 m type value = set_dhcp_opt m (u8 type ∷ 1 ∷ u8 value ∷ []) 3

unfoldable pub set_dhcp_opt32 : Options → ℕ → ℕ → Options
set_dhcp_opt32 m type value = set_dhcp_opt m (u8 type ∷ 4 ∷ u32_bytes value) 6
