-- ===== src/Device.antt =====
-- The configuration of an adapter by its application: the configuring requests of TapDeviceControl
-- and tapResetAdapterState, of src/device.c.
pub mod Configured
pub mod Masquerade
pub mod Session
pub mod Info
pub mod Closed
use tap_windows.Base.{
  ℕ, ◌+◌, ◌*◌, ◌-◌, ◌^◌, Bool, true, false, not, ◌&&◌, List, [], ◌∷◌, ◌++◌, leb, ◌==◌,
  if◌then◌else◌, length, drop, take, htons, bit_and, u8, u32_at, write_at, replicate,
}
use tap_windows.Mac.{Mac, zero_mac, generate_related_mac}
use tap_windows.Proto.{EthHeader, eth_type_ipv4, eth_type_ipv6}
use tap_windows.Ndis.{NtStatus}
use tap_windows.Adapter.{Adapter, AdapterState, LinkState, halted}

abbrev pub is_halted : AdapterState → Bool
is_halted halted = true
is_halted _ = false

abbrev pub zero_header : EthHeader
zero_header = record { dest = zero_mac; src = zero_mac; proto = 0 }

-- tapResetAdapterState
unfoldable pub reset_adapter_state : Adapter → Adapter
reset_adapter_state a = record a {
  tun = false;
  local_ip = 0;
  remote_network = 0;
  remote_netmask = 0;
  tap_to_user = zero_header;
  user_to_tap = zero_header;
  user_to_tap_ipv6 = zero_header;
  dhcp_enabled = false;
  dhcp_server_arp = false;
  dhcp_user_supplied_options_buffer_len = 0;
  dhcp_addr = 0;
  dhcp_netmask = 0;
  dhcp_server_ip = 0;
  dhcp_lease_time = 0;
  dhcp_received_discover = false;
  dhcp_bad_requests = 0;
  dhcp_server_mac = zero_mac;
}

-- CheckIfDhcpAndTunMode
unfoldable pub check_if_dhcp_and_tun_mode : Adapter → Adapter
check_if_dhcp_and_tun_mode a =
    if a.tun && a.dhcp_enabled && bit_and a.dhcp_server_ip a.remote_netmask == a.remote_network
    then record a { dhcp_server_mac = a.tap_to_user.dest; dhcp_server_arp = false }
    else a

-- The Ethernet headers of point-to-point mode, with the mode switched on.
unfoldable pub enter_tun : Adapter → Adapter
enter_tun a =
    let dest = generate_related_mac a.current_address 1 in
    let user_to_tap : EthHeader = record {
      dest = a.current_address;
      src = dest;
      proto = htons eth_type_ipv4;
    } in
    check_if_dhcp_and_tun_mode (record a {
      tap_to_user = record { dest = dest; src = a.current_address; proto = htons eth_type_ipv4 };
      user_to_tap = user_to_tap;
      user_to_tap_ipv6 = record user_to_tap { proto = htons eth_type_ipv6 };
      tun = true;
    })

-- TAP_WIN_IOCTL_CONFIG_TUN
unfoldable pub config_tun : Adapter → List ℕ → NtStatus × Adapter
config_tun a input =
    let b = record a {
      tun = false;
      local_ip = u32_at input 0;
      remote_network = u32_at input 4;
      remote_netmask = u32_at input 8;
    } in
    if not (leb 12 (length input))
    then (NtStatus.invalid_parameter, a)
    else if not (bit_and b.remote_network b.remote_netmask == b.remote_network)
    then (NtStatus.invalid_parameter, b)
    else (NtStatus.success, enter_tun b)

-- TAP_WIN_IOCTL_CONFIG_POINT_TO_POINT
unfoldable pub config_point_to_point : Adapter → List ℕ → NtStatus × Adapter
config_point_to_point a input =
    let b = record a {
      tun = false;
      local_ip = u32_at input 0;
      remote_network = u32_at input 4;
      remote_netmask = 2 ^ 32 - 1;
    } in
    if not (leb 8 (length input))
    then (NtStatus.invalid_parameter, a)
    else (NtStatus.success, enter_tun b)

-- TAP_WIN_IOCTL_CONFIG_DHCP_MASQ
unfoldable pub config_dhcp_masq : Adapter → List ℕ → NtStatus × Adapter
config_dhcp_masq a input =
    if not (leb 16 (length input)) then (NtStatus.invalid_parameter, a) else (
      NtStatus.success,
      check_if_dhcp_and_tun_mode (record a {
        dhcp_user_supplied_options_buffer_len = 0;
        dhcp_addr = u32_at input 0;
        dhcp_netmask = u32_at input 4;
        dhcp_server_ip = u32_at input 8;
        dhcp_lease_time = u32_at input 12;
        dhcp_server_mac = generate_related_mac a.current_address 2;
        dhcp_enabled = true;
        dhcp_server_arp = true;
      }),
    )

-- TAP_WIN_IOCTL_CONFIG_DHCP_SET_OPT
unfoldable pub config_dhcp_set_opt : Adapter → List ℕ → NtStatus × Adapter
config_dhcp_set_opt a input =
    if leb (length input) 256 && a.dhcp_enabled
    then (
      NtStatus.success,
      record a {
        dhcp_user_supplied_options_buffer = write_at a.dhcp_user_supplied_options_buffer 0 input;
        dhcp_user_supplied_options_buffer_len = length input;
      },
    )
    else (NtStatus.invalid_parameter, a)

-- TAP_WIN_IOCTL_PRIORITY_BEHAVIOR
unfoldable pub set_priority_behavior : Adapter → List ℕ → NtStatus × Adapter
set_priority_behavior a input =
    if leb 4 (length input) && leb (u32_at input 0) 2
    then (NtStatus.success, record a { priority_behavior = u32_at input 0 })
    else (NtStatus.invalid_parameter, a)

-- tapSetMediaConnectStatus: the link state that the host is told starts as `unknown`, which is 0.
unfoldable pub set_media_connect_status : Adapter → ℕ → Adapter
set_media_connect_status a media_state =
    let before = if a.logical_media_state == 1 then LinkState.connected else LinkState.unknown in
    let changes =
      not (a.logical_media_state == media_state) && not a.media_state_always_connected in
    let told =
      if changes
      then (if media_state == 1 then LinkState.connected else LinkState.disconnected)
      else before in
    let b : Adapter = record a {
      logical_media_state = if changes then media_state else a.logical_media_state;
    } in
    if is_halted a.adapter_state then b else record b { link_states = told ∷ a.link_states }

-- TAP_WIN_IOCTL_SET_MEDIA_STATUS: the parameter is cast to a BOOLEAN, its low byte.
unfoldable pub set_media_status : Adapter → List ℕ → NtStatus × Adapter
set_media_status a input =
    if leb 4 (length input)
    then (NtStatus.success, set_media_connect_status a (u8 (u32_at input 0)))
    else (NtStatus.invalid_parameter, a)

-- The requests that configure the adapter. The input buffer is the list of its bytes; of the
-- IoStatus block only the status is given, which is what TapDeviceControl returns.
pub data Request : Type 0 where
  tun point_to_point dhcp_masq dhcp_set_opt priority_behavior media_status : List ℕ → Request
  reset unrecognized : Request

unfoldable pub configure : Adapter → Request → NtStatus × Adapter
configure a (tun input) = config_tun a input
configure a (point_to_point input) = config_point_to_point a input
configure a (dhcp_masq input) = config_dhcp_masq a input
configure a (dhcp_set_opt input) = config_dhcp_set_opt a input
configure a (priority_behavior input) = set_priority_behavior a input
configure a (media_status input) = set_media_status a input
configure a unrecognized = (NtStatus.invalid_device_request, a)
configure a reset = (NtStatus.success, reset_adapter_state a)

-- A history of requests.
unfoldable pub configure_all : Adapter → List Request → Adapter
configure_all a [] = a
configure_all a (r ∷ rs) = configure_all (configure a r).1 rs
