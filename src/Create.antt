-- ===== src/Create.antt =====
-- The creation of an adapter, of src/adapter.c and src/device.c: tapAdapterContextAllocate,
-- tapReadConfiguration with tapReadCurrentAddress, CreateTapDevice and AdapterCreate.
pub mod Sound
use tap_windows.Base.{
  ℕ, ◌+◌, ◌*◌, ◌/◌, ◌%◌, ◌^◌, Bool, true, false, not, ◌&&◌, ◌||◌, List, [], ◌∷◌, Option, none, some,
  ltb, leb, ◌==◌, if◌then◌else◌, length, replicate, byte_at,
}
use tap_windows.Mac.{Mac, zero_mac, mac_size, generate_random_mac}
use tap_windows.Adapter.{Adapter, AdapterState, device_state_d0, initializing, paused, halted}
use tap_windows.Adapter.Queue.{initialize}
use tap_windows.Adapter.Irps.{irp_csq_initialize}
use tap_windows.Dhcp.Reply.{is_broadcast}
use tap_windows.Frames.{is_multicast}
use tap_windows.Device.{zero_header}
use tap_windows.Device.Session.{destroy_tap_device}

-- tapAdapterContextAllocate: memory of zeros, the queues, and full power
unfoldable pub allocated_adapter : Adapter
allocated_adapter = record {
  adapter_state = halted;
  reset_in_progress = false;
  logical_media_state = 0;
  current_power_state = device_state_d0;
  permanent_address = zero_mac;
  current_address = zero_mac;
  tap_device_created = false;
  tap_file_object = none;
  tap_file_is_open = false;
  send_packet_queue = initialize (record { queue = []; count = 0; total_bytes = 0; max_count = 0 });
  receive_nbl_in_flight_count = 0;
  tun = false;
  local_ip = 0;
  remote_network = 0;
  remote_netmask = 0;
  tap_to_user = zero_header;
  user_to_tap = zero_header;
  user_to_tap_ipv6 = zero_header;
  dhcp_enabled = false;
  dhcp_addr = 0;
  dhcp_netmask = 0;
  dhcp_server_ip = 0;
  dhcp_server_arp = false;
  dhcp_server_mac = zero_mac;
  dhcp_lease_time = 0;
  dhcp_user_supplied_options_buffer = replicate 256 0;
  dhcp_user_supplied_options_buffer_len = 0;
  dhcp_received_discover = false;
  dhcp_bad_requests = 0;
  priority_behavior = 0;
  pending_read_irp_queue = irp_csq_initialize (record { queue = []; count = 0; max_count = 0 });
  flow_control_list = [];
  flow_control_has_packets = false;
  mtu_size = 0;
  packet_filter = 0;
  mc_list = [];
  lookahead = 0;
  media_state_always_connected = false;
  receive_nbl_zero_event = false;
  tx_stats = record {
    frames_tx_directed = 0;
    frames_tx_multicast = 0;
    frames_tx_broadcast = 0;
    bytes_tx_directed = 0;
    bytes_tx_multicast = 0;
    bytes_tx_broadcast = 0;
    tx_abort_excess_collisions = 0;
    tx_late_collisions = 0;
    tx_dma_underrun = 0;
    tx_lost_crs = 0;
    tx_ok_but_deferred = 0;
    one_retry = 0;
    more_than_one_retry = 0;
    transmit_failures_other = 0;
  };
  rx_stats = record {
    frames_rx_directed = 0;
    frames_rx_multicast = 0;
    frames_rx_broadcast = 0;
    bytes_rx_directed = 0;
    bytes_rx_multicast = 0;
    bytes_rx_broadcast = 0;
    rx_crc_errors = 0;
    rx_alignment_errors = 0;
    rx_resource_errors = 0;
    rx_dma_overrun_errors = 0;
    rx_runt_errors = 0;
  };
  indicated = [];
  completed_irps = [];
  completed_nbls = [];
  in_flight = [];
  link_states = [];
}

-- What the registry of the adapter holds, where it can be opened: the text of NetCfgInstanceId, if
-- it is a string that fits and converts to ANSI; the integers MTU and MediaStatus, as 32-bit
-- patterns; and the bytes of NetworkAddress.
pub record Settings : Type 0 where
  pub instance_id : Option (List ℕ)
  pub mtu : Option ℕ
  pub media_status : Option ℕ
  pub network_address : Option (List ℕ)

abbrev pub minimum_mtu : ℕ
minimum_mtu = 576

abbrev pub maximum_mtu : ℕ
maximum_mtu = 65536

abbrev pub ethernet_mtu : ℕ
ethernet_mtu = 1500

-- The MTU for an integer of the registry, which is negative from 2 ^ 31 on
unfoldable pub checked_mtu : ℕ → ℕ
checked_mtu value =
    let mtu = if value == 0 then ethernet_mtu else value in
    if ltb mtu minimum_mtu || leb (2 ^ 31) mtu
    then minimum_mtu
    else if ltb maximum_mtu mtu
    then maximum_mtu
    else mtu

unfoldable pub mtu_of : Option ℕ → ℕ
mtu_of none = ethernet_mtu
mtu_of (some value) = checked_mtu value

-- NIC_ADDR_IS_LOCALLY_ADMINISTERED
abbrev pub is_locally_administered : List ℕ → Bool
is_locally_administered address = byte_at address 0 / 2 % 2 == 1

-- The address of the registry is taken.
unfoldable pub is_custom_address : List ℕ → Bool
is_custom_address address =
    length address == mac_size
    && not (is_multicast address || is_broadcast address || not (is_locally_administered address))

-- tapReadCurrentAddress
unfoldable pub read_current_address : Mac → Option (List ℕ) → Mac
read_current_address permanent none = permanent
read_current_address permanent (some address) =
    if is_custom_address address then address else permanent

-- A MediaStatus other than 0: always connected
unfoldable pub is_always_connected : Option ℕ → Bool
is_always_connected none = false
is_always_connected (some value) = not (value == 0)

-- The part of tapReadConfiguration that needs NetCfgInstanceId
unfoldable pub read_settings : Adapter → Settings → List ℕ → Adapter
read_settings a settings id =
    let permanent = generate_random_mac id in
    let always = is_always_connected settings.media_status in
    record a {
      mtu_size = mtu_of settings.mtu;
      media_state_always_connected = always;
      logical_media_state = if always then 1 else 0;
      permanent_address = permanent;
      current_address = read_current_address permanent settings.network_address;
    }

unfoldable pub read_instance : Adapter → Settings → Option (List ℕ) → Adapter
read_instance a settings none = a
read_instance a settings (some id) = read_settings a settings id

-- tapReadConfiguration, whose status AdapterCreate does not look at
unfoldable pub read_configuration : Adapter → Option Settings → Adapter
read_configuration a registry =
    let defaults = record a {
      mtu_size = ethernet_mtu;
      media_state_always_connected = false;
      logical_media_state = 0;
    } in
    elim registry [
      | none ↦ defaults
      | some settings ↦ read_instance defaults settings settings.instance_id
    ]

-- What the system answers when an adapter is created: the memory, the two calls of
-- NdisMSetMiniportAttributes, the names and the registration of the device, and, if EnableTapDiag,
-- those of the diagnostic device.
pub record Answers : Type 0 where
  pub memory : Bool
  pub registration_attributes : Bool
  pub general_attributes : Bool
  pub device : Bool
  pub enable_tap_diag : Bool
  pub diag_device : Bool

-- CreateTapDevice: whether it succeeds, and the adapter
unfoldable pub create_tap_device : Answers → Adapter → Bool × Adapter
create_tap_device system a =
    if not system.device
    then (false, a)
    else (not system.enable_tap_diag || system.diag_device, record a { tap_device_created = true })

-- AdapterCreate, less the reference counts: the adapter, or none once its context was freed.
unfoldable pub adapter_create : Answers → Option Settings → Option Adapter
adapter_create system registry =
    let a = record allocated_adapter { adapter_state = initializing } in
    let b = record (read_configuration a registry) { priority_behavior = 0 } in
    let (registered, c) = create_tap_device system b in
    if not (system.memory && system.registration_attributes && system.general_attributes)
    then none
    else if registered
    then some (record c { adapter_state = paused })
    else none
