-- ===== src/Adapter.antt =====
-- The adapter context of src/adapter.h, and its readiness tests of src/adapter.c.
pub mod Queue
pub mod Irps
use tap_windows.Base.{
  ℕ, ◌+◌, ◌≤◌, Bool, true, false, not, ◌&&◌, ◌||◌, List, Option, none, some, ◌==◌, if◌then◌else◌,
  length, bytes_eq,
}
use tap_windows.Mac.{Mac}
use tap_windows.Proto.{EthHeader}
use Queue.{PacketQueue}
use Irps.{IrpCsq}
use tap_windows.Ndis.{NdisStatus, Nbl, Irp, RxNbl}
pub use tap_windows.Ndis.NdisStatus.{
  success, media_disconnected, low_power_state, reset_in_progress, status_paused, invalid_state,
  invalid_length, multicast_full, not_supported, invalid_data, buffer_too_short,
}

-- TAP_MINIPORT_ADAPTER_STATE
pub data AdapterState : Type 0 where
  halted shutdown initializing pausing paused running restarting : AdapterState

-- The transmit statistics of TAP_ADAPTER_CONTEXT. No operation sets the counts of errors of the
-- medium.
pub record TxStats : Type 0 where
  pub frames_tx_directed : ℕ
  pub frames_tx_multicast : ℕ
  pub frames_tx_broadcast : ℕ
  pub bytes_tx_directed : ℕ
  pub bytes_tx_multicast : ℕ
  pub bytes_tx_broadcast : ℕ
  pub tx_abort_excess_collisions : ℕ
  pub tx_late_collisions : ℕ
  pub tx_dma_underrun : ℕ
  pub tx_lost_crs : ℕ
  pub tx_ok_but_deferred : ℕ
  pub one_retry : ℕ
  pub more_than_one_retry : ℕ
  pub transmit_failures_other : ℕ

-- The receive statistics.
pub record RxStats : Type 0 where
  pub frames_rx_directed : ℕ
  pub frames_rx_multicast : ℕ
  pub frames_rx_broadcast : ℕ
  pub bytes_rx_directed : ℕ
  pub bytes_rx_multicast : ℕ
  pub bytes_rx_broadcast : ℕ
  pub rx_crc_errors : ℕ
  pub rx_alignment_errors : ℕ
  pub rx_resource_errors : ℕ
  pub rx_dma_overrun_errors : ℕ
  pub rx_runt_errors : ℕ

-- MediaConnectState of an NDIS_LINK_STATE
pub data LinkState : Type 0 where
  unknown connected disconnected : LinkState

-- The members of TAP_ADAPTER_CONTEXT that the modelled operations read or write. `indicated` is
-- not one of them: it records the frames that were handed to NdisMIndicateReceiveNetBufferLists,
-- the latest first. Nor are `completed_irps` and `completed_nbls`, the requests and the lists of
-- frames that were completed, the latest first, `in_flight`, what was indicated and has not been
-- returned, and `link_states`, the link states that the host was told of, the latest first.
-- `logical_media_state` is the byte that a BOOLEAN is.
pub record Adapter : Type 0 where
  pub adapter_state : AdapterState
  pub reset_in_progress : Bool
  pub logical_media_state : ℕ
  pub current_power_state : ℕ
  pub permanent_address : Mac
  pub current_address : Mac
  pub tap_device_created : Bool
  pub tap_file_object : Option ℕ
  pub tap_file_is_open : Bool
  pub send_packet_queue : PacketQueue
  pub receive_nbl_in_flight_count : ℕ
  pub tun : Bool
  pub local_ip : ℕ
  pub remote_network : ℕ
  pub remote_netmask : ℕ
  pub tap_to_user : EthHeader
  pub user_to_tap : EthHeader
  pub user_to_tap_ipv6 : EthHeader
  pub dhcp_enabled : Bool
  pub dhcp_addr : ℕ
  pub dhcp_netmask : ℕ
  pub dhcp_server_ip : ℕ
  pub dhcp_server_arp : Bool
  pub dhcp_server_mac : Mac
  pub dhcp_lease_time : ℕ
  pub dhcp_user_supplied_options_buffer : List ℕ
  pub dhcp_user_supplied_options_buffer_len : ℕ
  pub dhcp_received_discover : Bool
  pub dhcp_bad_requests : ℕ
  pub priority_behavior : ℕ
  pub pending_read_irp_queue : IrpCsq
  pub flow_control_list : List Nbl
  pub flow_control_has_packets : Bool
  pub mtu_size : ℕ
  pub packet_filter : ℕ
  pub mc_list : List Mac
  pub lookahead : ℕ
  pub media_state_always_connected : Bool
  pub receive_nbl_zero_event : Bool
  pub tx_stats : TxStats
  pub rx_stats : RxStats
  pub indicated : List (List ℕ)
  pub completed_irps : List Irp
  pub completed_nbls : List Nbl
  pub in_flight : List RxNbl
  pub link_states : List LinkState

-- NdisDeviceStateD0
abbrev pub device_state_d0 : ℕ
device_state_d0 = 1

abbrev pub is_open : Option ℕ → Bool
is_open none = false
is_open (some f) = true

-- tapAdapterReadAndWriteReady
unfoldable pub read_and_write_ready : Adapter → Bool
read_and_write_ready a =
    if not a.tap_device_created
    then false
    else if not (is_open a.tap_file_object)
    then false
    else if not a.tap_file_is_open
    then false
    else if a.logical_media_state == 0
    then false
    else if not (a.current_power_state == device_state_d0)
    then false
    else true

abbrev pub state_status : AdapterState → NdisStatus
state_status pausing = status_paused
state_status paused = status_paused
state_status halted = invalid_state
state_status _ = success

-- tapAdapterSendAndReceiveReady
unfoldable pub send_and_receive_ready : Adapter → NdisStatus
send_and_receive_ready a =
    if a.logical_media_state == 0
    then media_disconnected
    else if not (a.current_power_state == device_state_d0)
    then low_power_state
    else if a.reset_in_progress
    then reset_in_progress
    else state_status a.adapter_state

abbrev pub is_success : NdisStatus → Bool
is_success success = true
is_success _ = false
