-- ===== src/Oid/Query.antt =====
-- The OID requests of src/oidrequest.c that ask for something: tapQueryInformation.
use tap_windows.Base.{
  ℕ, ◌+◌, ◌*◌, ◌/◌, ◌%◌, ◌^◌, ◌||◌, List, ◌++◌, ltb, leb, ◌==◌, if◌then◌else◌, length, u8, u16, u32,
  u16_bytes, u32_bytes,
}
use tap_windows.Mac.{mac_size}
use tap_windows.Ndis.{NdisStatus}
use tap_windows.Adapter.{Adapter, TxStats, RxStats, not_supported}
use tap_windows.Frames.{u64}
use tap_windows.Oid.{
  Oid, max_mcast_list, hardware_status, permanent_address, current_address, media_supported,
  media_in_use, maximum_total_size, transmit_block_size, receive_block_size, transmit_buffer_space,
  receive_buffer_space, maximum_send_packets, interrupt_moderation, query_power, vendor_id,
  vendor_description, vendor_driver_version, driver_version, maximum_list_size, xmit_error,
  rcv_error, rcv_discards, rcv_no_buffer, xmit_ok, rcv_ok, rcv_error_alignment, xmit_one_collision,
  xmit_more_collisions, xmit_deferred, xmit_max_collisions, rcv_overrun, xmit_underrun, statistics,
}
use tap_windows.Transmit.Read.{tap_buffer_size}

-- The members of NDIS_STATISTICS_INFO that tapQueryInformation computes.
pub record StatisticsInfo : Type 0 where
  pub in_octets : ℕ
  pub in_ucast_octets : ℕ
  pub in_multicast_octets : ℕ
  pub in_broadcast_octets : ℕ
  pub in_ucast_pkts : ℕ
  pub in_multicast_pkts : ℕ
  pub in_broadcast_pkts : ℕ
  pub in_errors : ℕ
  pub in_discards : ℕ
  pub out_octets : ℕ
  pub out_ucast_octets : ℕ
  pub out_multicast_octets : ℕ
  pub out_broadcast_octets : ℕ
  pub out_ucast_pkts : ℕ
  pub out_multicast_pkts : ℕ
  pub out_broadcast_pkts : ℕ
  pub out_errors : ℕ
  pub out_discards : ℕ

-- What the headers of the system and the build say: the values of two enumerations, the sizes and
-- the layout of two structs (with their headers and flags), the product's name and version, and the
-- version of NDIS in GlobalData.
pub record System : Type 0 where
  pub hardware_status_ready : ℕ
  pub medium_802_3 : ℕ
  pub vendor_desc : List ℕ
  pub driver_major_version : ℕ
  pub driver_minor_version : ℕ
  pub ndis_version : ℕ
  pub statistics_size : ℕ
  pub statistics_revision_1_size : ℕ
  pub statistics_bytes : StatisticsInfo → List ℕ
  pub moderation_size : ℕ
  pub moderation_revision_1_size : ℕ
  pub moderation_bytes : List ℕ

abbrev pub u64_bytes : ℕ → List ℕ
u64_bytes x = u32_bytes x ++ u32_bytes (x / 2 ^ 32)

-- The answer to a query before the end of tapQueryInformation: bytes at `pInfo` of which ulInfoLen
-- are asked for, bytes that were written to the buffer already, no bytes at all, or an error, which
-- may be that the buffer is too small for a struct.
pub data Reply : Type 0 where
  info : List ℕ → ℕ → Reply
  in_place : List ℕ → ℕ → Reply
  nothing : ℕ → Reply
  refused : NdisStatus → Reply
  too_small : ℕ → Reply

-- An answer of all of its bytes.
abbrev pub whole : List ℕ → Reply
whole bytes = info bytes (length bytes)

abbrev pub ulong : ℕ → Reply
ulong x = info (u32_bytes x) 4

-- The counts of OID_GEN_XMIT_OK and OID_GEN_RCV_OK: 8 bytes, or 4 if the buffer is shorter.
unfoldable pub frame_count : ℕ → ℕ → Reply
frame_count size count = info (u64_bytes (u64 count)) (if leb 8 size || size == 0 then 8 else 4)

unfoldable pub frames_sent : TxStats → ℕ
frames_sent s = s.frames_tx_broadcast + s.frames_tx_multicast + s.frames_tx_directed

unfoldable pub frames_received : RxStats → ℕ
frames_received s = s.frames_rx_broadcast + s.frames_rx_multicast + s.frames_rx_directed

-- The cases from OID_GEN_HARDWARE_STATUS to OID_GEN_MAXIMUM_SEND_PACKETS
unfoldable pub query_device : System → Adapter → Oid → Reply
query_device system a hardware_status = ulong system.hardware_status_ready
query_device system a permanent_address = info a.permanent_address mac_size
query_device system a current_address = info a.current_address mac_size
query_device system a media_supported = ulong system.medium_802_3
query_device system a media_in_use = ulong system.medium_802_3
query_device system a maximum_total_size = ulong (14 + 1500)
query_device system a transmit_block_size = ulong (14 + 1500)
query_device system a receive_block_size = ulong (14 + 1500)
query_device system a transmit_buffer_space = ulong tap_buffer_size
query_device system a receive_buffer_space = ulong tap_buffer_size
query_device system a maximum_send_packets = ulong 5000
query_device system a _ = refused not_supported

-- The cases from OID_PNP_QUERY_POWER to OID_802_3_MAXIMUM_LIST_SIZE
unfoldable pub query_general : System → Oid → Reply
query_general system query_power = nothing 4
query_general system vendor_id = ulong 0x00ffffff
query_general system vendor_description = whole system.vendor_desc
query_general system vendor_driver_version =
    ulong (u32 (system.driver_major_version * 2 ^ 16 + system.driver_minor_version))
query_general system driver_version =
    info (u16_bytes (u16 (u8 (system.ndis_version / 2 ^ 16) * 2 ^ 8 + system.ndis_version % 2 ^ 8)))
      2
query_general system maximum_list_size = ulong max_mcast_list
query_general system _ = refused not_supported

-- The cases from OID_GEN_XMIT_ERROR to OID_802_3_XMIT_UNDERRUN: the counters.
unfoldable pub query_counter : Adapter → ℕ → Oid → Reply
query_counter a size xmit_error =
    let s = a.tx_stats in
    ulong (
      u32 (
        s.tx_abort_excess_collisions + s.tx_dma_underrun + s.tx_lost_crs + s.tx_late_collisions
        + s.transmit_failures_other))
query_counter a size rcv_error =
    let s = a.rx_stats in
    ulong
      (u32 (s.rx_crc_errors + s.rx_alignment_errors + s.rx_dma_overrun_errors + s.rx_runt_errors))
query_counter a size rcv_discards = ulong a.rx_stats.rx_resource_errors
query_counter a size rcv_no_buffer = ulong a.rx_stats.rx_resource_errors
query_counter a size xmit_ok = frame_count size (frames_sent a.tx_stats)
query_counter a size rcv_ok = frame_count size (frames_received a.rx_stats)
query_counter a size rcv_error_alignment = ulong a.rx_stats.rx_alignment_errors
query_counter a size xmit_one_collision = ulong a.tx_stats.one_retry
query_counter a size xmit_more_collisions = ulong a.tx_stats.more_than_one_retry
query_counter a size xmit_deferred = ulong a.tx_stats.tx_ok_but_deferred
query_counter a size xmit_max_collisions = ulong a.tx_stats.tx_abort_excess_collisions
query_counter a size rcv_overrun = ulong a.rx_stats.rx_dma_overrun_errors
query_counter a size xmit_underrun = ulong a.tx_stats.tx_dma_underrun
query_counter a size _ = refused not_supported

-- OID_GEN_STATISTICS
unfoldable pub statistics_of : TxStats → RxStats → StatisticsInfo
statistics_of t r = record {
  in_octets = u64 (r.bytes_rx_directed + r.bytes_rx_multicast + r.bytes_rx_broadcast);
  in_ucast_octets = r.bytes_rx_directed;
  in_multicast_octets = r.bytes_rx_multicast;
  in_broadcast_octets = r.bytes_rx_broadcast;
  in_ucast_pkts = r.frames_rx_directed;
  in_multicast_pkts = r.frames_rx_multicast;
  in_broadcast_pkts = r.frames_rx_broadcast;
  in_errors =
      u64 (r.rx_crc_errors + r.rx_alignment_errors + r.rx_dma_overrun_errors + r.rx_runt_errors);
  in_discards = r.rx_resource_errors;
  out_octets = u64 (t.bytes_tx_directed + t.bytes_tx_multicast + t.bytes_tx_broadcast);
  out_ucast_octets = t.bytes_tx_directed;
  out_multicast_octets = t.bytes_tx_multicast;
  out_broadcast_octets = t.bytes_tx_broadcast;
  out_ucast_pkts = t.frames_tx_directed;
  out_multicast_pkts = t.frames_tx_multicast;
  out_broadcast_pkts = t.frames_tx_broadcast;
  out_errors = u64 (
      t.tx_abort_excess_collisions + t.tx_dma_underrun + t.tx_lost_crs + t.tx_late_collisions
      + t.transmit_failures_other);
  out_discards = 0;
}

unfoldable pub query_statistics_info : System → Adapter → ℕ → Reply
query_statistics_info system a size =
    if ltb size system.statistics_size
    then too_small system.statistics_size
    else in_place (system.statistics_bytes (statistics_of a.tx_stats a.rx_stats))
        system.statistics_revision_1_size

-- OID_GEN_INTERRUPT_MODERATION
unfoldable pub query_moderation : System → ℕ → Reply
query_moderation system size =
    if ltb size system.moderation_size
    then too_small system.moderation_size
    else in_place system.moderation_bytes system.moderation_revision_1_size

-- The switch of tapQueryInformation
unfoldable pub query_oid : System → Adapter → ℕ → Oid → Reply
query_oid system a size interrupt_moderation = query_moderation system size
query_oid system a size statistics = query_statistics_info system a size
query_oid system a size xmit_error = query_counter a size xmit_error
query_oid system a size rcv_error = query_counter a size rcv_error
query_oid system a size rcv_discards = query_counter a size rcv_discards
query_oid system a size rcv_no_buffer = query_counter a size rcv_no_buffer
query_oid system a size xmit_ok = query_counter a size xmit_ok
query_oid system a size rcv_ok = query_counter a size rcv_ok
query_oid system a size rcv_error_alignment = query_counter a size rcv_error_alignment
query_oid system a size xmit_one_collision = query_counter a size xmit_one_collision
query_oid system a size xmit_more_collisions = query_counter a size xmit_more_collisions
query_oid system a size xmit_deferred = query_counter a size xmit_deferred
query_oid system a size xmit_max_collisions = query_counter a size xmit_max_collisions
query_oid system a size rcv_overrun = query_counter a size rcv_overrun
query_oid system a size xmit_underrun = query_counter a size xmit_underrun
query_oid system a size query_power = query_general system query_power
query_oid system a size vendor_id = query_general system vendor_id
query_oid system a size vendor_description = query_general system vendor_description
query_oid system a size vendor_driver_version = query_general system vendor_driver_version
query_oid system a size driver_version = query_general system driver_version
query_oid system a size maximum_list_size = query_general system maximum_list_size
query_oid system a size o = query_device system a o
