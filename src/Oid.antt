-- ===== src/Oid.antt =====
-- The OID requests of src/oidrequest.c that set something: tapSetMulticastList, tapSetPacketFilter,
-- tapSetInformation.
pub mod Query
pub mod Handler
pub mod Sound
use tap_windows.Base.{
  ℕ, zero, suc, ◌+◌, ◌-◌, ◌*◌, ◌/◌, ◌%◌, ◌^◌, bit_and, Bool, not, ◌||◌, List, [], ◌∷◌, ltb, ◌==◌,
  if◌then◌else◌, length, take, drop, u32_at,
}
use tap_windows.Mac.{Mac, mac_size}
use tap_windows.Ndis.{NdisStatus}
use tap_windows.Adapter.{
  Adapter, success, invalid_length, multicast_full, not_supported, invalid_data, device_state_d0,
}
use tap_windows.Frames.{
  type_directed, type_multicast, type_all_multicast, type_broadcast, type_promiscuous,
  type_all_local,
}

-- The OIDs that the driver tells apart: those that it sets, and those that it answers.
pub data Oid : Type 0 where
  multicast_list current_lookahead current_packet_filter set_power : Oid
  hardware_status permanent_address current_address media_supported media_in_use : Oid
  maximum_total_size transmit_block_size receive_block_size : Oid
  transmit_buffer_space receive_buffer_space maximum_send_packets : Oid
  interrupt_moderation query_power vendor_id vendor_description : Oid
  vendor_driver_version driver_version maximum_list_size : Oid
  xmit_error rcv_error rcv_discards rcv_no_buffer xmit_ok rcv_ok : Oid
  rcv_error_alignment xmit_one_collision xmit_more_collisions : Oid
  xmit_deferred xmit_max_collisions rcv_overrun xmit_underrun statistics : Oid
  other : Oid

pub data RequestType : Type 0 where
  set_information query_information query_statistics method : RequestType

-- NDIS_OID_REQUEST, with the buffer as the list of its InformationBufferLength bytes.
pub record OidRequest : Type 0 where
  pub request_type : RequestType
  pub oid : Oid
  pub information_buffer : List ℕ
  pub bytes_needed : ℕ
  pub bytes_read : ℕ
  pub bytes_written : ℕ

-- What a handler returns, the request with what it says of its buffer, and the adapter.
abbrev pub Outcome : Type 0
Outcome = NdisStatus × OidRequest × Adapter

abbrev pub max_mcast_list : ℕ
max_mcast_list = 32

-- The entries of MCList, as they lie in the buffer.
unfoldable pub macs_at : ℕ → List ℕ → List Mac
macs_at zero buffer = []
macs_at (suc n) buffer = take mac_size buffer ∷ macs_at n (drop mac_size buffer)

-- tapSetMulticastList
unfoldable pub set_multicast_list : Adapter → OidRequest → Outcome
set_multicast_list a r =
    let size = length r.information_buffer in
    let seen = record r { bytes_needed = mac_size; bytes_read = size } in
    if not (size % mac_size == 0)
    then (invalid_length, seen, a)
    else if ltb (max_mcast_list * mac_size) size
    then (multicast_full, record seen { bytes_needed = max_mcast_list * mac_size }, a)
    else (success, seen, record a { mc_list = macs_at (size / mac_size) r.information_buffer })

-- TAP_SUPPORTED_FILTERS
abbrev pub supported_filters : ℕ
supported_filters =
    type_directed + type_multicast + type_broadcast + type_all_local + type_promiscuous
    + type_all_multicast

-- PacketFilter & ~(TAP_SUPPORTED_FILTERS)
abbrev pub unsupported_bits : ℕ → ℕ
unsupported_bits filter = bit_and filter (2 ^ 32 - 1 - supported_filters)

-- tapSetPacketFilter
unfoldable pub set_packet_filter : Adapter → ℕ → NdisStatus × Adapter
set_packet_filter a filter =
    if not (unsupported_bits filter == 0)
    then (not_supported, a)
    else if not (filter == a.packet_filter)
    then (success, record a { packet_filter = filter })
    else (success, a)

abbrev pub device_state_d3 : ℕ
device_state_d3 = 4

-- The case OID_PNP_SET_POWER. AdapterSetPowerD0 and AdapterSetPowerLow change nothing and succeed.
unfoldable pub set_power_state : Adapter → OidRequest → Outcome
set_power_state a r =
    let state = u32_at r.information_buffer 0 in
    let seen = record r { bytes_read = 4 } in
    if ltb (length r.information_buffer) 4
    then (invalid_length, r, a)
    else if ltb state device_state_d0 || ltb device_state_d3 state
    then (invalid_data, seen, a)
    else (success, seen, record a { current_power_state = state })

-- The case OID_GEN_CURRENT_LOOKAHEAD
unfoldable pub set_lookahead : Adapter → OidRequest → Outcome
set_lookahead a r =
    if not (length r.information_buffer == 4)
    then (invalid_length, record r { bytes_needed = 4 }, a)
    else (
      success,
      record r { bytes_read = 4 },
      record a { lookahead = u32_at r.information_buffer 0 },
    )

-- The case OID_GEN_CURRENT_PACKET_FILTER
unfoldable pub set_current_filter : Adapter → OidRequest → Outcome
set_current_filter a r =
    let answer = set_packet_filter a (u32_at r.information_buffer 0) in
    if not (length r.information_buffer == 4)
    then (invalid_length, record r { bytes_needed = 4 }, a)
    else (answer.0, record r { bytes_read = length r.information_buffer }, answer.1)

-- tapSetInformation, by the OID
unfoldable pub set_oid : Adapter → OidRequest → Oid → Outcome
set_oid a r multicast_list = set_multicast_list a r
set_oid a r current_lookahead = set_lookahead a r
set_oid a r current_packet_filter = set_current_filter a r
set_oid a r set_power = set_power_state a r
set_oid a r _ = (not_supported, r, a)

unfoldable pub set_information_of : Adapter → OidRequest → Outcome
set_information_of a r = set_oid a r r.oid
