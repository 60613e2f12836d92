-- ===== src/Tests/Oid.antt =====
-- OID requests at concrete buffers.
use tap_windows.Base.{ℕ, ◌≤◌, ◌≡◌, ◌⊎◌, refl, arith, List, [], ◌∷◌, length, replicate}
use tap_windows.Adapter.{success, not_supported}
use tap_windows.Oid.{
  Oid, OidRequest, RequestType, set_oid, set_information_of, set_multicast_list, set_current_filter,
  set_packet_filter, macs_at,
}
use tap_windows.Oid.Query.{System, query_oid, query_counter, frame_count}
use tap_windows.Oid.Handler.{
  adapter_oid_request, oid_request_of, query_information_of, report_eight, finish_query, answer_of,
}
use tap_windows.Oid.Sound.{IsSupported, adapter_oid_request_sound}
use tap_windows.Tests.Fixtures.{tap_adapter, host_mac}

abbrev system : System
system = record {
  hardware_status_ready = 0;
  medium_802_3 = 0;
  vendor_desc = b'T' ∷ b'A' ∷ b'P' ∷ 0 ∷ [];
  driver_major_version = 9;
  driver_minor_version = 26;
  ndis_version = 0x60014;
  statistics_size = 160;
  statistics_revision_1_size = 152;
  statistics_bytes = λ s. replicate 152 0;
  moderation_size = 12;
  moderation_revision_1_size = 12;
  moderation_bytes = replicate 12 0;
}

abbrev request_of : RequestType → Oid → List ℕ → OidRequest
request_of type oid buffer = record {
  request_type = type;
  oid = oid;
  information_buffer = buffer;
  bytes_needed = 0;
  bytes_read = 0;
  bytes_written = 0;
}

tap-IsSupported : IsSupported tap_adapter
tap-IsSupported = record {
  filter = refl;
  list = omega arith;
  least_state = omega arith;
  most_state = omega arith;
}

abbrev list_request : OidRequest
list_request = request_of RequestType.set_information Oid.multicast_list host_mac

adapter_oid_request_sound_example :
    let (status, q, b) = adapter_oid_request system tap_adapter list_request in
    IsSupported b
    × ((b ≡ tap_adapter)
        ⊎ ((list_request.request_type ≡ RequestType.set_information) × (status ≡ success)))
    × (length q.information_buffer ≡ length list_request.information_buffer)
    × ((q.bytes_written ≡ list_request.bytes_written)
        ⊎ (q.bytes_written ≤ length list_request.information_buffer))
adapter_oid_request_sound_example =
    adapter_oid_request_sound system tap_adapter list_request tap-IsSupported

multicast_list_set : (adapter_oid_request system tap_adapter list_request).2.mc_list ≡ host_mac ∷ []
unfolding adapter_oid_request oid_request_of set_information_of set_oid set_multicast_list macs_at
multicast_list_set = refl

filter_refused :
    (adapter_oid_request system tap_adapter
      (request_of RequestType.set_information Oid.current_packet_filter (0 ∷ 1 ∷ 0 ∷ 0 ∷ []))).0
    ≡ not_supported
unfolding adapter_oid_request oid_request_of set_information_of set_oid set_current_filter
    set_packet_filter
filter_refused = refl

-- With a buffer of two bytes the driver asks for 4 bytes for a count of frames, not for 8.
eight_overwritten :
    (adapter_oid_request system tap_adapter
      (request_of RequestType.query_information Oid.xmit_ok (0 ∷ 0 ∷ []))).1.bytes_needed
    ≡ 4
unfolding adapter_oid_request oid_request_of query_information_of report_eight finish_query
    answer_of query_oid query_counter frame_count
eight_overwritten = refl
