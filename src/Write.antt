-- ===== src/Write.antt =====
-- Writes of the application, the second part of src/rxpath.c: TapDeviceWrite and TapSharedSendPacket,
-- and the way back, AdapterReturnNetBufferLists with tapCompleteIrpAndFreeReceiveNetBufferList.
pub mod Answered
pub mod Returned
pub mod Delivered
pub mod Filtered
use tap_windows.Base.{
  ℕ, suc, zero, ◌+◌, ◌-◌, ◌/◌, ◌^◌, bit_and, Bool, true, false, not, ◌&&◌, ◌||◌, List, [], ◌∷◌,
  ◌++◌, Option, none, some, ltb, leb, ◌==◌, if◌then◌else◌, length, take, u32, byte_at,
}
use tap_windows.Proto.{EthHeader, eth_bytes, eth_size, ip_size}
use tap_windows.Ndis.{Irp, NtStatus, RxNbl}
use tap_windows.Adapter.{Adapter, RxStats, read_and_write_ready, send_and_receive_ready, is_success}
use tap_windows.Receive.{Pool, padded, with_nbl, tap_min_frame_size}
use tap_windows.Frames.{
  FrameType, directed, multicast, broadcast, net_buffer_frame_type, buffer_counts, u64,
  raw_frame_type, type_directed, type_promiscuous,
}
use tap_windows.Transmit.Vlan.{Stripped, strip_8021q}

abbrev pub ulong_max : ℕ
ulong_max = 2 ^ 32 - 1

-- What a write comes to before it is completed: the status, the request and the adapter.
abbrev pub Answer : Type 0
Answer = NtStatus × Irp × Adapter

-- Fail the IRP
abbrev pub out_of_resources : Adapter → Irp → Answer
out_of_resources a irp = (NtStatus.insufficient_resources, record irp { information = 0 }, a)

-- TapSharedSendPacket, for a packet with the priority and the VLAN of its 802.1Q information.
-- In a list that went to the host, the request is that of MiniportReserved[0].
unfoldable pub shared_send_packet : Pool → Adapter → Irp → Stripped → List ℕ → Answer
shared_send_packet pool a irp p prefix =
    let full_length = length p.packet + length prefix in
    let sent : List ℕ → Adapter = λ frame. with_nbl a (record {
      rx_frame = frame;
      rx_priority = p.priority;
      rx_vlan = p.vlan;
      rx_irp = some irp;
      rx_in_place = pool.header_in_place;
    }) in
    if ltb (ulong_max - length p.packet) (length prefix)
    then out_of_resources a irp
    else if ltb full_length tap_min_frame_size
    then (if pool.inject_buffer && pool.inject_mdl && pool.inject_nbl
        then (NtStatus.pending, irp, sent (padded (prefix ++ p.packet)))
        else out_of_resources a irp)
    else if ltb 0 (length prefix) && not pool.inject_mdl
    then out_of_resources a irp
    else if not pool.inject_nbl
    then out_of_resources a irp
    else (NtStatus.pending, irp, sent (prefix ++ p.packet))

-- adapter->PacketFilter & mask
abbrev pub filter_has : Adapter → ℕ → Bool
filter_has a mask = not (bit_and a.packet_filter mask == 0)

-- Whether a frame may go to the host.
unfoldable pub passes_filter : Adapter → List ℕ → Bool
passes_filter a packet =
    filter_has a type_promiscuous || not (bit_and (raw_frame_type a packet) a.packet_filter == 0)

-- The request once its 802.1Q header was removed in place.
abbrev pub stripped_irp : Irp → Irp
stripped_irp irp =
    let packet = (strip_8021q irp.system_buffer).packet in
    record irp {
      system_buffer = take (length irp.system_buffer - length packet) irp.system_buffer ++ packet;
    }

-- The branch of TAP mode
unfoldable pub write_ethernet : Pool → Adapter → Irp → Answer
write_ethernet pool a irp =
    let p = strip_8021q irp.system_buffer in
    if passes_filter a p.packet
    then shared_send_packet pool a (stripped_irp irp) p []
    else (NtStatus.success, stripped_irp irp, a)

-- `p_UserToTap`, by the version in the first byte of the packet
unfoldable pub user_header : Adapter → List ℕ → EthHeader
user_header a packet = if byte_at packet 0 / 2 ^ 4 == 6 then a.user_to_tap_ipv6 else a.user_to_tap

-- The branch of TUN mode
unfoldable pub write_ip : Pool → Adapter → Irp → Answer
write_ip pool a irp =
    let packet = irp.system_buffer in
    if filter_has a (type_directed + type_promiscuous)
    then shared_send_packet pool a irp (record { packet = packet; priority = 0; vlan = 0 })
        (eth_bytes (user_header a packet))
    else (NtStatus.success, irp, a)

-- What TapDeviceWrite does with a request whose buffer is mapped, by the mode and the length.
unfoldable pub write_mapped : Pool → Adapter → Irp → Answer
write_mapped pool a irp =
    if not (is_success (send_and_receive_ready a))
    then (NtStatus.success, irp, a)
    else if not a.tun && leb eth_size (length irp.system_buffer)
    then write_ethernet pool a irp
    else if a.tun && leb ip_size (length irp.system_buffer)
    then write_ip pool a irp
    else (NtStatus.buffer_too_small, record irp { information = 0 }, a)

-- IoCompleteRequest, of a request with this status.
abbrev pub complete_irp : Adapter → Irp → NtStatus → Adapter
complete_irp a irp status = record a {
  completed_irps = record irp { status = status } ∷ a.completed_irps;
}

abbrev pub is_pending : NtStatus → Bool
is_pending NtStatus.pending = true
is_pending _ = false

-- The end of TapDeviceWrite
unfoldable pub finish_write : Answer → NtStatus × Adapter
finish_write answer =
    let (status, irp, a) = answer in
    if is_pending status then (status, a) else (status, complete_irp a irp status)

-- TapDeviceWrite, for a request with its buffer mapped or not: what it returns, and the adapter.
-- The system buffer holds Parameters.Write.Length bytes.
unfoldable pub tap_device_write : Pool → Adapter → Irp → Bool → Bool → NtStatus × Adapter
tap_device_write pool a irp has_mdl mapped =
    let failed = record irp { information = 0 } in
    if not (read_and_write_ready a)
    then finish_write (NtStatus.cancelled, failed, a)
    else if not has_mdl
    then finish_write (NtStatus.invalid_parameter, failed, a)
    else if not mapped
    then finish_write (NtStatus.insufficient_resources, failed, a)
    else finish_write (write_mapped pool a (record irp { information = length irp.system_buffer }))

-- The statistics of a list that was received, by its frame type.
unfoldable pub count_received : FrameType → ℕ → ℕ → RxStats → RxStats
count_received directed n bytes s = record s {
  frames_rx_directed = u64 (s.frames_rx_directed + n);
  bytes_rx_directed = u64 (s.bytes_rx_directed + bytes);
}
count_received broadcast n bytes s = record s {
  frames_rx_broadcast = u64 (s.frames_rx_broadcast + n);
  bytes_rx_broadcast = u64 (s.bytes_rx_broadcast + bytes);
}
count_received multicast n bytes s = record s {
  frames_rx_multicast = u64 (s.frames_rx_multicast + n);
  bytes_rx_multicast = u64 (s.bytes_rx_multicast + bytes);
}

-- The request of a list, completed as a success.
abbrev pub answer_irp : Option Irp → List Irp → List Irp
answer_irp none done = done
answer_irp (some irp) done = record irp { status = NtStatus.success } ∷ done

-- tapCompleteIrpAndFreeReceiveNetBufferList, with STATUS_SUCCESS, its only caller's argument
unfoldable pub complete_receive_nbl : Adapter → RxNbl → Adapter
complete_receive_nbl a nbl =
    let counts = buffer_counts (nbl.rx_frame ∷ []) in
    let count = u32 (a.receive_nbl_in_flight_count + 2 ^ 32 - 1) in
    record a {
      rx_stats =
          count_received (net_buffer_frame_type nbl.rx_in_place nbl.rx_frame) counts.0 counts.1
            a.rx_stats;
      completed_irps = answer_irp nbl.rx_irp a.completed_irps;
      receive_nbl_in_flight_count = count;
      receive_nbl_zero_event = if count == 0 then true else a.receive_nbl_zero_event;
    }

-- AdapterReturnNetBufferLists
unfoldable pub return_net_buffer_lists : Adapter → List RxNbl → Adapter
return_net_buffer_lists a [] = a
return_net_buffer_lists a (nbl ∷ nbls) = return_net_buffer_lists (complete_receive_nbl a nbl) nbls

-- The host takes lists in flight, each by its place among them, to return them in this order.
unfoldable pub pick : ℕ → List RxNbl → List RxNbl × List RxNbl
pick i [] = ([], [])
pick zero (nbl ∷ nbls) = (nbl ∷ [], nbls)
pick (suc i) (nbl ∷ nbls) = let (chosen, rest) = pick i nbls in (chosen, nbl ∷ rest)

unfoldable pub pick_all : List ℕ → List RxNbl → List RxNbl × List RxNbl
pick_all [] nbls = ([], nbls)
pick_all (i ∷ places) nbls =
    let (chosen, rest) = pick i nbls in
    let (more, left) = pick_all places rest in (chosen ++ more, left)

unfoldable pub host_returns : Adapter → List ℕ → Adapter
host_returns a places =
    let (chosen, left) = pick_all places a.in_flight in
    return_net_buffer_lists (record a { in_flight = left }) chosen
