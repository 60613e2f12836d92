-- ===== src/Transmit/Read.antt =====
-- The read side of src/txpath.c: how a queued packet completes a pending read, and how the end of
-- that lets go of held sends (flow control).
pub mod Order
pub mod Flow
pub mod Flush
pub mod Pended
use tap_windows.Base.{
  ℕ, zero, suc, ◌+◌, ◌-◌, ◌*◌, ◌%◌, ◌^◌, Bool, true, false, not, ◌&&◌, ◌||◌, List, [], ◌∷◌, ◌++◌,
  Option, none, some, map, ltb, leb, ◌==◌, if◌then◌else◌, length, take, drop, slice, u32, write_at,
  get_or, byte_at,
}
use tap_windows.Proto.{eth_size}
use tap_windows.Mac.{Mac, mac_size}
use tap_windows.Ndis.{Irp, Nbl, NtStatus, NdisStatus}
use tap_windows.Adapter.{Adapter, TxStats, is_success, success, read_and_write_ready}
use tap_windows.Adapter.Queue.{Packet, PacketQueue, packet_size, remove_head}
use tap_windows.Adapter.Irps.{IrpCsq, remove_next_irp, irp_csq_insert}
use tap_windows.Frames.{
  FrameType, directed, multicast, broadcast, net_buffer_frame_type, buffer_counts, u64,
}

-- TapPacket->m_SizeFlags & TP_TUN
abbrev pub is_tun_packet : Packet → Bool
is_tun_packet p = leb (2 ^ 31) (u32 p.size_flags)

abbrev pub read_offset : Packet → ℕ
read_offset p = if is_tun_packet p then eth_size else 0

-- tapCompletePendingReadIrp: `len` is negative if the packet is shorter than `offset`, and so is
-- `(int) Irp->IoStatus.Information` from 2 ^ 31 on.
unfoldable pub complete_pending_read_irp : Irp → Packet → Irp
complete_pending_read_irp irp p =
    let offset = read_offset p in
    let len = packet_size p - offset in
    if ltb (packet_size p) offset
      || leb (2 ^ 31) (u32 irp.information)
      || ltb (u32 irp.information) len
    then record irp { information = 0; status = NtStatus.buffer_overflow }
    else record irp {
      information = len;
      status = NtStatus.success;
      system_buffer = write_at irp.system_buffer 0 (slice p.bytes offset len);
    }

-- The statistics after one list was completed.
unfoldable pub count_sent : Bool → FrameType → ℕ → ℕ → TxStats → TxStats
count_sent false type n bytes s = record s {
  transmit_failures_other = u32 (s.transmit_failures_other + n);
}
count_sent true directed n bytes s = record s {
  frames_tx_directed = u64 (s.frames_tx_directed + n);
  bytes_tx_directed = u64 (s.bytes_tx_directed + bytes);
}
count_sent true broadcast n bytes s = record s {
  frames_tx_broadcast = u64 (s.frames_tx_broadcast + n);
  bytes_tx_broadcast = u64 (s.bytes_tx_broadcast + bytes);
}
count_sent true multicast n bytes s = record s {
  frames_tx_multicast = u64 (s.frames_tx_multicast + n);
  bytes_tx_multicast = u64 (s.bytes_tx_multicast + bytes);
}

-- One round of the loop of tapSendNetBufferListsComplete, with what NDIS is told of the list.
unfoldable pub complete_nbl : NdisStatus → Adapter → Nbl → Adapter
complete_nbl status a nbl =
    let counts = buffer_counts nbl.net_buffers in
    record a {
      tx_stats =
          count_sent (is_success status)
            (net_buffer_frame_type nbl.header_in_place (get_or nbl.net_buffers 0 [])) counts.0
            counts.1 a.tx_stats;
      completed_nbls = record nbl { nbl_status = status } ∷ a.completed_nbls;
    }

-- tapSendNetBufferListsComplete
unfoldable pub send_net_buffer_lists_complete : Adapter → List Nbl → NdisStatus → Adapter
send_net_buffer_lists_complete a [] status = a
send_net_buffer_lists_complete a (nbl ∷ nbls) status =
    send_net_buffer_lists_complete (complete_nbl status a nbl) nbls status

-- tapCompleteFlowControlPackets
unfoldable pub complete_flow_control_packets : Adapter → Adapter
complete_flow_control_packets a =
    send_net_buffer_lists_complete
      (record a { flow_control_list = []; flow_control_has_packets = false }) a.flow_control_list
      success

abbrev pub tap_buffer_size : ℕ
tap_buffer_size = 0x400000

-- tapCheckFlowControl
unfoldable pub check_flow_control : Adapter → Adapter
check_flow_control a =
    if a.flow_control_has_packets && ltb a.send_packet_queue.total_bytes tap_buffer_size
    then complete_flow_control_packets a
    else a

-- The request `irp` is completed from the packet that was taken off the queue.
unfoldable pub deliver : Adapter → IrpCsq → Irp → Option Packet → PacketQueue → Adapter
deliver a irps irp none packets = record a { pending_read_irp_queue = irps }
deliver a irps irp (some p) packets = record a {
  pending_read_irp_queue = irps;
  send_packet_queue = packets;
  completed_irps = complete_pending_read_irp irp p ∷ a.completed_irps;
}

-- The loop of tapProcessSendPacketQueue.
unfoldable pub process_loop : ℕ → Adapter → Adapter
process_loop zero a = a
process_loop (suc fuel) a =
    let (irp, irps) = remove_next_irp none a.pending_read_irp_queue in
    let (p, packets) = remove_head a.send_packet_queue in
    if a.send_packet_queue.count == 0
    then a
    else elim irp [ none ↦ a | some irp ↦ process_loop fuel (deliver a irps irp p packets) ]

-- tapProcessSendPacketQueue. Each round takes a pending read, so their number bounds the rounds.
unfoldable pub process_send_packet_queue : Adapter → Adapter
process_send_packet_queue a =
    check_flow_control (process_loop (suc (length a.pending_read_irp_queue.queue)) a)

-- A read that is completed without data.
abbrev pub failed_read : Adapter → Irp → NtStatus → NtStatus × Adapter
failed_read a irp status = (
  status,
  record a { completed_irps = record irp { status = status; information = 0 } ∷ a.completed_irps },
)

-- TapDeviceRead, for a request with its buffer mapped or not: what it returns, and the adapter. The
-- requests that it completes itself go to `completed_irps`.
unfoldable pub tap_device_read : Adapter → Irp → ℕ → Bool → Bool → NtStatus × Adapter
tap_device_read a irp read_length has_mdl mapped =
    if not (read_and_write_ready a)
    then failed_read a irp NtStatus.cancelled
    else if not has_mdl
    then failed_read a irp NtStatus.invalid_parameter
    else if not mapped
    then failed_read a irp NtStatus.insufficient_resources
    else (
      NtStatus.pending,
      process_send_packet_queue (record a {
        pending_read_irp_queue =
            irp_csq_insert a.pending_read_irp_queue
              (record irp { information = read_length; status = NtStatus.pending });
      }),
    )

-- The loop of tapFlushSendPacketQueue, which frees the packets.
unfoldable pub flush_packets : ℕ → PacketQueue → PacketQueue
flush_packets zero q = q
flush_packets (suc fuel) q =
    let rest = flush_packets fuel (remove_head q).1 in if ltb 0 q.count then rest else q

-- tapFlushSendPacketQueue. Each round takes a packet off, so their number bounds the rounds.
unfoldable pub flush_send_packet_queue : Adapter → Adapter
flush_send_packet_queue a = complete_flow_control_packets (record a {
  send_packet_queue = flush_packets (suc (length a.send_packet_queue.queue)) a.send_packet_queue;
})
