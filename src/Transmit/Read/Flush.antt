-- ===== src/Transmit/Read/Flush.antt =====
-- The flush of the packet queue, when the application closes the device.
use tap_windows.Base.{
  ℕ, zero, suc, ◌%◌, ◌^◌, ◌<◌, ◌≡◌, ◌∙◌, refl, sym, ap, arith, true, false, List, [], ◌∷◌, length,
  drop, ltb, subst,
}
use tap_windows.Adapter.{Adapter, success}
use tap_windows.Adapter.Queue.{Packet, PacketQueue, remove_head}
use tap_windows.Adapter.Queue.Fifo.{IsQueue, bytes_of, remove_head-IsQueue}
use tap_windows.Transmit.Read.{
  flush_packets, flush_send_packet_queue, complete_flow_control_packets,
}
use tap_windows.Transmit.Read.Flow.{accounted, complete-times, complete-keeps, complete-flow, times}

-- The queue is empty, and so it says.
pub record IsEmpty (q : PacketQueue) : Type 0 where
  pub queue : q.queue ≡ []
  pub count : q.count ≡ 0
  pub total : q.total_bytes ≡ 0

drained-IsEmpty : (q : PacketQueue) → IsQueue q → q.queue ≡ [] → IsEmpty q
drained-IsEmpty q v e = record {
  queue = e;
  count = v.count ∙ ap length e;
  total = v.total ∙ ap (λ (ps : List Packet). bytes_of ps % 2 ^ 32) e;
}

flush_packets-IsEmpty :
    (fuel : ℕ) (q : PacketQueue) (ps : List Packet)
    → IsQueue q
    → q.queue ≡ ps
    → length ps < fuel
    → IsEmpty (flush_packets fuel q)
unfolding flush_packets
flush_packets-IsEmpty zero q ps v e f = absurd (omega arith)
flush_packets-IsEmpty (suc fuel) q [] v e f =
    let none_left : ltb 0 q.count ≡ false = ground (arith, v.count, ap length e) in
    rw none_left (drained-IsEmpty q v e)
flush_packets-IsEmpty (suc fuel) q (p ∷ ps) v e f =
    let (v', head, rest) = remove_head-IsQueue q v in
    let more : ltb 0 q.count ≡ true = ground (arith, v.count, ap length e) in
    rw more
      (flush_packets-IsEmpty fuel (remove_head q).1 ps v' (rest ∙ ap (drop 1) e) (omega arith))

-- If the counters of the packet queue are true, tapFlushSendPacketQueue ends with an empty packet
-- queue whose counters are 0 and with no list of frames held; every list that was held is
-- completed, and none is lost or completed twice.
pub flush_send_packet_queue_lem :
    (a : Adapter) (id : ℕ)
    → IsQueue a.send_packet_queue
    → let b = flush_send_packet_queue a in
      IsEmpty b.send_packet_queue
      × (b.flow_control_list ≡ [])
      × (b.flow_control_has_packets ≡ false)
      × (accounted id b ≡ accounted id a)
unfolding flush_send_packet_queue complete_flow_control_packets
flush_send_packet_queue_lem a id v =
    let q = flush_packets (suc (length a.send_packet_queue.queue)) a.send_packet_queue in
    let b : Adapter = record a {
      send_packet_queue = q;
      flow_control_list = [];
      flow_control_has_packets = false;
    } in
    (
      subst IsEmpty (sym (complete-keeps (λ t. t.0) a.flow_control_list b success)) (
          flush_packets-IsEmpty _ a.send_packet_queue a.send_packet_queue.queue v refl
            (omega arith)),
      complete-flow a.flow_control_list b success,
      complete-keeps (λ t. t.1.1.1.1) a.flow_control_list b success,
      omega (
        arith,
        complete-times a.flow_control_list b success id,
        ap length (complete-flow a.flow_control_list b success),
        ap (times id) (complete-flow a.flow_control_list b success),
      ),
    )
