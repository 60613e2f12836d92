-- ===== src/History/Reads.antt =====
-- What the application reads, and the lists of the host that are completed with it, keep the adapter
-- well.
use tap_windows.Base.{
  ℕ, zero, suc, ◌+◌, ◌≡◌, refl, ap, arith, Bool, false, not, ◌&&◌, List, [], ◌∷◌, length,
  if◌then◌else◌, ◌==◌, ltb, Bool-cases, inl, inr,
}
use tap_windows.Ndis.{Irp, Nbl, NdisStatus, NtStatus}
use tap_windows.Adapter.{
  Adapter, read_and_write_ready, send_and_receive_ready, success, invalid_length, is_open,
  is_success,
}
use tap_windows.Adapter.Queue.{Packet, insert_tail, remove_head, remove_head_of}
use tap_windows.Adapter.Irps.{irp_csq_insert}
use tap_windows.Receive.{Pool, with_frame}
use tap_windows.Transmit.Read.{
  complete_nbl, complete_pending_read_irp, send_net_buffer_lists_complete,
  complete_flow_control_packets, check_flow_control, deliver, process_loop,
  process_send_packet_queue, tap_device_read, failed_read, flush_send_packet_queue, tap_buffer_size,
}
use tap_windows.Adapter.Irps.Pending.{remove-first}
use tap_windows.Transmit.Read.Order.{idle_packets, idle_irps, after_round, busy_round}
use tap_windows.Transmit.Read.Pended.{one, reads, reads-append, complete-id}
use tap_windows.Transmit.Send.{
  Supply, transmit_buffers, transmit_lists, hold_nbls, adapter_send_net_buffer_lists, lengths_valid,
}
use tap_windows.History.Counters.{
  insert_tail-IsTrue, remove_head-IsTrue, insert-IsNumbered, first-IsNumbered, flush_packets-IsTrue,
}
use tap_windows.History.Well.{IsWell, IsWell-of, if-Keeps}
use tap_windows.History.Sends.{transmit-Keeps}

module _ {t : ℕ → ℕ} where
  -- A frame of the driver that goes to the host
  sent_frame-IsWell :
      (pool : Pool) (a : Adapter) (frame : List ℕ) → IsWell t a → IsWell t (with_frame pool a frame)
  sent_frame-IsWell pool a frame w =
      IsWell-of a (with_frame pool a frame) w refl w.packets w.pending (omega (arith, w.counted))
        (λ id. omega (arith, w.requests id))

  noted-IsWell :
      (a : Adapter) (d : Bool) (n : ℕ)
      → IsWell t a
      → IsWell t (record a { dhcp_received_discover = d; dhcp_bad_requests = n })
  noted-IsWell a d n w = IsWell-of a _ w refl w.packets w.pending w.counted w.requests

  queued-IsWell :
      (a : Adapter) (p : Packet)
      → IsWell t a
      → IsWell t (record a { send_packet_queue = insert_tail a.send_packet_queue p })
  queued-IsWell a p w =
      IsWell-of a _ w refl (insert_tail-IsTrue a.send_packet_queue p w.packets) w.pending w.counted
        w.requests

  complete-IsWell :
      (nbls : List Nbl) (a : Adapter) (status : NdisStatus)
      → IsWell t a
      → IsWell t (send_net_buffer_lists_complete a nbls status)
  unfolding send_net_buffer_lists_complete complete_nbl
  complete-IsWell [] a status w = w
  complete-IsWell (nbl ∷ nbls) a status w =
      let b = complete_nbl status a nbl in
      complete-IsWell nbls b status (IsWell-of a b w refl w.packets w.pending w.counted w.requests)

  released-IsWell : (a : Adapter) → IsWell t a → IsWell t (complete_flow_control_packets a)
  unfolding complete_flow_control_packets
  released-IsWell a w =
      let b = record a { flow_control_list = []; flow_control_has_packets = false } in
      complete-IsWell a.flow_control_list b success
        (IsWell-of a b w refl w.packets w.pending w.counted w.requests)

  check-IsWell : (a : Adapter) → IsWell t a → IsWell t (check_flow_control a)
  unfolding check_flow_control
  check-IsWell a w =
      if-Keeps (IsWell t)
        (a.flow_control_has_packets && ltb a.send_packet_queue.total_bytes tap_buffer_size)
        (complete_flow_control_packets a) a (released-IsWell a w) w

  round-IsWell :
      (a : Adapter) (irp : Irp) (irps : List Irp) (p : Packet)
      → a.pending_read_irp_queue.queue ≡ irp ∷ irps
      → IsWell t a
      → IsWell t (after_round a irp p)
  unfolding deliver
  round-IsWell a irp irps p e w =
      let left = remove-first a.pending_read_irp_queue irp irps e in
      IsWell-of a (after_round a irp p) w refl (remove_head-IsTrue a.send_packet_queue w.packets)
        (first-IsNumbered a.pending_read_irp_queue irp irps e w.pending) w.counted
        (λ id.
          let mine : one id (complete_pending_read_irp irp p) ≡ one id irp =
            ap (λ (n : ℕ). if n == id then 1 else 0) (complete-id irp p) in
          omega (arith, w.requests id, ap (reads id) e, ap (reads id) left, mine))

  loop_of-IsWell :
      (fuel : ℕ) (a : Adapter) (irps : List Irp) (ps : List Packet)
      → a.pending_read_irp_queue.queue ≡ irps
      → a.send_packet_queue.queue ≡ ps
      → IsWell t a
      → IsWell t (process_loop fuel a)
  unfolding process_loop remove_head deliver
  loop_of-IsWell zero a irps ps ei ep w = w
  loop_of-IsWell (suc fuel) a [] ps ei ep w = rw (idle_irps fuel a ei) w
  loop_of-IsWell (suc fuel) a (irp ∷ irps) [] ei ep w =
      rw (idle_packets fuel a (omega (arith, w.packets.count, ap length ep))) w
  loop_of-IsWell (suc fuel) a (irp ∷ irps) (p ∷ ps) ei ep w =
      let q = a.send_packet_queue in
      let first = ap (λ (l : List Packet). (remove_head_of l q).0) ep in
      let rest = ap (λ (l : List Packet). (remove_head_of l q).1.queue) ep in
      elim (Bool-cases (q.count == 0)) [
        | inl empty ↦ rw (idle_packets fuel a (ground (arith, empty))) w
        | inr busy ↦ rw (busy_round fuel a irp irps p ei first busy) (
            loop_of-IsWell fuel (after_round a irp p) irps ps
              (remove-first a.pending_read_irp_queue irp irps ei) rest
              (round-IsWell a irp irps p ei w))
      ]

  pub process-IsWell : (a : Adapter) → IsWell t a → IsWell t (process_send_packet_queue a)
  unfolding process_send_packet_queue
  process-IsWell a w =
      check-IsWell _
        (loop_of-IsWell (suc (length a.pending_read_irp_queue.queue)) a _ _ refl refl w)

  buffers-IsWell :
      (bs : List (List ℕ)) (supply : ℕ → Supply) (i : ℕ) (a : Adapter) (nbl : Nbl)
      → IsWell t a
      → IsWell t (transmit_buffers supply i a nbl bs)
  unfolding transmit_buffers
  buffers-IsWell [] supply i a nbl w = w
  buffers-IsWell (b ∷ bs) supply i a nbl w = buffers-IsWell bs supply (i + 1) _ nbl (
      transmit-Keeps (IsWell t) sent_frame-IsWell noted-IsWell queued-IsWell (supply i).pool
        (supply i).unset a b nbl w)

  lists-IsWell :
      (nbls : List Nbl) (supply : ℕ → Supply) (i : ℕ) (a : Adapter)
      → IsWell t a
      → IsWell t (transmit_lists supply i a nbls)
  unfolding transmit_lists
  lists-IsWell [] supply i a w = w
  lists-IsWell (nbl ∷ nbls) supply i a w =
      lists-IsWell nbls supply (i + length nbl.net_buffers) _
        (buffers-IsWell nbl.net_buffers supply i a nbl w)

  pub send-IsWell :
      (supply : ℕ → Supply) (a : Adapter) (nbls : List Nbl)
      → IsWell t a
      → IsWell t (adapter_send_net_buffer_lists supply a nbls)
  unfolding adapter_send_net_buffer_lists
  send-IsWell supply a nbls w =
      let sent = lists-IsWell nbls supply 0 a w in
      let b = transmit_lists supply 0 a nbls in
      let held =
        IsWell-of b (hold_nbls b nbls) sent refl sent.packets sent.pending sent.counted
          sent.requests in
      let queued =
        if-Keeps (IsWell t) (ltb tap_buffer_size b.send_packet_queue.total_bytes) (hold_nbls b nbls)
          _ held (complete-IsWell nbls b success sent) in
      if-Keeps (IsWell t) (not (is_open a.tap_file_object)) _ _ (complete-IsWell nbls a success w) (
        if-Keeps (IsWell t) (not (is_success (send_and_receive_ready a))) _ _
          (complete-IsWell nbls a (send_and_receive_ready a) w)
          (if-Keeps (IsWell t) (not (lengths_valid a.mtu_size nbls)) _ _
            (complete-IsWell nbls a invalid_length w) (process-IsWell _ queued)))

  pub flush-IsWell : (a : Adapter) → IsWell t a → IsWell t (flush_send_packet_queue a)
  unfolding flush_send_packet_queue
  flush-IsWell a w =
      let q = a.send_packet_queue in
      released-IsWell _ (
        IsWell-of a _ w refl (flush_packets-IsTrue (suc (length q.queue)) q w.packets) w.pending
          w.counted w.requests)

-- One more request
abbrev pub with_one : Irp → (ℕ → ℕ) → ℕ → ℕ
with_one irp t id = t id + one id irp

module _ {t : ℕ → ℕ} (a : Adapter) (irp : Irp) where
  failed-IsWell :
      (status : NtStatus) → IsWell t a → IsWell (with_one irp t) (failed_read a irp status).1
  failed-IsWell status w =
      IsWell-of a _ w refl w.packets w.pending w.counted (λ id. omega (arith, w.requests id))

  pub read-IsWell :
      (read_length : ℕ) (has_mdl mapped : Bool)
      → IsWell t a
      → IsWell (with_one irp t) (tap_device_read a irp read_length has_mdl mapped).1
  unfolding tap_device_read irp_csq_insert
  read-IsWell read_length has_mdl mapped w =
      let P : NtStatus × Adapter → Type 0 = λ r. IsWell (with_one irp t) r.1 in
      let asked = record irp { information = read_length; status = NtStatus.pending } in
      let q = a.pending_read_irp_queue in
      let b = record a { pending_read_irp_queue = irp_csq_insert q asked } in
      let pended =
        IsWell-of a b w refl w.packets (insert-IsNumbered q asked w.pending) w.counted
          (λ id. omega (arith, w.requests id, reads-append id q.queue (asked ∷ []))) in
      if-Keeps P (not (read_and_write_ready a)) _ _ (failed-IsWell NtStatus.cancelled w) (
        if-Keeps P (not has_mdl) _ _ (failed-IsWell NtStatus.invalid_parameter w) (
          if-Keeps P (not mapped) _ _ (failed-IsWell NtStatus.insufficient_resources w)
            (process-IsWell b pended)))
