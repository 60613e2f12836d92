-- ===== src/Device/Closed.antt =====
-- What is left of a session once its file is closed, and how the next one starts.
use tap_windows.Base.{
  ℕ, ◌+◌, ◌^◌, ◌<◌, ◌≡◌, ◌∙◌, refl, sym, subst, ap, arith, false, List, [], ◌∷◌, some, length, map,
}
use tap_windows.Ndis.{Irp, Nbl, NdisStatus, NtStatus}
use tap_windows.Adapter.{Adapter, read_and_write_ready, success}
use tap_windows.Adapter.Queue.Fifo.{IsQueue}
use tap_windows.Adapter.Irps.{IrpCsq, cancelled_irp, irp_csq_flush}
use tap_windows.Adapter.Irps.Pending.{irp_csq_flush_lem}
use tap_windows.Transmit.Read.{
  complete_nbl, send_net_buffer_lists_complete, flush_send_packet_queue,
  complete_flow_control_packets,
}
use tap_windows.Transmit.Read.Flow.{accounted, complete-keeps}
use tap_windows.Transmit.Read.Flush.{IsEmpty, flush_send_packet_queue_lem}
use tap_windows.Transmit.Read.Pended.{one, reads, answered}
use tap_windows.Device.{reset_adapter_state, set_media_connect_status}
use tap_windows.Device.Session.{
  tap_device_create, complete_all, flush_irp_queues, tap_device_cleanup, tap_device_close,
}

reads-complete_all :
    (id : ℕ) (irps done : List Irp)
    → reads id (complete_all irps done) ≡ reads id irps + reads id done
reads-complete_all id [] done = omega arith
reads-complete_all id (irp ∷ irps) done = omega (arith, reads-complete_all id irps (irp ∷ done))

reads-cancelled : (id : ℕ) (irps : List Irp) → reads id (map cancelled_irp irps) ≡ reads id irps
unfolding cancelled_irp
reads-cancelled id [] = refl
reads-cancelled id (irp ∷ irps) = ap (λ (n : ℕ). one id irp + n) (reads-cancelled id irps)

-- The pending requests have a true count.
pub record IsPending (a : Adapter) : Type 0 where
  pub count : a.pending_read_irp_queue.count ≡ length a.pending_read_irp_queue.queue
  pub bound : length a.pending_read_irp_queue.queue < 2 ^ 32

IsPending-of :
    (a b : Adapter)
    → b.pending_read_irp_queue ≡ a.pending_read_irp_queue
    → IsPending a
    → IsPending b
IsPending-of a b same h = record {
  count =
      ap (λ (q : IrpCsq). q.count) same ∙ h.count ∙ ap (λ (q : IrpCsq). length q.queue) (sym same);
  bound = omega (arith, h.bound, ap (λ (q : IrpCsq). length q.queue) same);
}

flush_irp_queues_lem :
    (a : Adapter) (id : ℕ)
    → IsPending a
    → let b = flush_irp_queues a in
      (b.pending_read_irp_queue.queue ≡ [])
      × (b.pending_read_irp_queue.count ≡ 0)
      × (reads id b.completed_irps ≡ answered id a)
unfolding flush_irp_queues
flush_irp_queues_lem a id h =
    let q = a.pending_read_irp_queue in
    let (done, empty, none_left) = irp_csq_flush_lem q h.count h.bound in
    (
      empty,
      none_left,
      omega (
        arith,
        reads-complete_all id (irp_csq_flush q).0 a.completed_irps,
        ap (reads id) done,
        reads-cancelled id q.queue,
      ),
    )

-- Flushing the packets leaves the pending and the completed requests alone.
flush_send_packet_queue-irps :
    (a : Adapter)
    → let b = flush_send_packet_queue a in
      (b.pending_read_irp_queue ≡ a.pending_read_irp_queue) × (b.completed_irps ≡ a.completed_irps)
unfolding flush_send_packet_queue complete_flow_control_packets
flush_send_packet_queue-irps a = (
  complete-keeps (λ t. t.1.0) a.flow_control_list _ success,
  complete-keeps (λ t. t.1.1.0) a.flow_control_list _ success,
)

complete-open :
    (nbls : List Nbl) (a : Adapter) (status : NdisStatus)
    → (send_net_buffer_lists_complete a nbls status).tap_file_is_open ≡ a.tap_file_is_open
unfolding send_net_buffer_lists_complete complete_nbl
complete-open [] a status = refl
complete-open (nbl ∷ nbls) a status = complete-open nbls (complete_nbl status a nbl) status

-- Neither queue, nor the lists held by flow control, keep anything of `a`; all of it is completed.
record IsDrained (id : ℕ) (a b : Adapter) : Type 0 where
  packets : IsEmpty b.send_packet_queue
  held : b.flow_control_list ≡ []
  pending : b.pending_read_irp_queue.queue ≡ []
  irps : reads id b.completed_irps ≡ answered id a
  nbls : accounted id b ≡ accounted id a

drain :
    (a : Adapter) (id : ℕ)
    → IsQueue a.send_packet_queue
    → IsPending a
    → IsDrained id a (flush_irp_queues (flush_send_packet_queue a))
unfolding flush_irp_queues
drain a id v h =
    let b = flush_send_packet_queue a in
    let (packets, held, flag, nbls) = flush_send_packet_queue_lem a id v in
    let (same, done) = flush_send_packet_queue-irps a in
    let pending = IsPending-of a b same h in
    let (empty, none_left, irps) = flush_irp_queues_lem b id pending in
    record {
      packets = packets;
      held = held;
      pending = empty;
      irps = omega (arith, irps, ap (reads id) done, ap (λ (q : IrpCsq). reads id q.queue) same);
      nbls = nbls;
    }

drain-open :
    (a : Adapter)
    → (flush_irp_queues (flush_send_packet_queue a)).tap_file_is_open ≡ a.tap_file_is_open
unfolding flush_irp_queues flush_send_packet_queue complete_flow_control_packets
drain-open a = complete-open a.flow_control_list _ success

-- Telling the host of the link, and the reset, leave alone what is to be drained.
abbrev quiet : Adapter → Adapter
quiet a = reset_adapter_state (set_media_connect_status (record a { tap_file_is_open = false }) 0)

module _ (a : Adapter) where
  quiet-packets : (quiet a).send_packet_queue ≡ a.send_packet_queue
  unfolding reset_adapter_state set_media_connect_status
  quiet-packets = ground arith

  quiet-pending : (quiet a).pending_read_irp_queue ≡ a.pending_read_irp_queue
  unfolding reset_adapter_state set_media_connect_status
  quiet-pending = ground arith

  quiet-done : (quiet a).completed_irps ≡ a.completed_irps
  unfolding reset_adapter_state set_media_connect_status
  quiet-done = ground arith

  quiet-accounted : (id : ℕ) → accounted id (quiet a) ≡ accounted id a
  unfolding reset_adapter_state set_media_connect_status
  quiet-accounted id = ground arith

  quiet-open : (quiet a).tap_file_is_open ≡ false
  unfolding reset_adapter_state set_media_connect_status
  quiet-open = ground arith

closed_unready : (a : Adapter) → a.tap_file_is_open ≡ false → read_and_write_ready a ≡ false
unfolding read_and_write_ready
closed_unready a h = ground (arith, h)

cleanup-IsDrained :
    (a : Adapter) (id : ℕ)
    → IsQueue a.send_packet_queue
    → IsPending a
    → IsDrained id a (tap_device_cleanup a)
unfolding tap_device_cleanup
cleanup-IsDrained a id v h =
    let same = quiet-pending a in
    let pending = IsPending-of a (quiet a) same h in
    let drained = drain (quiet a) id (subst IsQueue (sym (quiet-packets a)) v) pending in
    record {
      packets = drained.packets;
      held = drained.held;
      pending = drained.pending;
      irps = omega (
        arith,
        drained.irps,
        ap (reads id) (quiet-done a),
        ap (λ (q : IrpCsq). reads id q.queue) same,
      );
      nbls = drained.nbls ∙ quiet-accounted a id;
    }

-- After TapDeviceCleanup the device is not ready for reads and writes; no packet waits, no list of
-- frames is held and no read is pending; every read that was pending is completed, every list that
-- was held is completed, and none is lost or completed twice. The next file that is opened after
-- TapDeviceClose succeeds, with empty queues, and neither point-to-point mode nor the masquerade
-- nor any user-supplied options of the session before. The counters of both queues are true.
pub session_lem :
    (a : Adapter) (file id nbl : ℕ)
    → IsQueue a.send_packet_queue
    → IsPending a
    → let b = tap_device_cleanup a in
      let (status, c) = tap_device_create (tap_device_close b) file in
      (read_and_write_ready b ≡ false)
      × (IsEmpty b.send_packet_queue × IsEmpty c.send_packet_queue)
      × (b.flow_control_list ≡ [])
      × ((b.pending_read_irp_queue.queue ≡ []) × (c.pending_read_irp_queue.queue ≡ []))
      × (reads id b.completed_irps ≡ answered id a)
      × (accounted nbl b ≡ accounted nbl a)
      × (status ≡ NtStatus.success)
      × (c.tap_file_object ≡ some file)
      × (c.tun ≡ false)
      × (c.dhcp_enabled ≡ false)
      × (c.dhcp_user_supplied_options_buffer_len ≡ 0)
unfolding tap_device_cleanup tap_device_close tap_device_create reset_adapter_state
session_lem a file id nbl v h =
    let b = tap_device_cleanup a in
    let drained = cleanup-IsDrained a id v h in
    (
      closed_unready b (drain-open (quiet a) ∙ quiet-open a),
      (drained.packets, drained.packets),
      drained.held,
      (drained.pending, drained.pending),
      drained.irps,
      (cleanup-IsDrained a nbl v h).nbls,
      refl,
      refl,
      refl,
      refl,
      refl,
    )
