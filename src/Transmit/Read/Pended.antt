-- ===== src/Transmit/Read/Pended.antt =====
-- Every read of the application is answered for.
use tap_windows.Base.{ℕ, ◌+◌, ◌≡◌, ap, arith, Bool, List, [], ◌∷◌, ◌++◌, ◌==◌, if◌then◌else◌}
use tap_windows.Ndis.{Irp, NtStatus}
use tap_windows.Adapter.{Adapter}
use tap_windows.Adapter.Queue.{Packet}
use tap_windows.Adapter.Queue.Fifo.{IsQueue}
use tap_windows.Adapter.Irps.{irp_csq_insert}
use tap_windows.Transmit.Read.{
  complete_pending_read_irp, process_send_packet_queue, tap_device_read,
}
use tap_windows.Transmit.Read.Order.{served, left_over}
use tap_windows.Transmit.Read.Flow.{process_send_packet_queue-served}

abbrev pub one : ℕ → Irp → ℕ
one id irp = if irp.irp_id == id then 1 else 0

-- How often a request occurs.
abbrev pub reads : ℕ → List Irp → ℕ
reads id [] = 0
reads id (irp ∷ irps) = one id irp + reads id irps

-- Completed or pending.
abbrev pub answered : ℕ → Adapter → ℕ
answered id a = reads id a.completed_irps + reads id a.pending_read_irp_queue.queue

pub reads-append : (id : ℕ) (xs ys : List Irp) → reads id (xs ++ ys) ≡ reads id xs + reads id ys
reads-append id [] ys = omega arith
reads-append id (x ∷ xs) ys = omega (arith, reads-append id xs ys)

pub complete-id : (irp : Irp) (p : Packet) → (complete_pending_read_irp irp p).irp_id ≡ irp.irp_id
unfolding complete_pending_read_irp
complete-id irp p = ground arith

reads-served :
    (id : ℕ) (irps : List Irp) (ps : List Packet) (done : List Irp)
    → reads id (served irps ps done) + reads id (left_over ps irps) ≡ reads id irps + reads id done
reads-served id [] [] done = omega arith
reads-served id [] (p ∷ ps) done = omega arith
reads-served id (irp ∷ irps) [] done = omega arith
reads-served id (irp ∷ irps) (p ∷ ps) done =
    let later = reads-served id irps ps (complete_pending_read_irp irp p ∷ done) in
    let mine : one id (complete_pending_read_irp irp p) ≡ one id irp =
      ap (λ (n : ℕ). if n == id then 1 else 0) (complete-id irp p) in
    omega (arith, later, mine)

process-answered :
    (a : Adapter) (id : ℕ)
    → IsQueue a.send_packet_queue
    → answered id (process_send_packet_queue a) ≡ answered id a
process-answered a id v =
    let (done, packets, pending, valid) = process_send_packet_queue-served a v in
    omega (
      arith,
      ap (reads id) done,
      ap (reads id) pending,
      reads-served id a.pending_read_irp_queue.queue a.send_packet_queue.queue a.completed_irps,
    )

-- TapDeviceRead answers for its request exactly once, whether the device is ready and the buffer is
-- mapped or not: afterwards the request is completed or waits for a packet, and no request that was
-- completed or pending before is lost or completed twice. The counters of the packet queue are
-- true.
pub tap_device_read-answered :
    (a : Adapter) (irp : Irp) (read_length : ℕ) (has_mdl mapped : Bool) (id : ℕ)
    → IsQueue a.send_packet_queue
    → answered id (tap_device_read a irp read_length has_mdl mapped).1 ≡ answered id a + one id irp
unfolding tap_device_read irp_csq_insert
tap_device_read-answered a irp read_length has_mdl mapped id v =
    let pended = record irp { information = read_length; status = NtStatus.pending } in
    let b : Adapter = record a {
      pending_read_irp_queue = irp_csq_insert a.pending_read_irp_queue pended;
    } in
    ground
      (arith, process-answered b id v, reads-append id a.pending_read_irp_queue.queue (pended ∷ []))
