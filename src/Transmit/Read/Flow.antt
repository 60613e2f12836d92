-- ===== src/Transmit/Read/Flow.antt =====
-- Flow control: no list of frames is lost or completed twice, and none is held while there is room.
use tap_windows.Base.{
  ℕ, zero, suc, ◌+◌, ◌≤◌, ◌≡◌, ◌⊎◌, ◌∙◌, refl, sym, ap, arith, List, [], ◌∷◌, ◌++◌, Option, none,
  some, length, Bool, true, false, ◌&&◌, ltb, ◌==◌, if◌then◌else◌, Bool-cases, inl, inr, subst,
}
use tap_windows.Ndis.{Irp, Nbl, NdisStatus}
use tap_windows.Adapter.{Adapter, success}
use tap_windows.Adapter.Queue.{Packet, PacketQueue, remove_head}
use tap_windows.Adapter.Queue.Fifo.{IsQueue}
use tap_windows.Adapter.Irps.{IrpCsq, remove_next_irp}
use tap_windows.Transmit.Read.{
  complete_nbl, send_net_buffer_lists_complete, complete_flow_control_packets, check_flow_control,
  tap_buffer_size, deliver, process_loop, process_send_packet_queue,
}
use tap_windows.Transmit.Read.Order.{served, left_over, process_loop-served}

-- How often a list of frames occurs.
abbrev pub times : ℕ → List Nbl → ℕ
times id [] = 0
times id (nbl ∷ nbls) = (if nbl.nbl_id == id then 1 else 0) + times id nbls

pub times-append : (id : ℕ) (xs ys : List Nbl) → times id (xs ++ ys) ≡ times id xs + times id ys
times-append id [] ys = omega arith
times-append id (x ∷ xs) ys = omega (arith, times-append id xs ys)

-- Completed or held.
abbrev pub accounted : ℕ → Adapter → ℕ
accounted id a = times id a.completed_nbls + times id a.flow_control_list

pub complete-times :
    (nbls : List Nbl) (a : Adapter) (status : NdisStatus) (id : ℕ)
    → times id (send_net_buffer_lists_complete a nbls status).completed_nbls
      ≡ times id a.completed_nbls + times id nbls
unfolding send_net_buffer_lists_complete complete_nbl
complete-times [] a status id = omega arith
complete-times (nbl ∷ nbls) a status id =
    omega (arith, complete-times nbls (complete_nbl status a nbl) status id)

-- What completing lists of frames leaves alone.
pub complete-keeps {ℓ} :
    {A : Type ℓ} (f : PacketQueue × (IrpCsq × (List Irp × (List Nbl × Bool))) → A) (nbls : List Nbl)
    (a : Adapter) (status : NdisStatus)
    → let of = λ (b : Adapter). f (
      b.send_packet_queue,
      (
        b.pending_read_irp_queue,
        (b.completed_irps, (b.flow_control_list, b.flow_control_has_packets)),
      ),
    ) in
      of (send_net_buffer_lists_complete a nbls status) ≡ of a
unfolding send_net_buffer_lists_complete complete_nbl
complete-keeps f [] a status = refl
complete-keeps f (nbl ∷ nbls) a status = complete-keeps f nbls (complete_nbl status a nbl) status

pub complete-flow :
    (nbls : List Nbl) (a : Adapter) (status : NdisStatus)
    → (send_net_buffer_lists_complete a nbls status).flow_control_list ≡ a.flow_control_list
complete-flow nbls a status = complete-keeps (λ t. t.1.1.1.0) nbls a status

pub check-accounted : (a : Adapter) (id : ℕ) → accounted id (check_flow_control a) ≡ accounted id a
unfolding check_flow_control complete_flow_control_packets
check-accounted a id =
    let b : Adapter = record a { flow_control_list = []; flow_control_has_packets = false } in
    elim (Bool-cases
      (a.flow_control_has_packets && ltb a.send_packet_queue.total_bytes tap_buffer_size)) [
        | inl go ↦ rw go (
            omega (
              arith,
              complete-times a.flow_control_list b success id,
              ap (times id) (complete-flow a.flow_control_list b success),
            ))
        | inr stay ↦ rw stay refl
      ]

-- What tapCheckFlowControl leaves alone.
check-keeps {ℓ} :
    {A : Type ℓ} (f : PacketQueue × (IrpCsq × List Irp) → A) (a : Adapter)
    → let of =
        λ (b : Adapter). f (b.send_packet_queue, (b.pending_read_irp_queue, b.completed_irps)) in
      of (check_flow_control a) ≡ of a
unfolding check_flow_control complete_flow_control_packets
check-keeps f a =
    elim (Bool-cases
      (a.flow_control_has_packets && ltb a.send_packet_queue.total_bytes tap_buffer_size)) [
        | inl go ↦
            rw go (complete-keeps (λ t. f (t.0, (t.1.0, t.1.1.0))) a.flow_control_list _ success)
        | inr stay ↦ rw stay refl
      ]

-- Lists are held only while the flag says so.
abbrev pub IsFlagged : Adapter → Type 0
IsFlagged a = (a.flow_control_list ≡ []) ⊎ (a.flow_control_has_packets ≡ true)

check-held :
    (a : Adapter)
    → IsFlagged a
    → let b = check_flow_control a in
      ((b.flow_control_list ≡ []) ⊎ (tap_buffer_size ≤ b.send_packet_queue.total_bytes))
      × IsFlagged b
unfolding check_flow_control complete_flow_control_packets
check-held a v =
    let b : Adapter = record a { flow_control_list = []; flow_control_has_packets = false } in
    let emptied : (send_net_buffer_lists_complete b a.flow_control_list success).flow_control_list
        ≡ [] =
      complete-flow a.flow_control_list b success in
    elim (Bool-cases
      (a.flow_control_has_packets && ltb a.send_packet_queue.total_bytes tap_buffer_size)) [
        | inl go ↦ rw go (inl emptied, inl emptied)
        | inr stay ↦ rw stay (ground (arith, v, stay), v)
      ]

-- The loop does not touch them.
deliver-flow :
    (a : Adapter) (irps : IrpCsq) (irp : Irp) (p : Option Packet) (packets : PacketQueue)
    → IsFlagged a
    → IsFlagged (deliver a irps irp p packets)
unfolding deliver
deliver-flow a irps irp none packets v = v
deliver-flow a irps irp (some p) packets v = v

round-flow :
    (fuel : ℕ) (a : Adapter) (irp : Option Irp) (irps : IrpCsq) (p : Option Packet)
    (packets : PacketQueue)
    → ((b : Adapter) → IsFlagged b → IsFlagged (process_loop fuel b))
    → IsFlagged a
    → IsFlagged (elim irp as (λ _. Adapter) [
      | none ↦ a
      | some irp ↦ process_loop fuel (deliver a irps irp p packets)
    ])
round-flow fuel a none irps p packets later v = v
round-flow fuel a (some irp) irps p packets later v = later _ (deliver-flow a irps irp p packets v)

loop-flow : (fuel : ℕ) (a : Adapter) → IsFlagged a → IsFlagged (process_loop fuel a)
unfolding process_loop
loop-flow zero a v = v
loop-flow (suc fuel) a v =
    let (irp, irps) = remove_next_irp none a.pending_read_irp_queue in
    let (p, packets) = remove_head a.send_packet_queue in
    let round = round-flow fuel a irp irps p packets (loop-flow fuel) v in
    elim (Bool-cases (a.send_packet_queue.count == 0)) [
      | inl empty ↦ rw empty v
      | inr more ↦ rw more round
    ]

deliver-accounted :
    (a : Adapter) (id : ℕ) (irps : IrpCsq) (irp : Irp) (p : Option Packet) (packets : PacketQueue)
    → accounted id (deliver a irps irp p packets) ≡ accounted id a
unfolding deliver
deliver-accounted a id irps irp none packets = refl
deliver-accounted a id irps irp (some p) packets = refl

round-accounted :
    (fuel : ℕ) (a : Adapter) (id : ℕ) (irp : Option Irp) (irps : IrpCsq) (p : Option Packet)
    (packets : PacketQueue)
    → ((b : Adapter) → accounted id (process_loop fuel b) ≡ accounted id b)
    → accounted id (elim irp as (λ _. Adapter) [
      | none ↦ a
      | some irp ↦ process_loop fuel (deliver a irps irp p packets)
    ])
      ≡ accounted id a
round-accounted fuel a id none irps p packets later = refl
round-accounted fuel a id (some irp) irps p packets later =
    later (deliver a irps irp p packets) ∙ deliver-accounted a id irps irp p packets

-- The loop does not touch the lists of frames.
pub loop-accounted :
    (fuel : ℕ) (a : Adapter) (id : ℕ) → accounted id (process_loop fuel a) ≡ accounted id a
unfolding process_loop
loop-accounted zero a id = refl
loop-accounted (suc fuel) a id =
    let (irp, irps) = remove_next_irp none a.pending_read_irp_queue in
    let (p, packets) = remove_head a.send_packet_queue in
    let round = round-accounted fuel a id irp irps p packets (λ b. loop-accounted fuel b id) in
    elim (Bool-cases (a.send_packet_queue.count == 0)) [
      | inl empty ↦ rw empty refl
      | inr more ↦ rw more round
    ]

pub process-accounted :
    (a : Adapter) (id : ℕ) → accounted id (process_send_packet_queue a) ≡ accounted id a
unfolding process_send_packet_queue
process-accounted a id = check-accounted _ id ∙ loop-accounted _ a id

-- If lists of frames were held only while flow_control_has_packets was set, then after
-- tapProcessSendPacketQueue none is held while less than 4 MB wait in the packet queue: the flow
-- control list is empty, each list that was in it or completed before is completed or held, as often
-- as it was, and lists are still held only while flow_control_has_packets is set.
pub process-holds :
    (a : Adapter) (id : ℕ)
    → IsFlagged a
    → let b = process_send_packet_queue a in
      ((b.flow_control_list ≡ []) ⊎ (tap_buffer_size ≤ b.send_packet_queue.total_bytes))
      × (accounted id b ≡ accounted id a)
      × IsFlagged b
unfolding process_send_packet_queue
process-holds a id v =
    let held = check-held _ (loop-flow (suc (length a.pending_read_irp_queue.queue)) a v) in
    (held.0, process-accounted a id, held.1)

-- tapProcessSendPacketQueue completes pending reads from the packets that wait, the oldest read
-- from the oldest packet and so on until one of the two runs out; the rest keep their order, and
-- the counters of the packet queue, if they were true, stay so.
pub process_send_packet_queue-served :
    (a : Adapter)
    → IsQueue a.send_packet_queue
    → let irps = a.pending_read_irp_queue.queue in
      let ps = a.send_packet_queue.queue in
      let b = process_send_packet_queue a in
      (b.completed_irps ≡ served irps ps a.completed_irps)
      × (b.send_packet_queue.queue ≡ left_over irps ps)
      × (b.pending_read_irp_queue.queue ≡ left_over ps irps)
      × IsQueue b.send_packet_queue
unfolding process_send_packet_queue
process_send_packet_queue-served a v =
    let irps = a.pending_read_irp_queue.queue in
    let b = process_loop (suc (length irps)) a in
    let (done, packets, reads, valid) =
      process_loop-served (suc (length irps)) a irps a.send_packet_queue.queue refl refl v
        (omega arith) in
    (
      check-keeps (λ t. t.1.1) b ∙ done,
      check-keeps (λ t. t.0.queue) b ∙ packets,
      check-keeps (λ t. t.1.0.queue) b ∙ reads,
      subst IsQueue (sym (check-keeps (λ t. t.0) b)) valid,
    )
