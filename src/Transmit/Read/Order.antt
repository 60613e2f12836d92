-- ===== src/Transmit/Read/Order.antt =====
-- The reads are completed in order, each from the packet that has waited longest.
use tap_windows.Base.{
  ℕ, zero, suc, ◌<◌, ◌≡◌, refl, sym, ◌∙◌, ap, arith, List, [], ◌∷◌, Option, some, length, drop,
  false, ◌==◌,
}
use tap_windows.Ndis.{Irp}
use tap_windows.Adapter.{Adapter}
use tap_windows.Adapter.Queue.{Packet, remove_head}
use tap_windows.Adapter.Queue.Fifo.{IsQueue, head_of, remove_head-IsQueue}
use tap_windows.Adapter.Irps.{IrpCsq, remove_next_irp, irp_csq_remove}
use tap_windows.Adapter.Irps.Pending.{next-first, remove-first}
use tap_windows.Transmit.Read.{deliver, process_loop, complete_pending_read_irp}

-- The requests, completed from the packets one by one, the latest first in front of `done`.
abbrev pub served : List Irp → List Packet → List Irp → List Irp
served [] ps done = done
served (irp ∷ irps) [] done = done
served (irp ∷ irps) (p ∷ ps) done = served irps ps (complete_pending_read_irp irp p ∷ done)

abbrev pub left_over {ℓ κ} : {A : Type ℓ} {B : Type κ} → List A → List B → List B
left_over [] bs = bs
left_over (x ∷ xs) [] = []
left_over (x ∷ xs) (b ∷ bs) = left_over xs bs

left_over_nil {ℓ κ} :
    {A : Type ℓ} {B : Type κ} → (xs : List A) → left_over {A = A} {B = B} xs [] ≡ []
left_over_nil [] = refl
left_over_nil (x ∷ xs) = refl

pub idle_packets :
    (fuel : ℕ) (a : Adapter) → a.send_packet_queue.count ≡ 0 → process_loop (suc fuel) a ≡ a
unfolding process_loop
idle_packets fuel a none_left = rw none_left

pub idle_irps :
    (fuel : ℕ) (a : Adapter) → a.pending_read_irp_queue.queue ≡ [] → process_loop (suc fuel) a ≡ a
unfolding process_loop remove_next_irp
idle_irps fuel a none_left = rw none_left (ground arith)

-- The adapter after one round that completes a request.
abbrev pub after_round : Adapter → Irp → Packet → Adapter
after_round a irp p =
    deliver a (irp_csq_remove a.pending_read_irp_queue irp) irp (some p)
      (remove_head a.send_packet_queue).1

pub busy_round :
    (fuel : ℕ) (a : Adapter) (irp : Irp) (irps : List Irp) (p : Packet)
    → a.pending_read_irp_queue.queue ≡ irp ∷ irps
    → (remove_head a.send_packet_queue).0 ≡ some p
    → (a.send_packet_queue.count == 0) ≡ false
    → process_loop (suc fuel) a ≡ process_loop fuel (after_round a irp p)
unfolding process_loop
busy_round fuel a irp irps p ei ep busy =
    let next = next-first a.pending_read_irp_queue irp irps ei in
    rw (
      ap (λ (r : Option Irp × IrpCsq). r.0) next,
      ap (λ (r : Option Irp × IrpCsq). r.1) next,
      ep,
      busy,
    )

pub process_loop-served :
    (fuel : ℕ) (a : Adapter) (irps : List Irp) (ps : List Packet)
    → a.pending_read_irp_queue.queue ≡ irps
    → a.send_packet_queue.queue ≡ ps
    → IsQueue a.send_packet_queue
    → length irps < fuel
    → let b = process_loop fuel a in
      (b.completed_irps ≡ served irps ps a.completed_irps)
      × (b.send_packet_queue.queue ≡ left_over irps ps)
      × (b.pending_read_irp_queue.queue ≡ left_over ps irps)
      × IsQueue b.send_packet_queue
unfolding deliver
process_loop-served zero a irps ps ei ep v f = absurd (omega arith)
process_loop-served (suc fuel) a [] ps ei ep v f =
    rw (idle_irps fuel a ei) (refl, ep, ei ∙ sym (left_over_nil ps), v)
process_loop-served (suc fuel) a (irp ∷ irps) [] ei ep v f =
    let empty : a.send_packet_queue.count ≡ 0 = v.count ∙ ap length ep in
    rw (idle_packets fuel a empty) (refl, ep, ei, v)
process_loop-served (suc fuel) a (irp ∷ irps) (p ∷ ps) ei ep v f =
    let (v', head, rest) = remove_head-IsQueue a.send_packet_queue v in
    let busy : (a.send_packet_queue.count == 0) ≡ false = ground (arith, v.count, ap length ep) in
    rw (busy_round fuel a irp irps p ei (head ∙ ap head_of ep) busy) (
      process_loop-served fuel (after_round a irp p) irps ps
        (remove-first a.pending_read_irp_queue irp irps ei) (rest ∙ ap (drop 1) ep) v'
        (omega arith))
