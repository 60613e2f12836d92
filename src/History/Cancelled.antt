-- ===== src/History/Cancelled.antt =====
-- The pending reads that are cancelled, one or all of them, are completed.
use tap_windows.Base.{
  ℕ, zero, suc, ◌+◌, ◌<◌, ◌≡◌, refl, ap, arith, List, [], ◌∷◌, Option, some, length, get_elem?,
  Option-cases, inl, inr,
}
use tap_windows.Ndis.{Irp}
use tap_windows.Adapter.{Adapter}
use tap_windows.Adapter.Irps.{
  IrpCsq, irp_csq_remove, without, cancelled_irp, flush_loop, irp_csq_flush,
}
use tap_windows.Adapter.Irps.Pending.{next-first, remove-first, next-none}
use tap_windows.Transmit.Read.Pended.{one, reads}
use tap_windows.Device.Session.{complete_all, flush_irp_queues, cancel_read}
use tap_windows.History.Counters.{flush_loop-IsNumbered, removed-IsNumbered}
use tap_windows.History.Well.{IsWell, IsWell-of}

reads-complete_all :
    (id : ℕ) (irps done : List Irp)
    → reads id (complete_all irps done) ≡ reads id irps + reads id done
reads-complete_all id [] done = omega arith
reads-complete_all id (irp ∷ irps) done = omega (arith, reads-complete_all id irps (irp ∷ done))

-- What the loop completes and what it leaves is what was pending.
flush_loop-reads :
    (fuel : ℕ) (q : IrpCsq) (irps : List Irp) (id : ℕ)
    → q.queue ≡ irps
    → reads id (flush_loop fuel q).0 + reads id (flush_loop fuel q).1.queue ≡ reads id irps
unfolding flush_loop cancelled_irp
flush_loop-reads zero q irps id e = omega (arith, ap (reads id) e)
flush_loop-reads (suc fuel) q [] id e =
    let next = next-none q e in
    rw
      (
        flush_loop,
        ap (λ (r : Option Irp × IrpCsq). r.0) next,
        ap (λ (r : Option Irp × IrpCsq). r.1) next,
      )
      (omega (arith, ap (reads id) e))
flush_loop-reads (suc fuel) q (irp ∷ irps) id e =
    let next = next-first q irp irps e in
    let later = flush_loop-reads fuel (irp_csq_remove q irp) irps id (remove-first q irp irps e) in
    rw
      (
        flush_loop,
        ap (λ (r : Option Irp × IrpCsq). r.0) next,
        ap (λ (r : Option Irp × IrpCsq). r.1) next,
      )
      (omega (arith, later))

flush_loop-empty :
    (fuel : ℕ) (q : IrpCsq) (irps : List Irp)
    → q.queue ≡ irps
    → length irps < fuel
    → (flush_loop fuel q).1.queue ≡ []
unfolding flush_loop
flush_loop-empty zero q irps e f = absurd (omega arith)
flush_loop-empty (suc fuel) q [] e f =
    let next = next-none q e in
    rw
      (
        flush_loop,
        ap (λ (r : Option Irp × IrpCsq). r.0) next,
        ap (λ (r : Option Irp × IrpCsq). r.1) next,
      )
      e
flush_loop-empty (suc fuel) q (irp ∷ irps) e f =
    let next = next-first q irp irps e in
    rw
      (
        flush_loop,
        ap (λ (r : Option Irp × IrpCsq). r.0) next,
        ap (λ (r : Option Irp × IrpCsq). r.1) next,
      )
      (flush_loop-empty fuel (irp_csq_remove q irp) irps (remove-first q irp irps e) (omega arith))

-- A flush leaves nothing pending, whatever the counter says.
pub flush_irps-empty : (a : Adapter) → (flush_irp_queues a).pending_read_irp_queue.queue ≡ []
unfolding flush_irp_queues irp_csq_flush
flush_irps-empty a =
    let q = a.pending_read_irp_queue in
    flush_loop-empty (suc (length q.queue)) q q.queue refl (omega arith)

reads-without :
    (irps : List Irp) (i : ℕ) (irp : Irp) (id : ℕ)
    → get_elem? irps i ≡ some irp
    → one id irp + reads id (without irp.irp_id irps) ≡ reads id irps
reads-without [] i irp id e = cc
reads-without (x ∷ irps) zero irp id e = ground (arith, e)
reads-without (x ∷ irps) (suc i) irp id e = ground (arith, reads-without irps i irp id e)

module _ {t : ℕ → ℕ} (a : Adapter) where
  pub flush_irps-IsWell : IsWell t a → IsWell t (flush_irp_queues a)
  unfolding flush_irp_queues irp_csq_flush
  flush_irps-IsWell w =
      let q = a.pending_read_irp_queue in
      let flushed = flush_loop (suc (length q.queue)) q in
      IsWell-of a (flush_irp_queues a) w refl w.packets
        (flush_loop-IsNumbered (suc (length q.queue)) q w.pending) w.counted
        (λ id. omega (
          arith,
          w.requests id,
          reads-complete_all id flushed.0 a.completed_irps,
          flush_loop-reads (suc (length q.queue)) q q.queue id refl,
        ))

  one_less-IsWell :
      (i : ℕ) (irp : Irp)
      → get_elem? a.pending_read_irp_queue.queue i ≡ some irp
      → IsWell t a
      → IsWell t (record a {
        pending_read_irp_queue = irp_csq_remove a.pending_read_irp_queue irp;
        completed_irps = cancelled_irp irp ∷ a.completed_irps;
      })
  unfolding cancelled_irp irp_csq_remove
  one_less-IsWell i irp e w =
      IsWell-of a _ w refl w.packets (removed-IsNumbered a.pending_read_irp_queue i irp e w.pending)
        w.counted
        (λ id.
          omega (arith, w.requests id, reads-without a.pending_read_irp_queue.queue i irp id e))

  pub cancel-IsWell : (i : ℕ) → IsWell t a → IsWell t (cancel_read a i)
  unfolding cancel_read
  cancel-IsWell i w = elim (Option-cases (get_elem? a.pending_read_irp_queue.queue i)) [
    | inl none_there ↦ rw (cancel_read, none_there) w
    | inr (irp, e) ↦ rw (cancel_read, e) (one_less-IsWell i irp e w)
  ]
