-- ===== src/History/Counters.antt =====
-- The counters of the packet queue and of the pending reads, however many there are.
use tap_windows.Base.{
  ℕ, zero, suc, ◌≡◌, refl, sym, ap, subst, arith, List, [], ◌∷◌, Option, none, some, length,
  length-append, u32, get_elem?, ltb, Bool-cases, inl, inr,
}
use tap_windows.Ndis.{Irp}
use tap_windows.Adapter.Queue.{Packet, PacketQueue, insert_tail, remove_head, remove_head_of}
use tap_windows.Adapter.Queue.Fifo.{bytes_of, bytes_of-append}
use tap_windows.Adapter.Irps.{
  IrpCsq, irp_csq_insert, irp_csq_remove, remove_next_irp, without, flush_loop,
}
use tap_windows.Adapter.Irps.Pending.{next-first, next-none}
use tap_windows.Transmit.Read.{flush_packets}

-- The counters of the packet queue are those of its packets, in their 32 bits.
pub record IsTrue (q : PacketQueue) : Type 0 where
  pub count : q.count ≡ u32 (length q.queue)
  pub total : q.total_bytes ≡ u32 (bytes_of q.queue)

-- The counter of the pending reads is their number, in its 32 bits.
abbrev pub IsNumbered : IrpCsq → Type 0
IsNumbered q = q.count ≡ u32 (length q.queue)

pub insert_tail-IsTrue : (q : PacketQueue) (p : Packet) → IsTrue q → IsTrue (insert_tail q p)
unfolding insert_tail
insert_tail-IsTrue q p h = record {
  count = omega (arith, h.count, length-append q.queue (p ∷ []));
  total = omega (arith, h.total, bytes_of-append q.queue p);
}

removed-IsTrue :
    (ps : List Packet) (q : PacketQueue) → q.queue ≡ ps → IsTrue q → IsTrue (remove_head_of ps q).1
removed-IsTrue [] q e h = h
removed-IsTrue (p ∷ ps) q e h = record {
  count = omega (arith, h.count, ap length e);
  total = omega (arith, h.total, ap bytes_of e);
}

pub remove_head-IsTrue : (q : PacketQueue) → IsTrue q → IsTrue (remove_head q).1
unfolding remove_head
remove_head-IsTrue q h = removed-IsTrue q.queue q refl h

pub flush_packets-IsTrue : (fuel : ℕ) (q : PacketQueue) → IsTrue q → IsTrue (flush_packets fuel q)
unfolding flush_packets
flush_packets-IsTrue zero q h = h
flush_packets-IsTrue (suc fuel) q h =
    let rest = flush_packets-IsTrue fuel (remove_head q).1 (remove_head-IsTrue q h) in
    elim (Bool-cases (ltb 0 q.count)) [ inl more ↦ rw more rest | inr done ↦ rw done h ]

pub insert-IsNumbered : (q : IrpCsq) (irp : Irp) → IsNumbered q → IsNumbered (irp_csq_insert q irp)
unfolding irp_csq_insert
insert-IsNumbered q irp h = omega (arith, h, length-append q.queue (irp ∷ []))

-- A request that is pending is one fewer when it is removed.
length-without :
    (irps : List Irp) (i : ℕ) (irp : Irp)
    → get_elem? irps i ≡ some irp
    → suc (length (without irp.irp_id irps)) ≡ length irps
length-without [] i irp e = cc
length-without (x ∷ irps) zero irp e = ground (arith, e)
length-without (x ∷ irps) (suc i) irp e = ground (arith, length-without irps i irp e)

pub removed-IsNumbered :
    (q : IrpCsq) (i : ℕ) (irp : Irp)
    → get_elem? q.queue i ≡ some irp
    → IsNumbered q
    → IsNumbered (irp_csq_remove q irp)
unfolding irp_csq_remove
removed-IsNumbered q i irp e h = omega (arith, h, length-without q.queue i irp e)

pub first-IsNumbered :
    (q : IrpCsq) (irp : Irp) (irps : List Irp)
    → q.queue ≡ irp ∷ irps
    → IsNumbered q
    → IsNumbered (irp_csq_remove q irp)
first-IsNumbered q irp irps e h = removed-IsNumbered q 0 irp (ap (λ l. get_elem? l 0) e) h

next_of-IsNumbered :
    (q : IrpCsq) (irps : List Irp)
    → q.queue ≡ irps
    → IsNumbered q
    → IsNumbered (remove_next_irp none q).1
next_of-IsNumbered q [] e h =
    subst (λ (r : Option Irp × IrpCsq). IsNumbered r.1) (sym (next-none q e)) h
next_of-IsNumbered q (irp ∷ irps) e h =
    subst (λ (r : Option Irp × IrpCsq). IsNumbered r.1) (sym (next-first q irp irps e))
      (first-IsNumbered q irp irps e h)

pub next-IsNumbered : (q : IrpCsq) → IsNumbered q → IsNumbered (remove_next_irp none q).1
next-IsNumbered q h = next_of-IsNumbered q q.queue refl h

pub flush_loop-IsNumbered :
    (fuel : ℕ) (q : IrpCsq) → IsNumbered q → IsNumbered (flush_loop fuel q).1
unfolding flush_loop
flush_loop-IsNumbered zero q h = h
flush_loop-IsNumbered (suc fuel) q h =
    let (found, q') = remove_next_irp none q in
    let next = next-IsNumbered q h in
    let rest = flush_loop-IsNumbered fuel q' next in ground (arith, next, rest)
