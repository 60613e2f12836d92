-- ===== src/Adapter/Irps/Pending.antt =====
-- The pending requests are taken in order, and a flush cancels each of them once.
use tap_windows.Base.{
  ℕ, zero, suc, ◌-◌, ◌^◌, ◌<◌, ◌≡◌, refl, ap, arith, List, [], ◌∷◌, Option, none, some, map, length,
}
use tap_windows.Ndis.{Irp}
use tap_windows.Adapter.Irps.{
  IrpCsq, peek_from, irp_csq_remove, remove_next_irp, cancelled_irp, flush_loop, irp_csq_flush,
}

pub next-first :
    (q : IrpCsq) (irp : Irp) (irps : List Irp)
    → q.queue ≡ irp ∷ irps
    → remove_next_irp none q ≡ (some irp, irp_csq_remove q irp)
unfolding remove_next_irp
next-first q irp irps e =
    ap
      (λ (pending : List Irp). elim (peek_from none pending) as (λ _. Option Irp × IrpCsq) [
        | none ↦ (none, q)
        | some irp ↦ (some irp, irp_csq_remove q irp)
      ])
      e

-- The head of the pending requests is the one that is removed.
pub remove-first :
    (q : IrpCsq) (irp : Irp) (irps : List Irp)
    → q.queue ≡ irp ∷ irps
    → (irp_csq_remove q irp).queue ≡ irps
unfolding irp_csq_remove
remove-first q irp irps e = rw e (ground arith)

pub next-none : (q : IrpCsq) → q.queue ≡ [] → remove_next_irp none q ≡ (none, q)
unfolding remove_next_irp
next-none q e =
    ap
      (λ (pending : List Irp). elim (peek_from none pending) as (λ _. Option Irp × IrpCsq) [
        | none ↦ (none, q)
        | some irp ↦ (some irp, irp_csq_remove q irp)
      ])
      e

remove-count :
    (q : IrpCsq) (irp : Irp) (n : ℕ)
    → q.count ≡ suc n
    → n < 2 ^ 32 - 1
    → (irp_csq_remove q irp).count ≡ n
unfolding irp_csq_remove
remove-count q irp n e h = omega (arith, e)

flush_loop_lem :
    (fuel : ℕ) (q : IrpCsq) (irps : List Irp)
    → q.queue ≡ irps
    → q.count ≡ length irps
    → length irps < 2 ^ 32
    → length irps < fuel
    → ((flush_loop fuel q).0 ≡ map cancelled_irp irps)
      × ((flush_loop fuel q).1.queue ≡ [])
      × ((flush_loop fuel q).1.count ≡ 0)
unfolding flush_loop
flush_loop_lem zero q irps e c b f = absurd (omega arith)
flush_loop_lem (suc fuel) q [] e c b f =
    let next = next-none q e in
    rw
      (
        flush_loop,
        ap (λ (r : Option Irp × IrpCsq). r.0) next,
        ap (λ (r : Option Irp × IrpCsq). r.1) next,
      )
      (refl, e, c)
flush_loop_lem (suc fuel) q (irp ∷ irps) e c b f =
    let next = next-first q irp irps e in
    let (done, empty, none_left) =
      flush_loop_lem fuel (irp_csq_remove q irp) irps (remove-first q irp irps e)
        (remove-count q irp (length irps) c (omega arith)) (omega arith) (omega arith) in
    rw
      (
        flush_loop,
        ap (λ (r : Option Irp × IrpCsq). r.0) next,
        ap (λ (r : Option Irp × IrpCsq). r.1) next,
      )
      (ap (λ (l : List Irp). cancelled_irp irp ∷ l) done, empty, none_left)

-- tapIrpCsqFlush completes every pending request exactly once, as cancelled and in the order in
-- which they came, and leaves the queue empty with a count of 0. Its loop ends: the fuel is enough.
-- The count is that of the requests, of which there are less than 2 ^ 32.
pub irp_csq_flush_lem :
    (q : IrpCsq)
    → q.count ≡ length q.queue
    → length q.queue < 2 ^ 32
    → ((irp_csq_flush q).0 ≡ map cancelled_irp q.queue)
      × ((irp_csq_flush q).1.queue ≡ [])
      × ((irp_csq_flush q).1.count ≡ 0)
unfolding irp_csq_flush
irp_csq_flush_lem q c b = flush_loop_lem (suc (length q.queue)) q q.queue refl c b (omega arith)
