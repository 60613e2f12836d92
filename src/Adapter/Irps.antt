-- ===== src/Adapter/Irps.antt =====
-- The cancel-safe queue of pending read requests: the callbacks of src/mem.c that IoCsqInsertIrp
-- and IoCsqRemoveNextIrp call with the queue's lock held. The LIST_ENTRY ring is the list of its
-- requests, head first.
pub mod Pending
use tap_windows.Base.{
  ℕ, zero, suc, length, ◌+◌, ◌-◌, ◌^◌, List, [], ◌∷◌, ◌++◌, Option, none, some, ltb, ◌==◌,
  if◌then◌else◌, u32,
}
use tap_windows.Ndis.{Irp, NtStatus}

pub record IrpCsq : Type 0 where
  pub queue : List Irp
  pub count : ℕ
  pub max_count : ℕ

-- tapIrpCsqInitialize
unfoldable pub irp_csq_initialize : IrpCsq → IrpCsq
irp_csq_initialize q = record q { queue = [] }

-- tapIrpCsqInsert
unfoldable pub irp_csq_insert : IrpCsq → Irp → IrpCsq
irp_csq_insert q irp =
    let count = u32 (q.count + 1) in
    record {
      queue = q.queue ++ (irp ∷ []);
      count = count;
      max_count = if ltb q.max_count count then count else q.max_count;
    }

-- tapIrpCsqPeekNextIrp from the head of the list. Without a context the first request is taken.
abbrev pub peek_from : Option ℕ → List Irp → Option Irp
peek_from context [] = none
peek_from none (irp ∷ rest) = some irp
peek_from (some file) (irp ∷ rest) =
    let later = peek_from (some file) rest in if irp.file_object == file then some irp else later

-- RemoveEntryList
abbrev pub without : ℕ → List Irp → List Irp
without id [] = []
without id (irp ∷ rest) =
    let later = without id rest in if irp.irp_id == id then rest else irp ∷ later

-- tapIrpCsqRemoveIrp
unfoldable pub irp_csq_remove : IrpCsq → Irp → IrpCsq
irp_csq_remove q irp = record q {
  queue = without irp.irp_id q.queue;
  count = u32 (q.count + 2 ^ 32 - 1);
}

-- IoCsqRemoveNextIrp, by its callbacks: peek, and remove what was found.
unfoldable pub remove_next_irp : Option ℕ → IrpCsq → Option Irp × IrpCsq
remove_next_irp context q = elim (peek_from context q.queue) [
  | none ↦ (none, q)
  | some irp ↦ (some irp, irp_csq_remove q irp)
]

-- tapIrpCsqCompleteCanceledIrp, and what tapIrpCsqFlush does to each request.
unfoldable pub cancelled_irp : Irp → Irp
cancelled_irp irp = record irp { status = NtStatus.cancelled; information = 0 }

-- The loop of tapIrpCsqFlush: the requests that it completes, the first first, and the queue after
-- it.
unfoldable pub flush_loop : ℕ → IrpCsq → List Irp × IrpCsq
flush_loop zero q = ([], q)
flush_loop (suc fuel) q =
    let (found, q') = remove_next_irp none q in
    let (done, q'') = flush_loop fuel q' in
    elim found [ none ↦ ([], q') | some irp ↦ (cancelled_irp irp ∷ done, q'') ]

-- tapIrpCsqFlush. The loop ends at the first round that finds no request.
unfoldable pub irp_csq_flush : IrpCsq → List Irp × IrpCsq
irp_csq_flush q = flush_loop (suc (length q.queue)) q
