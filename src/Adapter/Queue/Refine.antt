-- ===== src/Adapter/Queue/Refine.antt =====
-- The packet queue, over any history, is a plain list: an abstract queue and what refines it.
use tap_windows.Base.{
  ◌+◌, ◌^◌, ◌<◌, ◌≡◌, ◌∙◌, refl, ap, ap₂, arith, List, [], ◌∷◌, ◌++◌, Option, length, length-append,
  length-drop, drop,
}
use tap_windows.Adapter.Queue.{Packet, PacketQueue, insert_tail, remove_head}
use tap_windows.Adapter.Queue.Fifo.{IsQueue, head_of, insert_tail-IsQueue, remove_head-IsQueue}

-- A packet comes in, or one is taken off.
pub data Use : Type 0 where
  put : Packet → Use
  get : Use

-- What the takes return, and what is left: of the abstract queue, and of the queue of the driver.
abbrev pub use_list : List Packet → List Use → List (Option Packet) × List Packet
use_list ps [] = ([], ps)
use_list ps (put p ∷ us) = use_list (ps ++ (p ∷ [])) us
use_list ps (get ∷ us) = let (taken, left) = use_list (drop 1 ps) us in (head_of ps ∷ taken, left)

abbrev pub use_queue : PacketQueue → List Use → List (Option Packet) × PacketQueue
use_queue q [] = ([], q)
use_queue q (put p ∷ us) = use_queue (insert_tail q p) us
use_queue q (get ∷ us) =
    let (taken, left) = use_queue (remove_head q).1 us in ((remove_head q).0 ∷ taken, left)

-- Over any history of inserts (tapPacketQueueInsertTail) and removals (tapPacketRemoveHeadLocked)
-- the packet queue returns what a list would return, the packet that has waited longest or none if
-- there is none, is left with the packets that the list would be left with, in their order, and its
-- counters of packets and of bytes are true. They were true before, and the packets in the queue
-- and the operations are fewer than 2 ^ 32.
pub use_queue_refines :
    (us : List Use) (q : PacketQueue)
    → IsQueue q
    → length q.queue + length us < 2 ^ 32
    → ((use_queue q us).0 ≡ (use_list q.queue us).0)
      × ((use_queue q us).1.queue ≡ (use_list q.queue us).1)
      × IsQueue (use_queue q us).1
use_queue_refines [] q v room = (refl, refl, v)
use_queue_refines (put p ∷ us) q v room =
    let (v', laid) = insert_tail-IsQueue q p v (omega (arith, room)) in
    let (taken, left, v'') =
      use_queue_refines us (insert_tail q p) v'
        (omega (arith, room, ap length laid, length-append q.queue (p ∷ []))) in
    (
      taken ∙ ap (λ (ps : List Packet). (use_list ps us).0) laid,
      left ∙ ap (λ (ps : List Packet). (use_list ps us).1) laid,
      v'',
    )
use_queue_refines (get ∷ us) q v room =
    let (v', head, rest) = remove_head-IsQueue q v in
    let (taken, left, v'') =
      use_queue_refines us (remove_head q).1 v'
        (omega (arith, room, ap length rest, length-drop 1 q.queue)) in
    (
      ap₂ (λ (h : Option Packet) (t : List (Option Packet)). h ∷ t) head
          (taken ∙ ap (λ (ps : List Packet). (use_list ps us).0) rest),
      left ∙ ap (λ (ps : List Packet). (use_list ps us).1) rest,
      v'',
    )
