-- ===== src/Adapter/Queue/Fifo.antt =====
-- The packet queue as a first-in first-out list with true counters.
use tap_windows.Base.{
  ℕ, ◌+◌, ◌%◌, ◌^◌, ◌<◌, ◌≡◌, refl, sym, subst, arith, List, [], ◌∷◌, ◌++◌, Option, none, some,
  length, length-append, drop,
}
use tap_windows.Adapter.Queue.{
  Packet, PacketQueue, packet_size, insert_tail, remove_head, remove_head_of,
}

abbrev pub bytes_of : List Packet → ℕ
bytes_of [] = 0
bytes_of (p ∷ ps) = packet_size p + bytes_of ps

-- `Count` and `TotalBytes` are those of the ring, which holds less than 2 ^ 32 packets; the bytes
-- are counted modulo 2 ^ 32.
pub record IsQueue (q : PacketQueue) : Type 0 where
  pub count : q.count ≡ length q.queue
  pub total : q.total_bytes ≡ bytes_of q.queue % 2 ^ 32
  pub bound : length q.queue < 2 ^ 32

abbrev pub head_of : List Packet → Option Packet
head_of [] = none
head_of (p ∷ ps) = some p

pub bytes_of-append :
    (ps : List Packet) (p : Packet) → bytes_of (ps ++ p ∷ []) ≡ bytes_of ps + packet_size p
bytes_of-append [] p = omega arith
bytes_of-append (q ∷ ps) p = omega (arith, bytes_of-append ps p)

-- tapPacketQueueInsertTail keeps true counters true while there are less than 2 ^ 32 packets, and
-- puts the packet last.
pub insert_tail-IsQueue :
    (q : PacketQueue) (p : Packet)
    → IsQueue q
    → length q.queue + 1 < 2 ^ 32
    → IsQueue (insert_tail q p) × ((insert_tail q p).queue ≡ q.queue ++ p ∷ [])
unfolding insert_tail
insert_tail-IsQueue q p v room = (
  record {
    count = omega (arith, v.count, length-append {0} q.queue (p ∷ []));
    total = omega (arith, v.total, bytes_of-append q.queue p);
    bound = omega (arith, length-append {0} q.queue (p ∷ []));
  },
  refl,
)

remove_head_of-IsQueue :
    (ps : List Packet) (q : PacketQueue)
    → q.count ≡ length ps
    → q.total_bytes ≡ bytes_of ps % 2 ^ 32
    → length ps < 2 ^ 32
    → ps ≡ q.queue
    → IsQueue (remove_head_of ps q).1
      × ((remove_head_of ps q).0 ≡ head_of ps)
      × ((remove_head_of ps q).1.queue ≡ drop 1 ps)
remove_head_of-IsQueue [] q c t b e = (
  subst
      (λ (r : List Packet).
        (q.count ≡ length r)
        → (q.total_bytes ≡ bytes_of r % 2 ^ 32)
        → (length r < 2 ^ 32)
        → IsQueue q)
      (sym e) (λ c t b. record { count = c; total = t; bound = b }) c t b,
  refl,
  sym e,
)
remove_head_of-IsQueue (p ∷ ps) q c t b e = (
  record { count = omega (arith, c); total = omega (arith, t); bound = omega (arith, b) },
  refl,
  refl,
)

-- tapPacketRemoveHeadLocked keeps true counters true, returns the packet that has waited longest,
-- or none from an empty queue, and leaves the others in order.
pub remove_head-IsQueue :
    (q : PacketQueue)
    → IsQueue q
    → IsQueue (remove_head q).1
      × ((remove_head q).0 ≡ head_of q.queue)
      × ((remove_head q).1.queue ≡ drop 1 q.queue)
unfolding remove_head
remove_head-IsQueue q v = remove_head_of-IsQueue q.queue q v.count v.total v.bound refl
