-- ===== src/Adapter/Queue.antt =====
-- The TAP packet queue of src/mem.c and src/mem.h. The LIST_ENTRY ring is the list of its packets,
-- head first; the spin lock is held over each operation.
pub mod Fifo
pub mod Refine
use tap_windows.Base.{
  ℕ, ◌+◌, ◌-◌, ◌%◌, ◌^◌, Bool, true, false, List, [], ◌∷◌, ◌++◌, Option, none, some, ltb,
  if◌then◌else◌, u32,
}

-- TAP_PACKET: the flag TP_TUN and the size below 2 ^ 31 of `m_SizeFlags`, and `m_Data`.
pub record Packet : Type 0 where
  pub size_flags : ℕ
  pub bytes : List ℕ

-- m_SizeFlags & TP_SIZE_MASK
abbrev pub packet_size : Packet → ℕ
packet_size p = p.size_flags % 2 ^ 31

pub record PacketQueue : Type 0 where
  pub queue : List Packet
  pub count : ℕ
  pub total_bytes : ℕ
  pub max_count : ℕ

-- tapPacketQueueInsertTail
unfoldable pub insert_tail : PacketQueue → Packet → PacketQueue
insert_tail q p =
    let count = u32 (q.count + 1) in
    record {
      queue = q.queue ++ (p ∷ []);
      count = count;
      total_bytes = u32 (q.total_bytes + packet_size p);
      max_count = if ltb q.max_count count then count else q.max_count;
    }

-- tapPacketRemoveHeadLocked, over the entries of the ring
abbrev pub remove_head_of : List Packet → PacketQueue → Option Packet × PacketQueue
remove_head_of [] q = (none, q)
remove_head_of (p ∷ rest) q = (
  some p,
  record q {
    queue = rest;
    count = u32 (q.count + 2 ^ 32 - 1);
    total_bytes = u32 (q.total_bytes + 2 ^ 32 - packet_size p);
  },
)

unfoldable pub remove_head : PacketQueue → Option Packet × PacketQueue
remove_head q = remove_head_of q.queue q

-- The context is zeroed when it is allocated; tapPacketQueueInitialize empties the ring.
unfoldable pub initialize : PacketQueue → PacketQueue
initialize q = record q { queue = [] }
