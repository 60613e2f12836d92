-- ===== src/Frames.antt =====
-- How the driver classes and counts frames: tapGetRawPacketFrameType, tapGetNetBufferFrameType and
-- tapGetNetBufferCountsFromNetBufferList of src/adapter.c.
use tap_windows.Base.{
  ℕ, ◌+◌, ◌%◌, ◌^◌, Bool, true, false, not, List, [], ◌∷◌, ltb, ◌==◌, if◌then◌else◌, length, slice,
  u32, byte_at, bytes_eq,
}
use tap_windows.Proto.{eth_size}
use tap_windows.Mac.{Mac, mac_size}
use tap_windows.Adapter.{Adapter}
use tap_windows.Dhcp.Reply.{is_broadcast}

abbrev pub u64 : ℕ → ℕ
u64 x = x % 2 ^ 64

-- The bits NDIS_PACKET_TYPE_* of a packet filter.
abbrev pub type_directed : ℕ
type_directed = 0x1

abbrev pub type_multicast : ℕ
type_multicast = 0x2

abbrev pub type_all_multicast : ℕ
type_all_multicast = 0x4

abbrev pub type_broadcast : ℕ
type_broadcast = 0x8

abbrev pub type_promiscuous : ℕ
type_promiscuous = 0x20

abbrev pub type_all_local : ℕ
type_all_local = 0x80

-- The `dest` of the ETH_HEADER at the head of a frame.
abbrev pub dest_of : List ℕ → Mac
dest_of frame = slice frame 0 mac_size

-- ETH_IS_MULTICAST
abbrev pub is_multicast : Mac → Bool
is_multicast mac = byte_at mac 0 % 2 == 1

-- The loop over MCList
unfoldable pub in_multicast_list : Mac → List Mac → Bool
in_multicast_list dest [] = false
in_multicast_list dest (mac ∷ macs) =
    let later = in_multicast_list dest macs in if bytes_eq mac dest then true else later

-- tapGetRawPacketFrameType
unfoldable pub raw_frame_type : Adapter → List ℕ → ℕ
raw_frame_type a packet =
    if ltb (length packet) eth_size
    then 0
    else if is_broadcast (dest_of packet)
    then type_broadcast
    else if is_multicast (dest_of packet)
    then (if in_multicast_list (dest_of packet) a.mc_list
        then type_multicast + type_all_multicast
        else type_all_multicast)
    else if bytes_eq a.current_address (dest_of packet)
    then type_directed
    else 0

pub data FrameType : Type 0 where
  directed multicast broadcast : FrameType

-- tapGetNetBufferFrameType, for a frame whose Ethernet header NdisGetDataBuffer reaches in place or
-- not.
unfoldable pub net_buffer_frame_type : Bool → List ℕ → FrameType
net_buffer_frame_type in_place frame =
    if not in_place
    then directed
    else if is_broadcast (dest_of frame)
    then broadcast
    else if is_multicast (dest_of frame)
    then multicast
    else directed

-- tapGetNetBufferCountsFromNetBufferList: the NET_BUFFERs and their bytes.
unfoldable pub buffer_counts : List (List ℕ) → ℕ × ℕ
buffer_counts [] = (0, 0)
buffer_counts (b ∷ bs) = let (n, bytes) = buffer_counts bs in (u32 (n + 1), u32 (bytes + length b))
