-- ===== src/Transmit/Vlan.antt =====
-- The 802.1Q tag: the first half of tapAdapterTransmit of src/txpath.c, which may add it to a frame,
-- and TapStrip8021Q of src/rxpath.c, which takes it out of one.
pub mod Roundtrip
use tap_windows.Base.{
  ℕ, ◌+◌, ◌-◌, ◌*◌, ◌/◌, ◌%◌, ◌^◌, Bool, true, false, not, ◌&&◌, ◌||◌, List, ◌∷◌, ◌++◌, ltb, leb,
  ◌==◌, if◌then◌else◌, length, take, drop, replicate, htons, u16, u16_at, u16_bytes, write_at,
}
use tap_windows.Proto.{eth_size}
use tap_windows.Ndis.{Nbl}
use tap_windows.Adapter.{Adapter}

abbrev pub vlan_tag_size : ℕ
vlan_tag_size = 4

abbrev pub ethertype_8021q : ℕ
ethertype_8021q = 0x8100

-- TAP_PRIORITY_BEHAVIOR_ENABLED and TAP_PRIORITY_BEHAVIOR_ADDALWAYS
abbrev pub priority_enabled : ℕ
priority_enabled = 1

abbrev pub priority_add_always : ℕ
priority_add_always = 2

-- `addHeaderSize`
unfoldable pub add_header_size : Adapter → Nbl → ℕ → ℕ
add_header_size a nbl packet_length =
    if a.tun
    then 0
    else if ltb packet_length eth_size
    then 0
    else if a.priority_behavior == priority_add_always
    then vlan_tag_size
    else if a.priority_behavior == priority_enabled
        && (not (nbl.user_priority == 0) || not (nbl.vlan_id == 0))
    then vlan_tag_size
    else 0

-- UserPriority << 13 | VlanId & 0xFFF, in a USHORT: the two do not overlap.
abbrev pub tag_value : Nbl → ℕ
tag_value nbl = u16 (nbl.user_priority * 2 ^ 13) + nbl.vlan_id % 2 ^ 12

-- The memory of `m_Data` once the frame lies at `m_Data + addHeaderSize`, with the tag written
-- where there is room for one. The memory in front of the frame is not set before that.
unfoldable pub tag_frame : List ℕ → ℕ → Nbl → List ℕ → List ℕ
tag_frame unset size nbl frame =
    let memory = take size unset ++ frame in
    let moved = write_at memory 0 (take (eth_size - 2) (drop size memory)) in
    let typed = write_at moved (eth_size - 2) (u16_bytes (htons ethertype_8021q)) in
    if ltb 0 size then write_at typed eth_size (u16_bytes (tag_value nbl)) else memory

-- What TapStrip8021Q leaves behind `*PacketBuffer`, with the priority and the VLAN that it returns.
pub record Stripped : Type 0 where
  pub packet : List ℕ
  pub priority : ℕ
  pub vlan : ℕ

-- TapStrip8021Q
unfoldable pub strip_8021q : List ℕ → Stripped
strip_8021q buffer =
    if leb (eth_size + vlan_tag_size) (length buffer) && u16_at buffer 12 == htons ethertype_8021q
    then record {
      packet = drop 4 (write_at buffer 4 (take (eth_size - 2) buffer));
      priority = u16_at buffer eth_size / 2 ^ 13;
      vlan = u16_at buffer eth_size % 2 ^ 12;
    }
    else record { packet = buffer; priority = 0; vlan = 0 }
