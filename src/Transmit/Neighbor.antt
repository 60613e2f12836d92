-- ===== src/Transmit/Neighbor.antt =====
-- HandleIPv6NeighborDiscovery of src/txpath.c: the answer to a neighbor solicitation for fe80::8.
-- The structs IPV6HDR, ICMPV6_NS and ICMPV6_NA of src/proto.h are read and written as memory.
pub mod Advertisement
use tap_windows.Base.{
  ℕ, ◌+◌, ◌*◌, ◌^◌, Bool, true, false, not, ◌&&◌, ◌||◌, List, [], ◌∷◌, ◌++◌, ltb, ◌==◌,
  if◌then◌else◌, length, byte_at, slice, htons, u16_bytes, bytes_eq,
}
use tap_windows.Mac.{Mac}
use tap_windows.Proto.{eth_size, eth_type_ipv6}
use tap_windows.Adapter.{Adapter}
use tap_windows.Checksum.{icmpv6_checksum, ipproto_icmpv6}
use tap_windows.Receive.{Pool, indicate_receive_packet}

abbrev pub ipv6_ns_target_mcast : List ℕ
ipv6_ns_target_mcast =
    0xff ∷ 0x02 ∷ 0 ∷ 0 ∷ 0 ∷ 0 ∷ 0 ∷ 0 ∷ 0 ∷ 0 ∷ 0 ∷ 0x01 ∷ 0xff ∷ 0 ∷ 0 ∷ 0x08 ∷ []

abbrev pub ipv6_ns_target_unicast : List ℕ
ipv6_ns_target_unicast = 0xfe ∷ 0x80 ∷ 0 ∷ 0 ∷ 0 ∷ 0 ∷ 0 ∷ 0 ∷ 0 ∷ 0 ∷ 0 ∷ 0 ∷ 0 ∷ 0 ∷ 0 ∷ 0x08 ∷ []

-- sizeof (IPV6HDR), sizeof (ICMPV6_NS) and sizeof (ICMPV6_NA)
abbrev pub ipv6_size : ℕ
ipv6_size = 40

abbrev pub ns_size : ℕ
ns_size = 24

abbrev pub na_size : ℕ
na_size = 32

abbrev pub icmpv6_type_ns : ℕ
icmpv6_type_ns = 135

abbrev pub icmpv6_type_na : ℕ
icmpv6_type_na = 136

-- The members of the IPV6HDR behind the Ethernet header that are read.
abbrev pub version_prio : List ℕ → ℕ
version_prio m = byte_at m 14

abbrev pub flow_lbl : List ℕ → List ℕ
flow_lbl m = slice m 15 3

abbrev pub nexthdr : List ℕ → ℕ
nexthdr m = byte_at m 20

abbrev pub saddr : List ℕ → List ℕ
saddr m = slice m 22 16

abbrev pub daddr : List ℕ → List ℕ
daddr m = slice m 38 16

-- The target address of the ICMPV6_NS.
abbrev pub target_addr : List ℕ → List ℕ
target_addr m = slice m 62 16

-- Whether all of the tests let the packet pass.
unfoldable pub is_solicitation : List ℕ → ℕ → Bool
is_solicitation m packet_length =
    if not (bytes_eq (daddr m) ipv6_ns_target_mcast)
      && not (bytes_eq (daddr m) ipv6_ns_target_unicast)
    then false
    else if not (nexthdr m == ipproto_icmpv6)
    then false
    else if ltb packet_length (eth_size + ipv6_size + ns_size)
    then false
    else if not (byte_at m 54 == icmpv6_type_ns) || not (byte_at m 55 == 0)
    then false
    else if not (bytes_eq (target_addr m) ipv6_ns_target_unicast)
    then false
    else true

-- The ICMPV6_NA in front of and behind its checksum.
abbrev pub na_front : List ℕ
na_front = icmpv6_type_na ∷ 0 ∷ []

abbrev pub na_back : Mac → List ℕ
na_back mac = 0x60 ∷ 0 ∷ 0 ∷ 0 ∷ (ipv6_ns_target_unicast ++ 2 ∷ 1 ∷ mac)

unfoldable pub na_bytes : ℕ → Mac → List ℕ
na_bytes checksum mac = na_front ++ (u16_bytes checksum ++ na_back mac)

abbrev pub na_checksum : List ℕ → Mac → ℕ
na_checksum m mac = icmpv6_checksum (na_bytes 0 mac) na_size ipv6_ns_target_unicast (saddr m)

-- The ICMPV6_NA_PKT that answers the packet `m`.
unfoldable pub advertisement : Adapter → List ℕ → List ℕ
advertisement a m =
    a.current_address
    ++ (a.tap_to_user.dest
        ++ (u16_bytes (htons eth_type_ipv6)
            ++ (version_prio m
                ∷ (flow_lbl m
                    ++ (u16_bytes (htons na_size)
                        ++ (ipproto_icmpv6
                            ∷ 255
                            ∷ (ipv6_ns_target_unicast
                                ++ (saddr m
                                    ++ na_bytes (htons (na_checksum m a.tap_to_user.dest))
                                        a.tap_to_user.dest))))))))

-- HandleIPv6NeighborDiscovery: what it returns, and the adapter after it.
unfoldable pub handle_ipv6_neighbor_discovery : Pool → Adapter → List ℕ → ℕ → Bool × Adapter
handle_ipv6_neighbor_discovery pool a m packet_length =
    if not (is_solicitation m packet_length)
    then (false, a)
    else if not pool.reply
    then (false, a)
    else (true, indicate_receive_packet pool a (advertisement a m))
