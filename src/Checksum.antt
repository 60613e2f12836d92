-- ===== src/Checksum.antt =====
-- The Internet checksums: ip_checksum and udp_checksum of src/dhcp.c, icmpv6_checksum of
-- src/txpath.c. A buffer is the list of its bytes, and the loops walk it two bytes at a time.
pub mod Fold
pub mod Sums
pub mod Verify
use tap_windows.Base.{
  ℕ, zero, suc, ◌+◌, ◌-◌, ◌*◌, ◌/◌, ◌%◌, ◌^◌, List, [], ◌∷◌, ◌==◌, if◌then◌else◌, u16, u32, add32,
  take,
}

abbrev pub ipproto_udp : ℕ
ipproto_udp = 17

abbrev pub ipproto_icmpv6 : ℕ
ipproto_icmpv6 = 0x3a

-- ((hi << 8) & 0xFF00) + (lo & 0xFF)
abbrev pub word16 : ℕ → ℕ → ℕ
word16 hi lo = hi % 256 * 256 + lo % 256

-- The loop of ip_checksum, which leaves out a last odd byte.
unfoldable pub add_pairs : List ℕ → ℕ → ℕ
add_pairs (a ∷ b ∷ rest) sum = add_pairs rest (add32 sum (word16 a b))
add_pairs _ sum = sum

-- The first loop of udp_checksum and icmpv6_checksum, which pads a last odd byte by 0.
unfoldable pub add_words : List ℕ → ℕ → ℕ
add_words (a ∷ b ∷ rest) sum = add_words rest (add32 sum (word16 a b))
add_words (a ∷ []) sum = add32 sum (word16 a 0)
add_words [] sum = sum

-- while (sum >> 16) sum = (sum & 0xFFFF) + (sum >> 16), on fuel.
unfoldable pub fold_carries : ℕ → ℕ → ℕ
fold_carries zero sum = sum
fold_carries (suc fuel) sum =
    let rest = fold_carries fuel (add32 (sum % 2 ^ 16) (sum / 2 ^ 16)) in
    if sum / 2 ^ 16 == 0 then sum else rest

-- Three rounds do for every ULONG.
abbrev pub fold_fuel : ℕ
fold_fuel = 3

-- (USHORT) ~sum, for a ULONG
abbrev pub complement : ℕ → ℕ
complement sum = u16 (2 ^ 32 - 1 - sum)

-- The end of each checksum: fold the carries and complement.
unfoldable pub finish : ℕ → ℕ
finish sum = complement (fold_carries fold_fuel sum)

unfoldable pub ip_checksum : List ℕ → ℕ → ℕ
ip_checksum buf len = finish (add_pairs (take len buf) 0)

-- The sum of udp_checksum before its carries are folded.
unfoldable pub udp_sum : List ℕ → ℕ → List ℕ → List ℕ → ℕ
udp_sum buf len src_addr dest_addr =
    let sum = add_words (take len buf) 0 in
    let sum = add_pairs (take 4 src_addr) sum in
    let sum = add_pairs (take 4 dest_addr) sum in add32 sum (ipproto_udp + u16 len)

unfoldable pub udp_checksum : List ℕ → ℕ → List ℕ → List ℕ → ℕ
udp_checksum buf len src_addr dest_addr = finish (udp_sum buf len src_addr dest_addr)

unfoldable pub icmpv6_sum : List ℕ → ℕ → List ℕ → List ℕ → ℕ
icmpv6_sum buf len saddr6 daddr6 =
    let sum = add_words (take len buf) 0 in
    let sum = add_pairs (take 16 saddr6) sum in
    let sum = add_pairs (take 16 daddr6) sum in add32 sum (ipproto_icmpv6 + u16 len)

unfoldable pub icmpv6_checksum : List ℕ → ℕ → List ℕ → List ℕ → ℕ
icmpv6_checksum buf len saddr6 daddr6 = finish (icmpv6_sum buf len saddr6 daddr6)
