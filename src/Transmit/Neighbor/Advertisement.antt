-- ===== src/Transmit/Neighbor/Advertisement.antt =====
-- What the host reads in the neighbor advertisement.
use tap_windows.Base.{
  ℕ, ◌≡◌, List, ◌∷◌, ◌++◌, byte_at, length, drop, htons, ntohs, u16_at, slice, u16_bytes,
}
use tap_windows.Mac.{Mac}
use tap_windows.Adapter.{Adapter}
use tap_windows.Checksum.{icmpv6_checksum, ipproto_icmpv6}
use tap_windows.Transmit.Neighbor.{na_size, na_bytes, ipv6_ns_target_unicast, icmpv6_type_na}

-- The advertisement by its variable parts.
abbrev layout : Mac → Mac → ℕ → List ℕ → List ℕ → ℕ → List ℕ
layout host mac version flow peer c =
    host
    ++ (mac
        ++ (u16_bytes (htons 0x86dd)
            ++ (version
                ∷ (flow
                    ++ (u16_bytes (htons na_size)
                        ++ (ipproto_icmpv6
                            ∷ 255
                            ∷ (ipv6_ns_target_unicast ++ (peer ++ na_bytes c mac))))))))

-- What the host reads in the frame.
pub record Reads (host mac : Mac) (peer frame : List ℕ) : Type 0 where
  pub size : length frame ≡ 86
  pub to_host : slice frame 0 6 ≡ host
  pub to_peer : slice frame 38 16 ≡ peer
  pub from_target : slice frame 22 16 ≡ ipv6_ns_target_unicast
  pub payload : ntohs (u16_at frame 18) ≡ na_size
  pub advertises : byte_at frame 54 ≡ icmpv6_type_na
  pub target : slice frame 62 16 ≡ ipv6_ns_target_unicast
  pub link_layer : slice frame 80 6 ≡ mac
  pub verifies : icmpv6_checksum (drop 54 frame) na_size (slice frame 22 16) (slice frame 38 16) ≡ 0
