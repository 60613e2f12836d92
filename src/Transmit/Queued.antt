-- ===== src/Transmit/Queued.antt =====
-- Which frames of the host wait for the reader of the device.
use tap_windows.Base.{
  ℕ, ◌+◌, ◌-◌, ◌^◌, ◌≤◌, ◌≡◌, ◌⊎◌, arith, false, List, length, take, drop, ntohs,
}
use tap_windows.Proto.{
  EthHeader, eth_at, eth_bytes, eth_size, ip_size, eth_type_ipv4, eth_type_ipv6, ip_at, udp_at,
  dhcp_at, arp_at, udp_size,
}
use tap_windows.Adapter.{Adapter}
use tap_windows.Receive.{Pool}
use tap_windows.Transmit.Neighbor.{is_solicitation, ipv6_size}
use tap_windows.Transmit.Same.{Same, same, process_arp-Same, neighbor-Same, process_dhcp-Same}
use tap_windows.Transmit.Frame.{masquerade, point_to_point, dhcp_offset}

pub masquerade-Same : (pool : Pool) (a : Adapter) (m : List ℕ) → Same a (masquerade pool a m).1
unfolding masquerade
masquerade-Same pool a m =
    let arp =
      process_arp-Same pool a (arp_at m 0) a.dhcp_addr a.dhcp_server_ip (2 ^ 32 - 1)
        a.dhcp_server_mac in
    let dhcp =
      process_dhcp-Same pool a (eth_at m 0) (ip_at m eth_size) (udp_at m (eth_size + ip_size))
        (dhcp_at m (eth_size + ip_size + udp_size)) (drop dhcp_offset m) (length m - dhcp_offset) in
    ground (arith, arp, dhcp, same a)

pub point_to_point-Same :
    (pool : Pool) (a : Adapter) (m : List ℕ) → Same a (point_to_point pool a m).1
unfolding point_to_point
point_to_point-Same pool a m =
    let arp =
      process_arp-Same pool a (arp_at m 0) a.local_ip a.remote_network a.remote_netmask
        a.tap_to_user.dest in
    let neighbor = neighbor-Same pool a m (length m) in ground (arith, arp, neighbor, same a)

-- The frames that point-to-point mode passes on to the reader.
abbrev pub IsPointToPoint : EthHeader → List ℕ → Type 0
IsPointToPoint peer m =
    ((ntohs (eth_at m 0).proto ≡ eth_type_ipv4)
      × (eth_size + ip_size ≤ length m)
      × (take eth_size m ≡ eth_bytes peer))
    ⊎ ((ntohs (eth_at m 0).proto ≡ eth_type_ipv6)
        × (eth_size + ipv6_size ≤ length m)
        × (is_solicitation m (length m) ≡ false))
