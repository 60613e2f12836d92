-- ===== src/Transmit/Frame.antt =====
-- tapAdapterTransmit of src/txpath.c: what becomes of one frame of the host. The flat buffer
-- `m_Data` is a list of bytes, of which the tests read past the end only zeros.
use tap_windows.Base.{
  ℕ, ◌+◌, ◌-◌, ◌%◌, ◌^◌, Bool, true, false, not, ◌&&◌, List, ltb, leb, ◌==◌, if◌then◌else◌, length,
  take, drop, htons, ntohs, bytes_eq,
}
use tap_windows.Proto.{
  eth_size, ip_size, udp_size, dhcp_size, arp_size, eth_type_arp, eth_type_ipv4, eth_type_ipv6,
  eth_bytes, eth_at, ip_at, udp_at, dhcp_at, arp_at,
}
use tap_windows.Ndis.{Nbl}
use tap_windows.Adapter.{Adapter, read_and_write_ready}
use tap_windows.Adapter.Queue.{Packet, insert_tail}
use tap_windows.Checksum.{ipproto_udp}
use tap_windows.Receive.{Pool}
use tap_windows.Dhcp.Reply.{bootps_port}
use tap_windows.Dhcp.Process.{process_dhcp}
use tap_windows.Transmit.Vlan.{add_header_size, tag_frame}
use tap_windows.Transmit.Arp.{process_arp}
use tap_windows.Transmit.Neighbor.{handle_ipv6_neighbor_discovery, ipv6_size}

-- sizeof (ETH_HEADER) + sizeof (IPHDR) + sizeof (UDPHDR) + sizeof (DHCP)
abbrev pub dhcp_offset : ℕ
dhcp_offset = eth_size + ip_size + udp_size + dhcp_size

-- The condition of the DHCP branch.
abbrev pub is_dhcp : List ℕ → Bool
is_dhcp m =
    let ip = ip_at m eth_size in
    leb dhcp_offset (length m)
    && (eth_at m 0).proto == htons eth_type_ipv4
    && ip.version_len == 0x45
    && ip.protocol == ipproto_udp
    && (udp_at m (eth_size + ip_size)).dest == htons bootps_port

-- DHCP server masquerade: whether control goes to `no_queue`, and the adapter.
unfoldable pub masquerade : Pool → Adapter → List ℕ → Bool × Adapter
masquerade pool a m =
    if not a.dhcp_enabled
    then (false, a)
    else if length m == arp_size && (eth_at m 0).proto == htons eth_type_arp && a.dhcp_server_arp
    then process_arp pool a (arp_at m 0) a.dhcp_addr a.dhcp_server_ip (2 ^ 32 - 1) a.dhcp_server_mac
    else if is_dhcp m
    then (if ltb dhcp_offset (length m)
        then process_dhcp pool a (eth_at m 0) (ip_at m eth_size) (udp_at m (eth_size + ip_size))
            (dhcp_at m (eth_size + ip_size + udp_size)) (drop dhcp_offset m)
            (length m - dhcp_offset)
        else (true, a))
    else (false, a)

-- The switch of point-to-point mode: whether control goes to `no_queue`, and the adapter.
unfoldable pub point_to_point : Pool → Adapter → List ℕ → Bool × Adapter
point_to_point pool a m =
    let type = ntohs (eth_at m 0).proto in
    if type == eth_type_arp
    then (if not (length m == arp_size) then (true, a) else (
      true,
      (process_arp pool a (arp_at m 0) a.local_ip a.remote_network a.remote_netmask
          a.tap_to_user.dest).1,
    ))
    else if type == eth_type_ipv4
    then (if ltb (length m) (eth_size + ip_size)
        then (true, a)
        else if not (bytes_eq (take eth_size m) (eth_bytes a.tap_to_user))
        then (true, a)
        else (false, a))
    else if type == eth_type_ipv6
    then (if ltb (length m) (eth_size + ipv6_size)
        then (true, a)
        else handle_ipv6_neighbor_discovery pool a m (length m))
    else (true, a)

-- TP_TUN
abbrev pub tp_tun : ℕ
tp_tun = 2 ^ 31

-- The TAP packet of a frame; in point-to-point mode the flag TP_TUN is set.
abbrev pub tap_packet_of : Adapter → List ℕ → Packet
tap_packet_of a m = record {
  size_flags = length m % 2 ^ 31 + (if a.tun then tp_tun else 0);
  bytes = m;
}

-- The push onto the queue.
unfoldable pub push_packet : Adapter → Packet → Adapter
push_packet a p =
    if read_and_write_ready a
    then record a { send_packet_queue = insert_tail a.send_packet_queue p }
    else a

-- What follows on the frame in `m_Data`.
unfoldable pub transmit_data : Pool → Adapter → List ℕ → Adapter
transmit_data pool a m =
    let (caught, b) = masquerade pool a m in
    let (dropped, c) = if b.tun then point_to_point pool b m else (false, b) in
    if caught then b else if dropped then c else push_packet c (tap_packet_of c m)

-- tapAdapterTransmit. `unset` is what the allocated memory held before.
unfoldable pub adapter_transmit : Pool → List ℕ → Adapter → List ℕ → Nbl → Adapter
adapter_transmit pool unset a frame nbl =
    if not pool.tap_packet
    then a
    else if not pool.data_buffer
    then a
    else transmit_data pool a (tag_frame unset (add_header_size a nbl (length frame)) nbl frame)
