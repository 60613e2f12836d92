-- ===== src/History/Sends.antt =====
-- What the frames of the host are made of: a property of the adapter that the steps of one frame keep
-- holds after any frame.
use tap_windows.Base.{ℕ, ◌+◌, ◌-◌, ◌^◌, arith, u32, Bool, true, List, length, drop}
use tap_windows.Ndis.{Nbl}
use tap_windows.Mac.{Mac}
use tap_windows.Proto.{
  EthHeader, IpHdr, UdpHdr, DhcpHdr, ArpPacket, arp_bytes, arp_at, eth_at, ip_at, udp_at, dhcp_at,
  eth_size, ip_size, udp_size,
}
use tap_windows.Adapter.{Adapter}
use tap_windows.Adapter.Queue.{Packet, insert_tail}
use tap_windows.Receive.{Pool, with_frame, indicate_cases}
use tap_windows.Dhcp.Scan.{Found, get_dhcp_message_type}
use tap_windows.Dhcp.Reply.{send_dhcp_msg}
use tap_windows.Dhcp.Process.{process_dhcp, remember_request, chosen_reply}
use tap_windows.Dhcp.Process.Server.{send_cases}
use tap_windows.Transmit.Arp.{process_arp, arp_answer}
use tap_windows.Transmit.Neighbor.{handle_ipv6_neighbor_discovery, advertisement}
use tap_windows.Transmit.Frame.{
  masquerade, point_to_point, transmit_data, adapter_transmit, tap_packet_of, push_packet,
  dhcp_offset,
}
use tap_windows.Transmit.Vlan.{add_header_size, tag_frame}

module _ (P : Adapter → Type 0)
    (indicated : (pool : Pool) (a : Adapter) (frame : List ℕ) → P a → P (with_frame pool a frame))
    (noted : (a : Adapter) (d : Bool) (n : ℕ)
      → P a
      → P (record a { dhcp_received_discover = d; dhcp_bad_requests = n }))
    (queued : (a : Adapter) (p : Packet)
      → P a
      → P (record a { send_packet_queue = insert_tail a.send_packet_queue p })) where
  remember-Keeps : (a : Adapter) (dhcp : DhcpHdr) (t : Found) → P a → P (remember_request a dhcp t)
  unfolding remember_request
  remember-Keeps a dhcp t w = ground (
    arith,
    w,
    noted a true a.dhcp_bad_requests w,
    noted a a.dhcp_received_discover (u32 (a.dhcp_bad_requests + 1)) w,
    noted a true (u32 (a.dhcp_bad_requests + 1)) w,
  )

  send_dhcp-Keeps :
      (pool : Pool) (a : Adapter) (type : ℕ) (eth : EthHeader) (dhcp : DhcpHdr)
      → P a
      → P (send_dhcp_msg pool a type eth dhcp)
  send_dhcp-Keeps pool a type eth dhcp w =
      send_cases P pool a type eth dhcp w (indicated pool a _ w)

  arp-Keeps :
      (pool : Pool) (a : Adapter) (src : ArpPacket) (ip net mask : ℕ) (mac : Mac)
      → P a
      → P (process_arp pool a src ip net mask mac).1
  unfolding process_arp
  arp-Keeps pool a src ip net mask mac w =
      let told =
        indicate_cases P pool a (arp_bytes (arp_answer a src ip mac)) w (indicated pool a _ w) in
      ground (arith, told, w)

  neighbor-Keeps :
      (pool : Pool) (a : Adapter) (m : List ℕ) (n : ℕ)
      → P a
      → P (handle_ipv6_neighbor_discovery pool a m n).1
  unfolding handle_ipv6_neighbor_discovery
  neighbor-Keeps pool a m n w =
      let told = indicate_cases P pool a (advertisement a m) w (indicated pool a _ w) in
      ground (arith, told, w)

  dhcp-Keeps :
      (pool : Pool) (a : Adapter) (eth : EthHeader) (ip : IpHdr) (udp : UdpHdr) (dhcp : DhcpHdr)
      (options : List ℕ) (optlen : ℕ)
      → P a
      → P (process_dhcp pool a eth ip udp dhcp options optlen).1
  unfolding process_dhcp
  dhcp-Keeps pool a eth ip udp dhcp options optlen w =
      let t = get_dhcp_message_type options optlen in
      let b = send_dhcp_msg pool a (chosen_reply a dhcp t) eth dhcp in
      let told =
        remember-Keeps b dhcp t (send_dhcp-Keeps pool a (chosen_reply a dhcp t) eth dhcp w) in
      ground (arith, told, w)

  masquerade-Keeps : (pool : Pool) (a : Adapter) (m : List ℕ) → P a → P (masquerade pool a m).1
  unfolding masquerade
  masquerade-Keeps pool a m w =
      let arp =
        arp-Keeps pool a (arp_at m 0) a.dhcp_addr a.dhcp_server_ip (2 ^ 32 - 1) a.dhcp_server_mac
          w in
      let dhcp =
        dhcp-Keeps pool a (eth_at m 0) (ip_at m eth_size) (udp_at m (eth_size + ip_size))
          (dhcp_at m (eth_size + ip_size + udp_size)) (drop dhcp_offset m) (length m - dhcp_offset)
          w in
      ground (arith, arp, dhcp, w)

  point_to_point-Keeps :
      (pool : Pool) (a : Adapter) (m : List ℕ) → P a → P (point_to_point pool a m).1
  unfolding point_to_point
  point_to_point-Keeps pool a m w =
      let arp =
        arp-Keeps pool a (arp_at m 0) a.local_ip a.remote_network a.remote_netmask
          a.tap_to_user.dest w in
      let neighbor = neighbor-Keeps pool a m (length m) w in ground (arith, arp, neighbor, w)

  push-Keeps : (a : Adapter) (p : Packet) → P a → P (push_packet a p)
  unfolding push_packet
  push-Keeps a p w = ground (arith, w, queued a p w)

  data-Keeps : (pool : Pool) (a : Adapter) (m : List ℕ) → P a → P (transmit_data pool a m)
  unfolding transmit_data
  data-Keeps pool a m w =
      let b = (masquerade pool a m).1 in
      let v = masquerade-Keeps pool a m w in
      let c = (point_to_point pool b m).1 in
      let u = point_to_point-Keeps pool b m v in
      ground (arith, v, u, push-Keeps b (tap_packet_of b m) v, push-Keeps c (tap_packet_of c m) u)

  pub transmit-Keeps :
      (pool : Pool) (unset : List ℕ) (a : Adapter) (frame : List ℕ) (nbl : Nbl)
      → P a
      → P (adapter_transmit pool unset a frame nbl)
  unfolding adapter_transmit
  transmit-Keeps pool unset a frame nbl w =
      let sent =
        data-Keeps pool a (tag_frame unset (add_header_size a nbl (length frame)) nbl frame) w in
      ground (arith, sent, w)
