-- ===== src/Dhcp/Process.antt =====
-- DHCPMessageOurs and ProcessDHCP of src/dhcp.c: whether a message from the host is a request to
-- the masquerade, and what is answered.
pub mod Server
pub mod History
use tap_windows.Base.{
  ℕ, ◌+◌, ◌%◌, ◌^◌, Bool, true, false, not, ◌&&◌, ◌||◌, List, leb, ◌==◌, if◌then◌else◌, htons,
  ntohs, u32, take,
}
use tap_windows.Mac.{mac_size, mac_equal}
use tap_windows.Proto.{
  EthHeader, IpHdr, UdpHdr, DhcpHdr, ip_size, udp_size, dhcp_size, eth_type_ipv4,
}
use tap_windows.Adapter.{Adapter}
use tap_windows.Checksum.{ipproto_udp}
use tap_windows.Receive.{Pool}
use tap_windows.Dhcp.Scan.{Found, found, get_dhcp_message_type}
use tap_windows.Dhcp.Reply.{
  dhcpdiscover, dhcpoffer, dhcprequest, dhcpack, dhcpnak, bootps_port, bootpc_port, bootrequest,
  is_broadcast, send_dhcp_msg,
}

-- DHCPMessageOurs
unfoldable pub dhcp_message_ours : Adapter → EthHeader → IpHdr → UdpHdr → DhcpHdr → Bool
dhcp_message_ours a eth ip udp dhcp =
    if not (eth.proto == htons eth_type_ipv4 && ip.protocol == ipproto_udp)
    then false
    else if not (mac_equal eth.src a.current_address)
    then false
    else if not (is_broadcast eth.dest || mac_equal eth.dest a.dhcp_server_mac)
    then false
    else if not (udp.dest == htons bootps_port && udp.source == htons bootpc_port)
    then false
    else if not (dhcp.hlen == mac_size)
    then false
    else if not (mac_equal eth.src (take mac_size dhcp.chaddr))
    then false
    else true

abbrev pub bad_dhcprequest_nak_threshold : ℕ
bad_dhcprequest_nak_threshold = 3

-- ntohs (ip->frag_off) & IP_OFFMASK
abbrev pub frag_offset : IpHdr → ℕ
frag_offset ip = ntohs ip.frag_off % 2 ^ 13

abbrev pub is_type : Found → ℕ → Bool
is_type (found t) type = t == type
is_type _ type = false

-- dhcp->ciaddr && dhcp->ciaddr != Adapter->m_dhcp_addr
abbrev pub asks_for_other : Adapter → DhcpHdr → Bool
asks_for_other a dhcp = not (dhcp.ciaddr == 0) && not (dhcp.ciaddr == a.dhcp_addr)

-- The first of the decisions below: what SendDHCPMsg is called with.
unfoldable pub chosen_reply : Adapter → DhcpHdr → Found → ℕ
chosen_reply a dhcp msg_type =
    if is_type msg_type dhcprequest
      && (asks_for_other a dhcp
          || not a.dhcp_received_discover
          || leb bad_dhcprequest_nak_threshold a.dhcp_bad_requests)
    then dhcpnak
    else if is_type msg_type dhcpdiscover
    then dhcpoffer
    else dhcpack

-- ProcessDHCP, after the reply was sent
unfoldable pub remember_request : Adapter → DhcpHdr → Found → Adapter
remember_request a dhcp msg_type =
    let a =
      if is_type msg_type dhcpdiscover then record a { dhcp_received_discover = true } else a in
    if is_type msg_type dhcprequest && asks_for_other a dhcp
    then record a { dhcp_bad_requests = u32 (a.dhcp_bad_requests + 1) }
    else a

-- ProcessDHCP: what it returns, and the adapter after it. `options` is the memory behind `dhcp`.
unfoldable pub process_dhcp :
    Pool → Adapter → EthHeader → IpHdr → UdpHdr → DhcpHdr → List ℕ → ℕ → Bool × Adapter
process_dhcp pool a eth ip udp dhcp options optlen =
    let msg_type = get_dhcp_message_type options optlen in
    if not (ntohs ip.tot_len == ip_size + udp_size + dhcp_size + optlen && frag_offset ip == 0)
    then (true, a)
    else if not (dhcp_message_ours a eth ip udp dhcp)
    then (false, a)
    else if not (dhcp.op == bootrequest)
    then (true, a)
    else if not (is_type msg_type dhcpdiscover || is_type msg_type dhcprequest)
    then (true, a)
    else (
      true,
      remember_request (send_dhcp_msg pool a (chosen_reply a dhcp msg_type) eth dhcp) dhcp msg_type,
    )
