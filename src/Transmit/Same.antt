-- ===== src/Transmit/Same.antt =====
-- What the answers of the driver to the host leave alone.
use tap_windows.Base.{ℕ, ◌≡◌, ◌∙◌, refl, arith, List}
use tap_windows.Proto.{EthHeader, IpHdr, UdpHdr, DhcpHdr, ArpPacket, arp_bytes}
use tap_windows.Mac.{Mac}
use tap_windows.Adapter.{Adapter, read_and_write_ready}
use tap_windows.Receive.{Pool, with_frame, indicate_cases}
use tap_windows.Dhcp.Scan.{Found, get_dhcp_message_type}
use tap_windows.Dhcp.Reply.{send_dhcp_msg}
use tap_windows.Dhcp.Process.{process_dhcp, remember_request, chosen_reply}
use tap_windows.Dhcp.Process.Server.{send_cases}
use tap_windows.Transmit.Arp.{process_arp, arp_answer}
use tap_windows.Transmit.Neighbor.{handle_ipv6_neighbor_discovery, advertisement}

-- What an answer to the host leaves alone: the queues, the requests, the mode.
pub record Same (a b : Adapter) : Type 0 where
  pub send_packet_queue : b.send_packet_queue ≡ a.send_packet_queue
  pub ready : read_and_write_ready b ≡ read_and_write_ready a
  pub tun : b.tun ≡ a.tun
  pub tap_to_user : b.tap_to_user ≡ a.tap_to_user
  pub pending_read_irp_queue : b.pending_read_irp_queue ≡ a.pending_read_irp_queue
  pub flow_control_list : b.flow_control_list ≡ a.flow_control_list
  pub flow_control_has_packets : b.flow_control_has_packets ≡ a.flow_control_has_packets
  pub completed_irps : b.completed_irps ≡ a.completed_irps
  pub completed_nbls : b.completed_nbls ≡ a.completed_nbls

pub same : (a : Adapter) → Same a a
same a = record {
  send_packet_queue = refl;
  ready = refl;
  tun = refl;
  tap_to_user = refl;
  pending_read_irp_queue = refl;
  flow_control_list = refl;
  flow_control_has_packets = refl;
  completed_irps = refl;
  completed_nbls = refl;
}

pub Same-trans : (a b c : Adapter) → Same a b → Same b c → Same a c
Same-trans a b c s t = record {
  send_packet_queue = t.send_packet_queue ∙ s.send_packet_queue;
  ready = t.ready ∙ s.ready;
  tun = t.tun ∙ s.tun;
  tap_to_user = t.tap_to_user ∙ s.tap_to_user;
  pending_read_irp_queue = t.pending_read_irp_queue ∙ s.pending_read_irp_queue;
  flow_control_list = t.flow_control_list ∙ s.flow_control_list;
  flow_control_has_packets = t.flow_control_has_packets ∙ s.flow_control_has_packets;
  completed_irps = t.completed_irps ∙ s.completed_irps;
  completed_nbls = t.completed_nbls ∙ s.completed_nbls;
}

pub with_frame-Same :
    (pool : Pool) (a : Adapter) (frame : List ℕ) → Same a (with_frame pool a frame)
unfolding read_and_write_ready
with_frame-Same pool a frame = record {
  send_packet_queue = refl;
  ready = refl;
  tun = refl;
  tap_to_user = refl;
  pending_read_irp_queue = refl;
  flow_control_list = refl;
  flow_control_has_packets = refl;
  completed_irps = refl;
  completed_nbls = refl;
}

pub send_dhcp_msg-Same :
    (pool : Pool) (a : Adapter) (type : ℕ) (eth : EthHeader) (dhcp : DhcpHdr)
    → Same a (send_dhcp_msg pool a type eth dhcp)
send_dhcp_msg-Same pool a type eth dhcp =
    send_cases (Same a) pool a type eth dhcp (same a) (with_frame-Same pool a _)

pub remember_request-Same :
    (a : Adapter) (dhcp : DhcpHdr) (t : Found) → Same a (remember_request a dhcp t)
unfolding remember_request read_and_write_ready
remember_request-Same a dhcp t = record {
  send_packet_queue = ground arith;
  ready = ground arith;
  tun = ground arith;
  tap_to_user = ground arith;
  pending_read_irp_queue = ground arith;
  flow_control_list = ground arith;
  flow_control_has_packets = ground arith;
  completed_irps = ground arith;
  completed_nbls = ground arith;
}

pub process_arp-Same :
    (pool : Pool) (a : Adapter) (src : ArpPacket) (ip net mask : ℕ) (mac : Mac)
    → Same a (process_arp pool a src ip net mask mac).1
unfolding process_arp
process_arp-Same pool a src ip net mask mac =
    let told =
      indicate_cases (Same a) pool a (arp_bytes (arp_answer a src ip mac)) (same a)
        (with_frame-Same pool a _) in
    ground (arith, told, same a)

pub neighbor-Same :
    (pool : Pool) (a : Adapter) (m : List ℕ) (n : ℕ)
    → Same a (handle_ipv6_neighbor_discovery pool a m n).1
unfolding handle_ipv6_neighbor_discovery
neighbor-Same pool a m n =
    let told =
      indicate_cases (Same a) pool a (advertisement a m) (same a) (with_frame-Same pool a _) in
    ground (arith, told, same a)

pub process_dhcp-Same :
    (pool : Pool) (a : Adapter) (eth : EthHeader) (ip : IpHdr) (udp : UdpHdr) (dhcp : DhcpHdr)
    (options : List ℕ) (optlen : ℕ)
    → Same a (process_dhcp pool a eth ip udp dhcp options optlen).1
unfolding process_dhcp
process_dhcp-Same pool a eth ip udp dhcp options optlen =
    let t = get_dhcp_message_type options optlen in
    let b = send_dhcp_msg pool a (chosen_reply a dhcp t) eth dhcp in
    let told =
      Same-trans a b (remember_request b dhcp t)
        (send_dhcp_msg-Same pool a (chosen_reply a dhcp t) eth dhcp)
        (remember_request-Same b dhcp t) in
    ground (arith, told, same a)
