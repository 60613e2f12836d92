-- ===== src/Tests/Transmit.antt =====
-- The theorems on the transmit path at concrete frames.
use tap_windows.Base.{
  ◌⊎◌, inr, ℕ, ◌+◌, ◌≤◌, ◌≡◌, ◌⊎◌, refl, map, arith, true, false, List, [], ◌∷◌, ◌++◌, length,
  replicate, htons,
}
use tap_windows.Proto.{ArpPacket, arp_at}
use tap_windows.Adapter.{Adapter, send_and_receive_ready, success}
use tap_windows.Adapter.Queue.Fifo.{IsQueue}
use tap_windows.Adapter.Queue.Refine.{Use, use_list, use_queue, use_queue_refines}
use tap_windows.Receive.{with_frame}
use tap_windows.Transmit.Vlan.{strip_8021q, tag_frame, vlan_tag_size}
use tap_windows.Transmit.Vlan.Roundtrip.{strip-tag_frame}
use tap_windows.Transmit.Arp.{process_arp}
use tap_windows.Transmit.Arp.Reply.{IsQuery, IsReply, process_arp-arp_at}
use tap_windows.Transmit.Read.{process_send_packet_queue, tap_buffer_size}
use tap_windows.Transmit.Read.Order.{served, left_over}
use tap_windows.Transmit.Read.Flow.{
  accounted, times, IsFlagged, process-holds, process_send_packet_queue-served,
}
use tap_windows.Adapter.Irps.{cancelled_irp, irp_csq_flush}
use tap_windows.Adapter.Irps.Pending.{irp_csq_flush_lem}
use tap_windows.Transmit.Send.{Supply, adapter_send_net_buffer_lists}
use tap_windows.Transmit.Send.Conservation.{send_accounted}
use tap_windows.Tests.Fixtures.{
  tap_adapter, full_pool, host_mac, peer_mac, packet, two_packets, irp, one_irp, nbl,
}

two_packets-IsQueue : IsQueue two_packets
two_packets-IsQueue = record { count = refl; total = refl; bound = omega arith }

-- A packet comes in, and three are taken off.
abbrev uses : List Use
uses = Use.put (packet 3) ∷ Use.get ∷ Use.get ∷ Use.get ∷ []

use_queue_refines_example :
    ((use_queue two_packets uses).0 ≡ (use_list two_packets.queue uses).0)
    × ((use_queue two_packets uses).1.queue ≡ (use_list two_packets.queue uses).1)
    × IsQueue (use_queue two_packets uses).1
use_queue_refines_example = use_queue_refines uses two_packets two_packets-IsQueue (omega arith)

process_send_packet_queue-served_example :
    let b = process_send_packet_queue tap_adapter in
    (b.completed_irps ≡ served (irp 7 ∷ []) (packet 1 ∷ packet 2 ∷ []) [])
    × (b.send_packet_queue.queue ≡ left_over (irp 7 ∷ []) (packet 1 ∷ packet 2 ∷ []))
    × (b.pending_read_irp_queue.queue ≡ left_over (packet 1 ∷ packet 2 ∷ []) (irp 7 ∷ []))
    × IsQueue b.send_packet_queue
process_send_packet_queue-served_example =
    process_send_packet_queue-served tap_adapter two_packets-IsQueue

-- More bytes wait than the one read takes, so the held list stays.
abbrev full_adapter : Adapter
full_adapter = record tap_adapter {
  send_packet_queue = record { queue = []; count = 0; total_bytes = 0x400000; max_count = 0 };
  flow_control_list = nbl 1 ∷ [];
  flow_control_has_packets = true;
}

process-holds_example :
    let b = process_send_packet_queue full_adapter in
    ((b.flow_control_list ≡ []) ⊎ (tap_buffer_size ≤ b.send_packet_queue.total_bytes))
    × (accounted 1 b ≡ accounted 1 full_adapter)
    × IsFlagged b
process-holds_example = process-holds full_adapter 1 (inr refl)

abbrev supply : ℕ → Supply
supply i = record { pool = full_pool; unset = replicate 64 0 }

send_accounted_example :
    accounted 3 (adapter_send_net_buffer_lists supply tap_adapter (nbl 3 ∷ nbl 4 ∷ []))
    ≡ accounted 3 tap_adapter + times 3 (nbl 3 ∷ nbl 4 ∷ [])
send_accounted_example = send_accounted supply tap_adapter (nbl 3 ∷ nbl 4 ∷ []) 3

-- An IPv4 frame for the peer.
abbrev ipv4_frame : List ℕ
ipv4_frame = peer_mac ++ (host_mac ++ 8 ∷ 0 ∷ replicate 26 0x45)

strip-tag_frame_example :
    strip_8021q (tag_frame (replicate 64 0) vlan_tag_size (nbl 1) ipv4_frame)
    ≡ record { packet = ipv4_frame; priority = 5; vlan = 100 }
strip-tag_frame_example =
    strip-tag_frame (replicate 64 0) (nbl 1) ipv4_frame (omega arith) (omega arith) (omega arith)
      (omega arith)

-- The host asks for its DHCP server.
abbrev arp_query : ArpPacket
arp_query = record {
  mac_destination = replicate 6 0xff;
  mac_source = host_mac;
  proto = htons 0x0806;
  mac_address_type = htons 1;
  proto_address_type = htons 0x0800;
  mac_address_size = 6;
  proto_address_size = 4;
  arp_operation = htons 1;
  arp_mac_source = host_mac;
  arp_ip_source = 0x0200080a;
  arp_mac_destination = replicate 6 0;
  arp_ip_destination = 0xfe00080a;
}

ready : send_and_receive_ready tap_adapter ≡ success
unfolding send_and_receive_ready
ready = refl

process_arp-arp_at_example :
    (IsQuery tap_adapter arp_query 0x0200080a 0xfe00080a 0xffffffff
      × ((frame : List ℕ) × (process_arp full_pool tap_adapter arp_query 0x0200080a 0xfe00080a
              0xffffffff peer_mac
            ≡ (true, with_frame full_pool tap_adapter frame))
          × (60 ≤ length frame)
          × IsReply tap_adapter arp_query 0x0200080a peer_mac (arp_at frame 0)))
    ⊎ ((¬ IsQuery tap_adapter arp_query 0x0200080a 0xfe00080a 0xffffffff)
        × (process_arp full_pool tap_adapter arp_query 0x0200080a 0xfe00080a 0xffffffff peer_mac
            ≡ (false, tap_adapter)))
process_arp-arp_at_example =
    process_arp-arp_at full_pool tap_adapter arp_query 0x0200080a 0xfe00080a 0xffffffff peer_mac
      (record { ready = ready; reply = refl; buffer = refl; mdl = refl; nbl = refl })
      (refl, omega arith) (refl, omega arith) (omega arith) (omega arith)

abbrev solicitation : List ℕ
solicitation =
    host_mac
    ++ (peer_mac
        ++ 0x86
          ∷ 0xdd
          ∷ 0x60
          ∷ 0
          ∷ 0
          ∷ 0
          ∷ 0
          ∷ 24
          ∷ 58
          ∷ 255
          ∷ 0xfe
          ∷ 0x80
          ∷ (replicate 13 0
              ++ 9
                ∷ 0xfe
                ∷ 0x80
                ∷ (replicate 13 0
                    ++ 8 ∷ 135 ∷ 0 ∷ (replicate 6 0 ++ 0xfe ∷ 0x80 ∷ (replicate 13 0 ++ 8 ∷ [])))))

irp_csq_flush_lem_example :
    ((irp_csq_flush one_irp).0 ≡ map cancelled_irp one_irp.queue)
    × ((irp_csq_flush one_irp).1.queue ≡ [])
    × ((irp_csq_flush one_irp).1.count ≡ 0)
irp_csq_flush_lem_example = irp_csq_flush_lem one_irp refl (omega arith)
