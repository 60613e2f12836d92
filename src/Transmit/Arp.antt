-- ===== src/Transmit/Arp.antt =====
-- ProcessARP of src/txpath.c: the answer to an ARP request of the host.
pub mod Reply
use tap_windows.Base.{
  ℕ, ◌+◌, ◌^◌, Bool, true, false, not, ◌&&◌, List, ◌==◌, if◌then◌else◌, htons, bit_and,
}
use tap_windows.Mac.{Mac, mac_size, mac_equal}
use tap_windows.Proto.{ArpPacket, arp_bytes, eth_type_arp, eth_type_ipv4}
use tap_windows.Adapter.{Adapter}
use tap_windows.Receive.{Pool, indicate_receive_packet}
use tap_windows.Dhcp.Reply.{is_broadcast}

abbrev pub arp_request : ℕ
arp_request = 1

abbrev pub arp_reply : ℕ
arp_reply = 2

abbrev pub mac_addr_type : ℕ
mac_addr_type = 1

-- sizeof (IPADDR)
abbrev pub ipaddr_size : ℕ
ipaddr_size = 4

-- The condition of ProcessARP.
unfoldable pub is_arp_query : Adapter → ArpPacket → ℕ → ℕ → ℕ → Bool
is_arp_query a src adapter_ip ip_network ip_netmask =
    src.proto == htons eth_type_arp
    && mac_equal src.mac_source a.current_address
    && mac_equal src.arp_mac_source a.current_address
    && is_broadcast src.mac_destination
    && src.arp_operation == htons arp_request
    && src.mac_address_type == htons mac_addr_type
    && src.mac_address_size == mac_size
    && src.proto_address_type == htons eth_type_ipv4
    && src.proto_address_size == ipaddr_size
    && src.arp_ip_source == adapter_ip
    && bit_and src.arp_ip_destination ip_netmask == ip_network
    && not (src.arp_ip_destination == adapter_ip)

-- The reply that ProcessARP fills in.
abbrev pub arp_answer : Adapter → ArpPacket → ℕ → Mac → ArpPacket
arp_answer a src adapter_ip mac = record {
  mac_destination = a.current_address;
  mac_source = mac;
  proto = htons eth_type_arp;
  mac_address_type = htons mac_addr_type;
  proto_address_type = htons eth_type_ipv4;
  mac_address_size = mac_size;
  proto_address_size = ipaddr_size;
  arp_operation = htons arp_reply;
  arp_mac_source = mac;
  arp_ip_source = src.arp_ip_destination;
  arp_mac_destination = a.current_address;
  arp_ip_destination = adapter_ip;
}

-- ProcessARP: what it returns, and the adapter after it.
unfoldable pub process_arp : Pool → Adapter → ArpPacket → ℕ → ℕ → ℕ → Mac → Bool × Adapter
process_arp pool a src adapter_ip ip_network ip_netmask mac =
    if is_arp_query a src adapter_ip ip_network ip_netmask
    then (
      true,
      (if pool.reply
          then indicate_receive_packet pool a (arp_bytes (arp_answer a src adapter_ip mac))
          else a),
    )
    else (false, a)
