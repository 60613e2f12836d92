-- ===== src/Tests/Fixtures.antt =====
-- An adapter in TAP mode with the DHCP masquerade on, one in point-to-point mode, and packets.
use tap_windows.Base.{ℕ, true, false, [], ◌∷◌, some, replicate, htons}
use tap_windows.Mac.{Mac}
use tap_windows.Proto.{EthHeader, DhcpHdr}
use tap_windows.Ndis.{Irp, Nbl, NtStatus}
use tap_windows.Adapter.{Adapter, AdapterState, success}
use tap_windows.Adapter.Queue.{Packet, PacketQueue}
use tap_windows.Adapter.Irps.{IrpCsq}
use tap_windows.Receive.{Pool}
use tap_windows.Create.{Answers, Settings}
use tap_windows.Dhcp.Process.Server.{Incoming}

abbrev pub host_mac : Mac
host_mac = 0x02 ∷ 0xff ∷ 0x0a ∷ 0x0b ∷ 0x0c ∷ 0x0d ∷ []

abbrev pub peer_mac : Mac
peer_mac = 0x02 ∷ 0xff ∷ 0x0b ∷ 0x0b ∷ 0x0c ∷ 0x0d ∷ []

abbrev pub server_mac : Mac
server_mac = 0x02 ∷ 0xff ∷ 0x0c ∷ 0x0b ∷ 0x0c ∷ 0x0d ∷ []

abbrev pub peer_header : EthHeader
peer_header = record { dest = peer_mac; src = host_mac; proto = 0x0008 }

abbrev pub full_pool : Pool
full_pool = record {
  reply = true;
  inject_buffer = true;
  inject_mdl = true;
  inject_nbl = true;
  tap_packet = true;
  data_buffer = true;
  header_in_place = true;
}

abbrev pub packet : ℕ → Packet
packet x = record { size_flags = 2; bytes = x ∷ x ∷ [] }

abbrev pub two_packets : PacketQueue
two_packets = record { queue = packet 1 ∷ packet 2 ∷ []; count = 2; total_bytes = 4; max_count = 2 }

abbrev pub irp : ℕ → Irp
irp id = record {
  irp_id = id;
  file_object = 1;
  status = NtStatus.pending;
  information = 4;
  system_buffer = replicate 4 0;
}

abbrev pub one_irp : IrpCsq
one_irp = record { queue = irp 7 ∷ []; count = 1; max_count = 1 }

abbrev pub tap_adapter : Adapter
tap_adapter = record {
  adapter_state = AdapterState.running;
  reset_in_progress = false;
  logical_media_state = 1;
  current_power_state = 1;
  permanent_address = host_mac;
  current_address = host_mac;
  tap_device_created = true;
  tap_file_object = some 1;
  tap_file_is_open = true;
  send_packet_queue = two_packets;
  receive_nbl_in_flight_count = 0;
  tun = false;
  local_ip = 0x0100080a;
  remote_network = 0x0000080a;
  remote_netmask = 0x00ffffff;
  tap_to_user = peer_header;
  user_to_tap = record { dest = host_mac; src = peer_mac; proto = 0x0008 };
  user_to_tap_ipv6 = record { dest = host_mac; src = peer_mac; proto = 0xdd86 };
  dhcp_enabled = true;
  dhcp_addr = 0x0200080a;
  dhcp_netmask = 0x00ffffff;
  dhcp_server_ip = 0xfe00080a;
  dhcp_server_arp = true;
  dhcp_server_mac = server_mac;
  dhcp_lease_time = 3600;
  dhcp_user_supplied_options_buffer = 15 ∷ 1 ∷ b'x' ∷ [];
  dhcp_user_supplied_options_buffer_len = 3;
  dhcp_received_discover = true;
  dhcp_bad_requests = 0;
  priority_behavior = 1;
  pending_read_irp_queue = one_irp;
  flow_control_list = [];
  flow_control_has_packets = false;
  mtu_size = 1500;
  packet_filter = 1;
  tx_stats = record {
    frames_tx_directed = 0;
    frames_tx_multicast = 0;
    frames_tx_broadcast = 0;
    bytes_tx_directed = 0;
    bytes_tx_multicast = 0;
    bytes_tx_broadcast = 0;
    tx_abort_excess_collisions = 0;
    tx_late_collisions = 0;
    tx_dma_underrun = 0;
    tx_lost_crs = 0;
    tx_ok_but_deferred = 0;
    one_retry = 0;
    more_than_one_retry = 0;
    transmit_failures_other = 0;
  };
  mc_list = [];
  lookahead = 1500;
  media_state_always_connected = false;
  receive_nbl_zero_event = false;
  rx_stats = record {
    frames_rx_directed = 0;
    frames_rx_multicast = 0;
    frames_rx_broadcast = 0;
    bytes_rx_directed = 0;
    bytes_rx_multicast = 0;
    bytes_rx_broadcast = 0;
    rx_crc_errors = 0;
    rx_alignment_errors = 0;
    rx_resource_errors = 0;
    rx_dma_overrun_errors = 0;
    rx_runt_errors = 0;
  };
  indicated = [];
  completed_irps = [];
  completed_nbls = [];
  in_flight = [];
  link_states = [];
}

abbrev pub tun_adapter : Adapter
tun_adapter = record tap_adapter { tun = true; dhcp_enabled = false }

abbrev pub fresh_adapter : Adapter
fresh_adapter = record tap_adapter { dhcp_received_discover = false }

abbrev pub strict_adapter : Adapter
strict_adapter = record tap_adapter { dhcp_bad_requests = 3 }

-- More user-supplied options than a reply has room for.
abbrev pub crowded_adapter : Adapter
crowded_adapter = record tap_adapter {
  dhcp_user_supplied_options_buffer = replicate 256 0;
  dhcp_user_supplied_options_buffer_len = 235;
}

abbrev pub request_eth : EthHeader
request_eth = record { dest = replicate 6 0xff; src = host_mac; proto = 0x0008 }

abbrev pub request_dhcp : DhcpHdr
request_dhcp = record {
  op = 1;
  htype = 1;
  hlen = 6;
  hops = 0;
  xid = 0x12345678;
  secs = 0;
  flags = 0;
  ciaddr = 0;
  yiaddr = 0;
  siaddr = 0;
  giaddr = 0;
  chaddr = 0x02 ∷ 0xff ∷ 0x0a ∷ 0x0b ∷ 0x0c ∷ 0x0d ∷ replicate 10 0;
  sname = replicate 64 0;
  file = replicate 128 0;
  magic = 0x63538263;
}

-- A DHCPREQUEST of the host.
abbrev pub request : Incoming
request = record {
  pool = full_pool;
  eth = request_eth;
  ip = record {
    version_len = 0x45;
    tos = 0;
    tot_len = htons 272;
    id = 0;
    frag_off = 0;
    ttl = 64;
    protocol = 17;
    check = 0;
    saddr = 0;
    daddr = 0xffffffff;
  };
  udp = record { source = htons 68; dest = htons 67; len = htons 252; check = 0 };
  dhcp = request_dhcp;
  options = 53 ∷ 1 ∷ 3 ∷ 255 ∷ [];
  optlen = 4;
}

abbrev pub nbl : ℕ → Nbl
nbl id = record {
  nbl_id = id;
  net_buffers = replicate 60 0 ∷ [];
  user_priority = 5;
  vlan_id = 100;
  nbl_status = success;
  header_in_place = true;
}

abbrev pub answers : Answers
answers = record {
  memory = true;
  registration_attributes = true;
  general_attributes = true;
  device = true;
  enable_tap_diag = false;
  diag_device = false;
}

-- An MTU of 100, which is too small, and an address that is not locally administered
abbrev pub settings : Settings
settings = record {
  instance_id = some (b'{' ∷ b'4' ∷ b'1' ∷ b'0' ∷ b'}' ∷ []);
  mtu = some 100;
  media_status = some 0;
  network_address = some (0 ∷ 1 ∷ 2 ∷ 3 ∷ 4 ∷ 5 ∷ []);
}
