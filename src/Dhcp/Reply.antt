-- ===== src/Dhcp/Reply.antt =====
-- The replies of the DHCP masquerade: BuildDHCPPre, SetChecksumDHCPMsg and SendDHCPMsg of
-- src/dhcp.c.
pub mod Content
pub mod Frame
pub mod Wire
pub mod Read
use tap_windows.Base.{
  ℕ, ◌+◌, ◌-◌, ◌*◌, ◌^◌, Bool, true, false, not, ◌&&◌, ◌||◌, List, ◌∷◌, ◌++◌, ◌==◌, if◌then◌else◌,
  take, drop, replicate, htons, htonl, u32, u32_bytes,
}
use tap_windows.Mac.{Mac, mac_size, zero_mac, mac_equal}
use tap_windows.Proto.{
  EthHeader, IpHdr, UdpHdr, DhcpHdr, eth_size, ip_size, udp_size, dhcp_size, eth_type_ipv4,
  eth_bytes, ip_bytes, udp_bytes, dhcp_bytes,
}
use tap_windows.Adapter.{Adapter}
use tap_windows.Checksum.{ip_checksum, udp_checksum, ipproto_udp}
use tap_windows.Receive.{Pool, indicate_receive_packet}
use tap_windows.Dhcp.Options.{
  Options, set_dhcp_opt, set_dhcp_opt0, set_dhcp_opt8, set_dhcp_opt32, dhcp_options_buffer_size,
}
use tap_windows.Dhcp.Scan.{dhcp_msg_type, dhcp_end}

-- The message types, the option tags and the other numbers of src/dhcp.h.
abbrev pub dhcpdiscover : ℕ
dhcpdiscover = 1

abbrev pub dhcpoffer : ℕ
dhcpoffer = 2

abbrev pub dhcprequest : ℕ
dhcprequest = 3

abbrev pub dhcpack : ℕ
dhcpack = 5

abbrev pub dhcpnak : ℕ
dhcpnak = 6

abbrev pub dhcp_netmask_tag : ℕ
dhcp_netmask_tag = 1

abbrev pub dhcp_lease_time_tag : ℕ
dhcp_lease_time_tag = 51

abbrev pub dhcp_server_id_tag : ℕ
dhcp_server_id_tag = 54

abbrev pub bootps_port : ℕ
bootps_port = 67

abbrev pub bootpc_port : ℕ
bootpc_port = 68

abbrev pub bootrequest : ℕ
bootrequest = 1

abbrev pub bootreply : ℕ
bootreply = 2

abbrev pub broadcast_mac : Mac
broadcast_mac = replicate mac_size 0xff

-- ETH_IS_BROADCAST
abbrev pub is_broadcast : Mac → Bool
is_broadcast m = mac_equal m broadcast_mac

-- DHCPPre
pub record Pre : Type 0 where
  pub eth : EthHeader
  pub ip : IpHdr
  pub udp : UdpHdr
  pub dhcp : DhcpHdr

-- The zeroed memory of a new message.
abbrev pub zero_pre : Pre
zero_pre = record {
  eth = record { dest = zero_mac; src = zero_mac; proto = 0 };
  ip = record {
    version_len = 0;
    tos = 0;
    tot_len = 0;
    id = 0;
    frag_off = 0;
    ttl = 0;
    protocol = 0;
    check = 0;
    saddr = 0;
    daddr = 0;
  };
  udp = record { source = 0; dest = 0; len = 0; check = 0 };
  dhcp = record {
    op = 0;
    htype = 0;
    hlen = 0;
    hops = 0;
    xid = 0;
    secs = 0;
    flags = 0;
    ciaddr = 0;
    yiaddr = 0;
    siaddr = 0;
    giaddr = 0;
    chaddr = replicate 16 0;
    sname = replicate 64 0;
    file = replicate 128 0;
    magic = 0;
  };
}

abbrev pub zero_options : Options
zero_options = record {
  optlen = 0;
  overflow = false;
  options = replicate dhcp_options_buffer_size 0;
}

-- BuildDHCPPre. The members `check` are filled in later.
unfoldable pub build_dhcp_pre : Adapter → Pre → EthHeader → DhcpHdr → ℕ → ℕ → Pre
build_dhcp_pre a p eth dhcp optlen type =
    let broadcast = type == dhcpnak || is_broadcast eth.dest in
    record {
      eth = record {
        src = a.dhcp_server_mac;
        dest = if broadcast then broadcast_mac else eth.src;
        proto = htons eth_type_ipv4;
      };
      ip = record {
        version_len = 0x45;
        tos = 0;
        tot_len = htons (ip_size + udp_size + dhcp_size + optlen);
        id = 0;
        frag_off = 0;
        ttl = 16;
        protocol = ipproto_udp;
        check = 0;
        saddr = a.dhcp_server_ip;
        daddr = if broadcast then 2 ^ 32 - 1 else a.dhcp_addr;
      };
      udp = record {
        source = htons bootps_port;
        dest = htons bootpc_port;
        len = htons (udp_size + dhcp_size + optlen);
        check = 0;
      };
      dhcp = record p.dhcp {
        op = bootreply;
        htype = 1;
        hlen = mac_size;
        hops = 0;
        xid = dhcp.xid;
        secs = 0;
        flags = 0;
        ciaddr = 0;
        yiaddr = if type == dhcpnak then 0 else a.dhcp_addr;
        siaddr = a.dhcp_server_ip;
        giaddr = 0;
        chaddr = eth.src ++ drop mac_size p.dhcp.chaddr;
        magic = htonl 0x63825363;
      };
    }

-- The datagram from the UDP header on, to the end of the options buffer.
abbrev pub udp_memory : Pre → Options → List ℕ
udp_memory p m = udp_bytes p.udp ++ (dhcp_bytes p.dhcp ++ m.options)

-- SetChecksumDHCPMsg
unfoldable pub set_checksum_dhcp_msg : Pre → Options → Pre
set_checksum_dhcp_msg p m =
    let ip = record p.ip { check = htons (ip_checksum (ip_bytes p.ip) ip_size) } in
    record p {
      ip = ip;
      udp = record p.udp {
        check = htons (
            udp_checksum (udp_memory p m) (udp_size + dhcp_size + m.optlen) (u32_bytes ip.saddr)
              (u32_bytes ip.daddr));
      };
    }

-- DHCPMSG_BUF, cut at DHCPMSG_LEN_FULL
abbrev pub dhcpmsg_buf : Pre → Options → List ℕ
dhcpmsg_buf p m =
    take (eth_size + ip_size + udp_size + dhcp_size + m.optlen)
      (eth_bytes p.eth ++ (ip_bytes p.ip ++ udp_memory p m))

-- The options of SendDHCPMsg.
unfoldable pub reply_options : Adapter → ℕ → Options
reply_options a type =
    let m = set_dhcp_opt8 zero_options dhcp_msg_type type in
    let m = set_dhcp_opt32 m dhcp_server_id_tag a.dhcp_server_ip in
    let m =
      if type == dhcpoffer || type == dhcpack
      then set_dhcp_opt
          (set_dhcp_opt32 (set_dhcp_opt32 m dhcp_lease_time_tag (htonl a.dhcp_lease_time))
            dhcp_netmask_tag a.dhcp_netmask)
          a.dhcp_user_supplied_options_buffer a.dhcp_user_supplied_options_buffer_len
      else m in
    set_dhcp_opt0 m dhcp_end

-- The frame of a reply, as SendDHCPMsg hands it on.
unfoldable pub reply_frame : Adapter → ℕ → EthHeader → DhcpHdr → List ℕ
reply_frame a type eth dhcp =
    let m = reply_options a type in
    dhcpmsg_buf (set_checksum_dhcp_msg (build_dhcp_pre a zero_pre eth dhcp m.optlen type) m) m

-- SendDHCPMsg
unfoldable pub send_dhcp_msg : Pool → Adapter → ℕ → EthHeader → DhcpHdr → Adapter
send_dhcp_msg pool a type eth dhcp =
    if not (type == dhcpoffer || type == dhcpack || type == dhcpnak)
    then a
    else if not pool.reply
    then a
    else if (reply_options a type).overflow
    then a
    else indicate_receive_packet pool a (reply_frame a type eth dhcp)
