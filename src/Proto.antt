-- ===== src/Proto.antt =====
-- The packed structs of src/proto.h and of src/dhcp.h: their members, how each lies in memory, and
-- the view of memory that a cast to the struct gives. Multi-byte members hold the value that the
-- little-endian machine reads, so a value in network order stands there under `htons` or `htonl`.
use tap_windows.Base.{ℕ, ◌+◌, List, ◌∷◌, ◌++◌, byte_at, u16_at, u32_at, u16_bytes, u32_bytes, slice}
use tap_windows.Mac.{Mac}

pub record EthHeader : Type 0 where
  pub dest : Mac
  pub src : Mac
  pub proto : ℕ

pub record IpHdr : Type 0 where
  pub version_len : ℕ
  pub tos : ℕ
  pub tot_len : ℕ
  pub id : ℕ
  pub frag_off : ℕ
  pub ttl : ℕ
  pub protocol : ℕ
  pub check : ℕ
  pub saddr : ℕ
  pub daddr : ℕ

pub record UdpHdr : Type 0 where
  pub source : ℕ
  pub dest : ℕ
  pub len : ℕ
  pub check : ℕ

-- The struct DHCP.
pub record DhcpHdr : Type 0 where
  pub op : ℕ
  pub htype : ℕ
  pub hlen : ℕ
  pub hops : ℕ
  pub xid : ℕ
  pub secs : ℕ
  pub flags : ℕ
  pub ciaddr : ℕ
  pub yiaddr : ℕ
  pub siaddr : ℕ
  pub giaddr : ℕ
  pub chaddr : List ℕ
  pub sname : List ℕ
  pub file : List ℕ
  pub magic : ℕ

pub record ArpPacket : Type 0 where
  pub mac_destination : Mac
  pub mac_source : Mac
  pub proto : ℕ
  pub mac_address_type : ℕ
  pub proto_address_type : ℕ
  pub mac_address_size : ℕ
  pub proto_address_size : ℕ
  pub arp_operation : ℕ
  pub arp_mac_source : Mac
  pub arp_ip_source : ℕ
  pub arp_mac_destination : Mac
  pub arp_ip_destination : ℕ

-- sizeof
abbrev pub eth_size : ℕ
eth_size = 14

abbrev pub ip_size : ℕ
ip_size = 20

abbrev pub udp_size : ℕ
udp_size = 8

abbrev pub dhcp_size : ℕ
dhcp_size = 240

abbrev pub arp_size : ℕ
arp_size = 42

-- The constants of the protocols.
abbrev pub eth_type_ipv4 : ℕ
eth_type_ipv4 = 0x0800

abbrev pub eth_type_arp : ℕ
eth_type_arp = 0x0806

abbrev pub eth_type_ipv6 : ℕ
eth_type_ipv6 = 0x86dd

abbrev pub eth_bytes : EthHeader → List ℕ
eth_bytes e = e.dest ++ (e.src ++ u16_bytes e.proto)

abbrev pub ip_bytes : IpHdr → List ℕ
ip_bytes h =
    h.version_len
    ∷ h.tos
    ∷ (u16_bytes h.tot_len
        ++ (u16_bytes h.id
            ++ (u16_bytes h.frag_off
                ++ (h.ttl
                    ∷ h.protocol
                    ∷ (u16_bytes h.check ++ (u32_bytes h.saddr ++ u32_bytes h.daddr))))))

abbrev pub udp_bytes : UdpHdr → List ℕ
udp_bytes h = u16_bytes h.source ++ (u16_bytes h.dest ++ (u16_bytes h.len ++ u16_bytes h.check))

abbrev pub dhcp_bytes : DhcpHdr → List ℕ
dhcp_bytes h =
    h.op
    ∷ h.htype
    ∷ h.hlen
    ∷ h.hops
    ∷ (u32_bytes h.xid
        ++ (u16_bytes h.secs
            ++ (u16_bytes h.flags
                ++ (u32_bytes h.ciaddr
                    ++ (u32_bytes h.yiaddr
                        ++ (u32_bytes h.siaddr
                            ++ (u32_bytes h.giaddr
                                ++ (h.chaddr ++ (h.sname ++ (h.file ++ u32_bytes h.magic))))))))))

abbrev pub arp_bytes : ArpPacket → List ℕ
arp_bytes a =
    a.mac_destination
    ++ (a.mac_source
        ++ (u16_bytes a.proto
            ++ (u16_bytes a.mac_address_type
                ++ (u16_bytes a.proto_address_type
                    ++ (a.mac_address_size
                        ∷ a.proto_address_size
                        ∷ (u16_bytes a.arp_operation
                            ++ (a.arp_mac_source
                                ++ (u32_bytes a.arp_ip_source
                                    ++ (a.arp_mac_destination
                                        ++ u32_bytes a.arp_ip_destination)))))))))

-- The casts `(ETH_HEADER *) (p + o)` and so on.
unfoldable pub eth_at : List ℕ → ℕ → EthHeader
eth_at p o = record { dest = slice p o 6; src = slice p (o + 6) 6; proto = u16_at p (o + 12) }

unfoldable pub ip_at : List ℕ → ℕ → IpHdr
ip_at p o = record {
  version_len = byte_at p o;
  tos = byte_at p (o + 1);
  tot_len = u16_at p (o + 2);
  id = u16_at p (o + 4);
  frag_off = u16_at p (o + 6);
  ttl = byte_at p (o + 8);
  protocol = byte_at p (o + 9);
  check = u16_at p (o + 10);
  saddr = u32_at p (o + 12);
  daddr = u32_at p (o + 16);
}

unfoldable pub udp_at : List ℕ → ℕ → UdpHdr
udp_at p o = record {
  source = u16_at p o;
  dest = u16_at p (o + 2);
  len = u16_at p (o + 4);
  check = u16_at p (o + 6);
}

unfoldable pub dhcp_at : List ℕ → ℕ → DhcpHdr
dhcp_at p o = record {
  op = byte_at p o;
  htype = byte_at p (o + 1);
  hlen = byte_at p (o + 2);
  hops = byte_at p (o + 3);
  xid = u32_at p (o + 4);
  secs = u16_at p (o + 8);
  flags = u16_at p (o + 10);
  ciaddr = u32_at p (o + 12);
  yiaddr = u32_at p (o + 16);
  siaddr = u32_at p (o + 20);
  giaddr = u32_at p (o + 24);
  chaddr = slice p (o + 28) 16;
  sname = slice p (o + 44) 64;
  file = slice p (o + 108) 128;
  magic = u32_at p (o + 236);
}

unfoldable pub arp_at : List ℕ → ℕ → ArpPacket
arp_at p o = record {
  mac_destination = slice p o 6;
  mac_source = slice p (o + 6) 6;
  proto = u16_at p (o + 12);
  mac_address_type = u16_at p (o + 14);
  proto_address_type = u16_at p (o + 16);
  mac_address_size = byte_at p (o + 18);
  proto_address_size = byte_at p (o + 19);
  arp_operation = u16_at p (o + 20);
  arp_mac_source = slice p (o + 22) 6;
  arp_ip_source = u32_at p (o + 28);
  arp_mac_destination = slice p (o + 32) 6;
  arp_ip_destination = u32_at p (o + 38);
}
