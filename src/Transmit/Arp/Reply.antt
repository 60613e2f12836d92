-- ===== src/Transmit/Arp/Reply.antt =====
-- What the host reads in the answer to its ARP request.
use tap_windows.Base.{
  refl, ◌⊎◌, inl, inr, Bool-cases, bytes_eq→eq, bytes_eq_refl, ==_iff, ◌==◌, bit_and, htons, false,
  ℕ, ◌+◌, ◌-◌, ◌*◌, ◌/◌, ◌%◌, ◌^◌, ◌≤◌, ◌<◌, ◌≡◌, sym, ◌∙◌, ◌≢◌, subst, arith, true, List, ◌++◌,
  length, row, row_lem, length-append, length-replicate, replicate,
}
use tap_windows.Mac.{Mac, IsMac, mac_equal}
use tap_windows.Proto.{ArpPacket, arp_bytes, arp_at}
use tap_windows.Adapter.{Adapter, send_and_receive_ready, success}
use tap_windows.Receive.{Pool, padded, with_frame, indicate_receive_packet}
use tap_windows.Transmit.Arp.{is_arp_query, arp_answer, process_arp}

-- The addresses of an ARP packet have their sizes.
pub record IsArp (p : ArpPacket) : Type 0 where
  pub destination : length p.mac_destination ≡ 6
  pub source : length p.mac_source ≡ 6
  pub arp_source : length p.arp_mac_source ≡ 6
  pub arp_destination : length p.arp_mac_destination ≡ 6
  pub proto : p.proto < 2 ^ 16
  pub mac_type : p.mac_address_type < 2 ^ 16
  pub proto_type : p.proto_address_type < 2 ^ 16
  pub operation : p.arp_operation < 2 ^ 16
  pub ip_source : p.arp_ip_source < 2 ^ 32
  pub ip_destination : p.arp_ip_destination < 2 ^ 32

u16_lem : (x : ℕ) → x < 2 ^ 16 → x % 256 + 256 * (x / 256 % 256) ≡ x
u16_lem x h = omega arith

u32_lem :
    (x : ℕ)
    → x < 2 ^ 32
    → x % 256 + 256 * (x / 2 ^ 8 % 256) + 2 ^ 16 * (x / 2 ^ 16 % 256 + 256 * (x / 2 ^ 24 % 256)) ≡ x
u32_lem x h = omega arith

-- The packet with its addresses written out.
abbrev rows : ArpPacket → ArpPacket
rows p = record p {
  mac_destination = row 6 p.mac_destination;
  mac_source = row 6 p.mac_source;
  arp_mac_source = row 6 p.arp_mac_source;
  arp_mac_destination = row 6 p.arp_mac_destination;
}

rows_lem : (p : ArpPacket) → IsArp p → p ≡ rows p
rows_lem p v = λ i. record p {
  mac_destination = row_lem 6 p.mac_destination v.destination i;
  mac_source = row_lem 6 p.mac_source v.source i;
  arp_mac_source = row_lem 6 p.arp_mac_source v.arp_source i;
  arp_mac_destination = row_lem 6 p.arp_mac_destination v.arp_destination i;
}

arp_at-rows :
    (p : ArpPacket) (rest : List ℕ) → IsArp p → arp_at (arp_bytes (rows p) ++ rest) 0 ≡ rows p
unfolding arp_at
arp_at-rows p rest v = λ i. record (rows p) {
  proto = u16_lem p.proto v.proto i;
  mac_address_type = u16_lem p.mac_address_type v.mac_type i;
  proto_address_type = u16_lem p.proto_address_type v.proto_type i;
  arp_operation = u16_lem p.arp_operation v.operation i;
  arp_ip_source = u32_lem p.arp_ip_source v.ip_source i;
  arp_ip_destination = u32_lem p.arp_ip_destination v.ip_destination i;
}

-- Reading an ARP packet back from a frame, whatever follows it.
pub arp_at-arp_bytes :
    (p : ArpPacket) (rest : List ℕ) → IsArp p → arp_at (arp_bytes p ++ rest) 0 ≡ p
arp_at-arp_bytes p rest v =
    subst (λ (q : ArpPacket). arp_at (arp_bytes q ++ rest) 0 ≡ q) (sym (rows_lem p v))
      (arp_at-rows p rest v)

-- The adapter can indicate, and every allocation succeeds.
pub record CanIndicate (a : Adapter) (pool : Pool) : Type 0 where
  pub ready : send_and_receive_ready a ≡ success
  pub reply : pool.reply ≡ true
  pub buffer : pool.inject_buffer ≡ true
  pub mdl : pool.inject_mdl ≡ true
  pub nbl : pool.inject_nbl ≡ true

answer-IsArp :
    (a : Adapter) (src : ArpPacket) (adapter_ip : ℕ) (mac : Mac)
    → IsMac a.current_address
    → IsMac mac
    → src.arp_ip_destination < 2 ^ 32
    → adapter_ip < 2 ^ 32
    → IsArp (arp_answer a src adapter_ip mac)
answer-IsArp a src adapter_ip mac ha hm hd hi = record {
  destination = ha.0;
  source = hm.0;
  arp_source = hm.0;
  arp_destination = ha.0;
  proto = omega arith;
  mac_type = omega arith;
  proto_type = omega arith;
  operation = omega arith;
  ip_source = hd;
  ip_destination = hi;
}

-- A query of the host (RFC 826) that ProcessARP answers: broadcast from its own address and for IPv4
-- over Ethernet, it asks for an address of the network that is not the host's own.
pub record IsQuery (a : Adapter) (src : ArpPacket) (adapter_ip ip_network ip_netmask : ℕ)
    : Type 0 where
  pub proto : src.proto ≡ htons 0x0806
  pub source : src.mac_source ≡ a.current_address
  pub arp_source : src.arp_mac_source ≡ a.current_address
  pub broadcast : src.mac_destination ≡ replicate 6 0xff
  pub request : src.arp_operation ≡ htons 1
  pub ethernet : src.mac_address_type ≡ htons 1
  pub mac_bytes : src.mac_address_size ≡ 6
  pub ipv4 : src.proto_address_type ≡ htons 0x0800
  pub ip_bytes : src.proto_address_size ≡ 4
  pub from_host : src.arp_ip_source ≡ adapter_ip
  pub in_network : bit_and src.arp_ip_destination ip_netmask ≡ ip_network
  pub other : src.arp_ip_destination ≢ adapter_ip

-- A reply (RFC 826) to the host: the address `mac` has the IP address that was asked for.
pub record IsReply (a : Adapter) (src : ArpPacket) (adapter_ip : ℕ) (mac : Mac) (r : ArpPacket)
    : Type 0 where
  pub proto : r.proto ≡ htons 0x0806
  pub destination : r.mac_destination ≡ a.current_address
  pub source : r.mac_source ≡ mac
  pub reply : r.arp_operation ≡ htons 2
  pub ethernet : r.mac_address_type ≡ htons 1
  pub mac_bytes : r.mac_address_size ≡ 6
  pub ipv4 : r.proto_address_type ≡ htons 0x0800
  pub ip_bytes : r.proto_address_size ≡ 4
  pub sender : r.arp_mac_source ≡ mac
  pub sender_ip : r.arp_ip_source ≡ src.arp_ip_destination
  pub target : r.arp_mac_destination ≡ a.current_address
  pub target_ip : r.arp_ip_destination ≡ adapter_ip

answer-IsReply :
    (a : Adapter) (src : ArpPacket) (adapter_ip : ℕ) (mac : Mac)
    → IsReply a src adapter_ip mac (arp_answer a src adapter_ip mac)
answer-IsReply a src adapter_ip mac = record {
  proto = refl;
  destination = refl;
  source = refl;
  reply = refl;
  ethernet = refl;
  mac_bytes = refl;
  ipv4 = refl;
  ip_bytes = refl;
  sender = refl;
  sender_ip = refl;
  target = refl;
  target_ip = refl;
}

true_or_false : true ≢ false
true_or_false e = ground (arith, e)

module _ (a : Adapter) (src : ArpPacket) (adapter_ip ip_network ip_netmask : ℕ) where
  accepted-IsQuery :
      is_arp_query a src adapter_ip ip_network ip_netmask ≡ true
      → IsQuery a src adapter_ip ip_network ip_netmask
  unfolding is_arp_query
  accepted-IsQuery query = record {
    proto = ground arith;
    source = bytes_eq→eq src.mac_source a.current_address (ground arith);
    arp_source = bytes_eq→eq src.arp_mac_source a.current_address (ground arith);
    broadcast = bytes_eq→eq src.mac_destination (replicate 6 0xff) (ground arith);
    request = ground arith;
    ethernet = ground arith;
    mac_bytes = ground arith;
    ipv4 = ground arith;
    ip_bytes = ground arith;
    from_host = ground arith;
    in_network = ground arith;
    other = λ own. ground arith;
  }

  IsQuery-query :
      IsQuery a src adapter_ip ip_network ip_netmask
      → is_arp_query a src adapter_ip ip_network ip_netmask ≡ true
  unfolding is_arp_query
  IsQuery-query q =
      let same : mac_equal src.mac_source a.current_address ≡ true =
        rw q.source (bytes_eq_refl a.current_address) in
      let arp_same : mac_equal src.arp_mac_source a.current_address ≡ true =
        rw q.arp_source (bytes_eq_refl a.current_address) in
      let broadcast : mac_equal src.mac_destination (replicate 6 0xff) ≡ true =
        rw q.broadcast refl in
      let other : (src.arp_ip_destination == adapter_ip) ≡ false = ground (arith, q.other) in
      rw
        (
          same,
          arp_same,
          broadcast,
          other,
          q.proto,
          q.request,
          q.ethernet,
          q.mac_bytes,
          q.ipv4,
          q.ip_bytes,
          (==_iff _ _).1 q.from_host,
          (==_iff _ _).1 q.in_network,
        )
        refl

-- Where the adapter can indicate and every allocation succeeds: ProcessARP answers a query of the
-- host with exactly one frame, of at least 60 bytes, in which the host reads an ARP reply to its own
-- address, from the given MAC address and for the IP address that was asked for; and any other packet
-- it leaves alone. The MAC and IP addresses have 6 and 4 bytes.
pub process_arp-arp_at :
    (pool : Pool) (a : Adapter) (src : ArpPacket) (adapter_ip ip_network ip_netmask : ℕ) (mac : Mac)
    → CanIndicate a pool
    → IsMac a.current_address
    → IsMac mac
    → src.arp_ip_destination < 2 ^ 32
    → adapter_ip < 2 ^ 32
    → (IsQuery a src adapter_ip ip_network ip_netmask
        × ((frame : List ℕ) × (process_arp pool a src adapter_ip ip_network ip_netmask mac
              ≡ (true, with_frame pool a frame))
            × (60 ≤ length frame)
            × IsReply a src adapter_ip mac (arp_at frame 0)))
      ⊎ ((¬ IsQuery a src adapter_ip ip_network ip_netmask)
          × (process_arp pool a src adapter_ip ip_network ip_netmask mac ≡ (false, a)))
unfolding process_arp indicate_receive_packet
process_arp-arp_at pool a src adapter_ip ip_network ip_netmask mac c ha hm hd hi =
    let bytes = arp_bytes (arp_answer a src adapter_ip mac) in
    let read = arp_at-arp_bytes _ _ (answer-IsArp a src adapter_ip mac ha hm hd hi) in
    elim (Bool-cases (is_arp_query a src adapter_ip ip_network ip_netmask)) [
      | inl query ↦ inl (
        accepted-IsQuery a src adapter_ip ip_network ip_netmask query,
        (
          padded bytes,
          rw (query, c.reply, c.ready, c.buffer, c.mdl, c.nbl) refl,
          omega (
            arith,
            length-append {0} bytes (replicate (60 - length bytes) 0),
            length-replicate {0} {A = ℕ} (60 - length bytes) 0,
          ),
          subst (IsReply a src adapter_ip mac) (sym read) (answer-IsReply a src adapter_ip mac),
        ),
      )
      | inr ignored ↦ inr (
        λ q. true_or_false (sym (IsQuery-query a src adapter_ip ip_network ip_netmask q) ∙ ignored),
        rw ignored refl,
      )
    ]
