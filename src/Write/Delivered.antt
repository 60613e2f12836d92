-- ===== src/Write/Delivered.antt =====
-- What the host receives of a write: the frame, with its padding and its header.
use tap_windows.Base.{
  ℕ, ◌+◌, ◌-◌, ◌*◌, ◌/◌, ◌%◌, ◌^◌, ◌≤◌, ◌<◌, ◌≡◌, refl, sym, ap, ◌∙◌, subst, arith, true, List, [],
  ◌∷◌, ◌++◌, some, length, length-append, length-take, length-write_at, append-nil, append_assoc,
  u16_bytes, replicate, length-replicate, Bool-cases, inl, inr, take, drop, drop-append, ltb, row,
  row_lem, byte_at, ◌==◌, false,
}
use tap_windows.Mac.{Mac, IsMac}
use tap_windows.Proto.{EthHeader, eth_at, eth_bytes}
use tap_windows.Ndis.{Irp, Nbl, NtStatus, RxNbl}
use tap_windows.Adapter.{Adapter, read_and_write_ready, send_and_receive_ready, success}
use tap_windows.Receive.{Pool, padded, with_nbl, tap_min_frame_size}
use tap_windows.Frames.{type_directed, type_promiscuous}
use tap_windows.Transmit.Vlan.{Stripped, strip_8021q, tag_frame, vlan_tag_size}
use tap_windows.Transmit.Vlan.Roundtrip.{strip-tag_frame}
use tap_windows.Write.{
  ulong_max, shared_send_packet, passes_filter, filter_has, write_ethernet, write_ip, write_mapped,
  finish_write, tap_device_write, stripped_irp, user_header,
}

-- The allocations for a list succeed.
pub record Supplies (pool : Pool) : Type 0 where
  pub inject_buffer : pool.inject_buffer ≡ true
  pub inject_mdl : pool.inject_mdl ≡ true
  pub inject_nbl : pool.inject_nbl ≡ true

-- The device is ready, and so is the adapter.
pub record IsUp (a : Adapter) : Type 0 where
  pub device : read_and_write_ready a ≡ true
  pub adapter : send_and_receive_ready a ≡ success

-- The list that carries a packet of a write.
abbrev pub sent_nbl : Pool → Irp → Stripped → List ℕ → RxNbl
sent_nbl pool irp p frame = record {
  rx_frame = frame;
  rx_priority = p.priority;
  rx_vlan = p.vlan;
  rx_irp = some irp;
  rx_in_place = pool.header_in_place;
}

padded_long : (frame : List ℕ) → tap_min_frame_size ≤ length frame → padded frame ≡ frame
padded_long frame h =
    let none_left : tap_min_frame_size - length frame ≡ 0 = omega arith in
    rw none_left (append-nil frame)

length-padded : (frame : List ℕ) → tap_min_frame_size ≤ length (padded frame)
length-padded frame =
    let zeros : length (replicate {A = ℕ} (60 - length frame) 0) ≡ 60 - length frame =
      length-replicate (60 - length frame) 0 in
    omega (arith, length-append frame (replicate (60 - length frame) 0), zeros)

shared_send_packet_lem :
    (pool : Pool) (a : Adapter) (irp : Irp) (p : Stripped) (prefix : List ℕ)
    → Supplies pool
    → length p.packet + length prefix ≤ ulong_max
    → shared_send_packet pool a irp p prefix
      ≡ (NtStatus.pending, irp, with_nbl a (sent_nbl pool irp p (padded (prefix ++ p.packet))))
unfolding shared_send_packet
shared_send_packet_lem pool a irp p prefix s h =
    elim (Bool-cases (ltb (length p.packet + length prefix) tap_min_frame_size)) [
      | inl short ↦ ground (arith, s, short)
      | inr long ↦
          let whole = length-append prefix p.packet in
          rw (padded_long (prefix ++ p.packet) (ground (arith, whole, long)))
            (ground (arith, s, long))
    ]

-- TapDeviceWrite of a request whose list went to the host.
written :
    (pool : Pool) (a : Adapter) (irp asked : Irp) (b : Adapter)
    → IsUp a
    → write_mapped pool a (record irp { information = length irp.system_buffer })
      ≡ (NtStatus.pending, asked, b)
    → tap_device_write pool a irp true true ≡ (NtStatus.pending, b)
unfolding tap_device_write finish_write
written pool a irp asked b up e = rw (up.device, e) refl

eth_at_bytes :
    (e : EthHeader) (rest : List ℕ)
    → IsMac e.dest
    → IsMac e.src
    → e.proto < 2 ^ 16
    → eth_at (eth_bytes e ++ rest) 0 ≡ e
unfolding eth_at
eth_at_bytes e rest hd hs hp =
    let typed : e.proto % 256 + 256 * (e.proto / 256 % 256) ≡ e.proto = omega arith in
    subst
      (λ (m : Mac). eth_at (eth_bytes (record e { dest = m }) ++ rest) 0 ≡ record e { dest = m })
      (sym (row_lem 6 e.dest hd.0))
      (subst
        (λ (m : Mac).
          eth_at (eth_bytes (record e { dest = row 6 e.dest; src = m }) ++ rest) 0
          ≡ record e { dest = row 6 e.dest; src = m })
        (sym (row_lem 6 e.src hs.0)) (rw typed refl))

-- In point-to-point mode a packet that may go to the host goes there behind its header.
to_write_ip :
    (pool : Pool) (a : Adapter) (irp : Irp)
    → IsUp a
    → a.tun ≡ true
    → filter_has a (type_directed + type_promiscuous) ≡ true
    → 20 ≤ length irp.system_buffer
    → write_mapped pool a irp
      ≡ shared_send_packet pool a irp
          (record { packet = irp.system_buffer; priority = 0; vlan = 0 })
          (eth_bytes (user_header a irp.system_buffer))
unfolding write_mapped write_ip
to_write_ip pool a irp up tun directed least = ground (arith, up, tun, directed, least)

-- In TAP mode a frame that passes the filter goes to the host without its tag.
to_write_ethernet :
    (pool : Pool) (a : Adapter) (irp : Irp)
    → IsUp a
    → a.tun ≡ false
    → passes_filter a (strip_8021q irp.system_buffer).packet ≡ true
    → 14 ≤ length irp.system_buffer
    → write_mapped pool a irp
      ≡ shared_send_packet pool a (stripped_irp irp) (strip_8021q irp.system_buffer) []
unfolding write_mapped write_ethernet
to_write_ethernet pool a irp up tun passes least = ground (arith, up, tun, passes, least)

length-eth_bytes : (e : EthHeader) → IsMac e.dest → IsMac e.src → length (eth_bytes e) ≡ 14
length-eth_bytes e hd hs = omega (
  arith,
  hd.0,
  hs.0,
  length-append e.dest (e.src ++ u16_bytes e.proto),
  length-append e.src (u16_bytes e.proto),
)

-- The Ethernet header for a packet, by the version in its first four bits.
pub data HeaderFor (a : Adapter) (packet : List ℕ) : EthHeader → Type 0 where
  ipv6 : 0x60 ≤ byte_at packet 0 → byte_at packet 0 < 0x70 → HeaderFor a packet a.user_to_tap_ipv6
  below_ipv6 : byte_at packet 0 < 0x60 → HeaderFor a packet a.user_to_tap
  above_ipv6 : 0x70 ≤ byte_at packet 0 → HeaderFor a packet a.user_to_tap

user_header-HeaderFor :
    (a : Adapter) (packet : List ℕ) (h : EthHeader)
    → HeaderFor a packet h
    → user_header a packet ≡ h
unfolding user_header
user_header-HeaderFor a packet _ (ipv6 least most) =
    let six : (byte_at packet 0 / 2 ^ 4 == 6) ≡ true = ground (arith, least, most) in rw six refl
user_header-HeaderFor a packet _ (below_ipv6 below) =
    let no : (byte_at packet 0 / 2 ^ 4 == 6) ≡ false = ground (arith, below) in rw no refl
user_header-HeaderFor a packet _ (above_ipv6 above) =
    let no : (byte_at packet 0 / 2 ^ 4 == 6) ≡ false = ground (arith, above) in rw no refl

-- In point-to-point mode, where the device and the adapter are ready, every allocation succeeds and
-- the packet filter lets directed frames through, a packet of at least an IPv4 header that the
-- application writes goes to the host in one frame of at least 60 bytes: an Ethernet header, which
-- is user_to_tap_ipv6 if the first byte of the packet is from 0x60 to 0x6f (version 6) and
-- user_to_tap if not, and behind it the packet, padded with zeros. The header has MAC addresses, and
-- the packet less than 2 ^ 32 - 14 bytes.
pub write-tun :
    (pool : Pool) (a : Adapter) (irp : Irp) (header : EthHeader)
    → Supplies pool
    → IsUp a
    → a.tun ≡ true
    → filter_has a (type_directed + type_promiscuous) ≡ true
    → 20 ≤ length irp.system_buffer
    → length irp.system_buffer + 14 < 2 ^ 32
    → HeaderFor a irp.system_buffer header
    → IsMac header.dest
    → IsMac header.src
    → header.proto < 2 ^ 16
    → (frame : List ℕ) × ((tap_device_write pool a irp true true).1.indicated ≡ frame ∷ a.indicated)
      × (60 ≤ length frame)
      × (eth_at frame 0 ≡ header)
      × (drop 14 frame ≡ irp.system_buffer ++ replicate (46 - length irp.system_buffer) 0)
unfolding write_mapped write_ip
write-tun pool a irp header s up tun directed least most chosen hd hs hp =
    let packet = irp.system_buffer in
    let asked = record irp { information = length packet } in
    let p : Stripped = record { packet = packet; priority = 0; vlan = 0 } in
    let frame = padded (eth_bytes header ++ packet) in
    let b = with_nbl a (sent_nbl pool asked p frame) in
    let fourteen = length-eth_bytes header hd hs in
    let fits : length packet + length (eth_bytes header) ≤ ulong_max = omega arith in
    let sent : write_mapped pool a asked ≡ (NtStatus.pending, asked, b) =
      to_write_ip pool a asked up tun directed least
      ∙ ap (λ (h : EthHeader). shared_send_packet pool a asked p (eth_bytes h))
          (user_header-HeaderFor a packet header chosen)
      ∙ shared_send_packet_lem pool a asked p (eth_bytes header) s fits in
    let zeros : 60 - length (eth_bytes header ++ packet) ≡ 46 - length packet =
      omega (arith, length-append (eth_bytes header) packet) in
    let laid : frame ≡ eth_bytes header ++ (packet ++ replicate (46 - length packet) 0) =
      rw zeros (append_assoc (eth_bytes header) packet _) in
    (
      frame,
      ap (λ (r : NtStatus × Adapter). r.1.indicated) (written pool a irp asked b up sent),
      length-padded (eth_bytes header ++ packet),
      rw laid (eth_at_bytes header _ hd hs hp),
      rw laid (drop-append 14 (eth_bytes header) _ (sym fourteen)),
    )

length-tag_frame :
    (unset : List ℕ) (nbl : Nbl) (frame : List ℕ)
    → vlan_tag_size ≤ length unset
    → length (tag_frame unset vlan_tag_size nbl frame) ≡ length frame + 4
unfolding tag_frame
length-tag_frame unset nbl frame h =
    let memory = take 4 unset ++ frame in
    rw (length-write_at, length-write_at, length-write_at, length-append (take 4 unset) frame)
      (omega (arith, length-take 4 unset))

-- A frame that the application read with an 802.1Q tag and writes as it read it comes back to the
-- host as it was, padded to 60 bytes, with the priority (3 bits) and the VLAN (12 bits) of the tag
-- beside it. The adapter is in TAP mode, it and the device are ready, every allocation succeeds,
-- the frame passes the packet filter and has an Ethernet header and less than 2 ^ 32 bytes.
pub write-tag_frame :
    (pool : Pool) (a : Adapter) (irp : Irp) (unset : List ℕ) (nbl : Nbl) (frame : List ℕ)
    → Supplies pool
    → IsUp a
    → a.tun ≡ false
    → passes_filter a frame ≡ true
    → vlan_tag_size ≤ length unset
    → 14 ≤ length frame
    → length frame < 2 ^ 32
    → nbl.user_priority < 2 ^ 3
    → nbl.vlan_id < 2 ^ 12
    → irp.system_buffer ≡ tag_frame unset vlan_tag_size nbl frame
    → (sent : RxNbl) × ((tap_device_write pool a irp true true).1.in_flight ≡ sent ∷ a.in_flight)
      × (sent.rx_frame ≡ padded frame)
      × (sent.rx_priority ≡ nbl.user_priority)
      × (sent.rx_vlan ≡ nbl.vlan_id)
write-tag_frame pool a irp unset nbl frame s up tun passes room least most hp hv tagged =
    let p : Stripped = record {
      packet = frame;
      priority = nbl.user_priority;
      vlan = nbl.vlan_id;
    } in
    let asked = record irp { information = length irp.system_buffer } in
    let strip : strip_8021q irp.system_buffer ≡ p =
      ap strip_8021q tagged ∙ strip-tag_frame unset nbl frame room least hp hv in
    let long : 14 ≤ length irp.system_buffer =
      omega (arith, ap length tagged, length-tag_frame unset nbl frame room) in
    let pass : passes_filter a (strip_8021q irp.system_buffer).packet ≡ true =
      ap (λ (q : Stripped). passes_filter a q.packet) strip ∙ passes in
    let full : length frame + 0 ≤ ulong_max = omega arith in
    let sent = sent_nbl pool (stripped_irp asked) p (padded frame) in
    let mapped : write_mapped pool a asked
        ≡ (NtStatus.pending, stripped_irp asked, with_nbl a sent) =
      to_write_ethernet pool a asked up tun pass long
      ∙ ap (λ (q : Stripped). shared_send_packet pool a (stripped_irp asked) q []) strip
      ∙ shared_send_packet_lem pool a (stripped_irp asked) p [] s full in
    (
      sent,
      ap (λ (r : NtStatus × Adapter). r.1.in_flight)
          (written pool a irp (stripped_irp asked) (with_nbl a sent) up mapped),
      refl,
      refl,
      refl,
    )
