-- ===== src/Dhcp/Reply/Wire.antt =====
-- A whole reply on the wire, as its receiver reads it.
use tap_windows.Base.{
  ℕ, ◌+◌, ◌≤◌, ◌≡◌, ◌∙◌, refl, sym, ap, arith, true, ◌||◌, List, ◌++◌, ◌==◌, take, drop, length,
  length-append, append_assoc, drop-append, u16_bytes, replicate, Bool-cases, inl, inr, subst,
}
use tap_windows.Proto.{
  EthHeader, DhcpHdr, eth_size, ip_size, udp_size, dhcp_size, eth_bytes, ip_bytes, udp_bytes,
  dhcp_bytes,
}
use tap_windows.Adapter.{Adapter}
use tap_windows.Dhcp.Options.{Options}
use tap_windows.Dhcp.Options.Append.{IsMsg}
use tap_windows.Dhcp.Reply.{
  Pre, zero_pre, build_dhcp_pre, set_checksum_dhcp_msg, udp_memory, reply_options, reply_frame,
  dhcpoffer, dhcpack, dhcpnak,
}
use tap_windows.Dhcp.Reply.Content.{HasUserOptions, nak-Adds, grant-Adds}
use tap_windows.Dhcp.Reply.Frame.{IsPre, take-append_more, length-rest}

reply_options-IsMsg :
    (a : Adapter) (type : ℕ)
    → HasUserOptions a
    → (type == dhcpoffer || type == dhcpack || type == dhcpnak) ≡ true
    → IsMsg (reply_options a type)
reply_options-IsMsg a type h known = elim (Bool-cases (type == dhcpoffer || type == dhcpack)) [
  | inl e ↦ (grant-Adds a type h e).0
  | inr e ↦
      let t : type ≡ dhcpnak = ground arith in
      subst (λ (t : ℕ). IsMsg (reply_options a t)) (sym t) (nak-Adds a).0
]

module _ (a : Adapter) (type : ℕ) (eth : EthHeader) (dhcp : DhcpHdr) (h : HasUserOptions a)
    (server : length a.dhcp_server_mac ≡ 6) (client : length eth.src ≡ 6)
    (known : (type == dhcpoffer || type == dhcpack || type == dhcpnak) ≡ true) where
  m : Options
  m = reply_options a type

  m-IsMsg : IsMsg m
  unfolding m
  m-IsMsg = reply_options-IsMsg a type h known

  p : Pre
  p = build_dhcp_pre a zero_pre eth dhcp m.optlen type

  p-IsPre : IsPre p
  unfolding p build_dhcp_pre
  p-IsPre = record {
    dest = ground (arith, client);
    src = server;
    chaddr = omega (arith, length-append {0} eth.src (replicate 10 0), client);
    sname = refl;
    file = refl;
  }

  q : Pre
  q = set_checksum_dhcp_msg p m

  q-eth : length (eth_bytes q.eth) ≡ eth_size
  unfolding q set_checksum_dhcp_msg
  q-eth = omega (
    arith,
    p-IsPre.dest,
    p-IsPre.src,
    length-append {0} p.eth.dest (p.eth.src ++ u16_bytes p.eth.proto),
    length-append {0} p.eth.src (u16_bytes p.eth.proto),
  )

  datagram : List ℕ
  datagram = take (udp_size + dhcp_size + m.optlen) (udp_memory q m)

  -- The frame: the three layers one after the other.
  frame_split : reply_frame a type eth dhcp ≡ eth_bytes q.eth ++ (ip_bytes q.ip ++ datagram)
  unfolding reply_frame q p m datagram
  frame_split =
      take-append_more (eth_bytes q.eth) (ip_bytes q.ip ++ udp_memory q m)
        (eth_size + ip_size + udp_size + dhcp_size + m.optlen)
        (ip_size + (udp_size + dhcp_size + m.optlen)) (omega (arith, q-eth))
      ∙ ap (λ (r : List ℕ). eth_bytes q.eth ++ r)
          (take-append_more (ip_bytes q.ip) (udp_memory q m)
            (ip_size + (udp_size + dhcp_size + m.optlen)) (udp_size + dhcp_size + m.optlen)
            (omega arith))

  rest :
      length m.options ≡ 256
      → m.optlen ≤ 256
      → length (dhcp_bytes p.dhcp ++ m.options) ≡ dhcp_size + 256
  unfolding p build_dhcp_pre
  rest = length-rest p m p-IsPre refl

  datagram_split :
      datagram ≡ udp_bytes q.udp ++ take (dhcp_size + m.optlen) (dhcp_bytes p.dhcp ++ m.options)
  unfolding datagram q set_checksum_dhcp_msg
  datagram_split =
      take-append_more (udp_bytes q.udp) (dhcp_bytes p.dhcp ++ m.options)
        (udp_size + dhcp_size + m.optlen) (dhcp_size + m.optlen) (omega arith)

  front : List ℕ
  front = eth_bytes q.eth ++ (ip_bytes q.ip ++ udp_bytes q.udp)

  length-front : length front ≡ 42
  unfolding front
  length-front =
      omega (arith, q-eth, length-append {0} (eth_bytes q.eth) (ip_bytes q.ip ++ udp_bytes q.udp))

  length-dhcp : length (dhcp_bytes p.dhcp) ≡ 240
  length-dhcp = omega (
    arith,
    rest m-IsMsg.size m-IsMsg.within,
    m-IsMsg.size,
    length-append {0} (dhcp_bytes p.dhcp) m.options,
  )

  -- The frame: 42 bytes of headers, the message, its options.
  frame_layout :
      reply_frame a type eth dhcp ≡ front ++ (dhcp_bytes p.dhcp ++ take m.optlen m.options)
  unfolding front
  frame_layout =
      frame_split
      ∙ ap (λ (r : List ℕ). eth_bytes q.eth ++ (ip_bytes q.ip ++ r))
          (datagram_split
            ∙ ap (λ (r : List ℕ). udp_bytes q.udp ++ r)
                (take-append_more (dhcp_bytes p.dhcp) m.options (dhcp_size + m.optlen) m.optlen
                  (omega (arith, length-dhcp))))
      ∙ sym (
          append_assoc (eth_bytes q.eth) (ip_bytes q.ip ++ udp_bytes q.udp)
            (dhcp_bytes p.dhcp ++ take m.optlen m.options))

  -- The message in the frame, and the options behind it, whatever follows them.
  pub message_at :
      (more : List ℕ)
      → drop 42 (reply_frame a type eth dhcp ++ more)
        ≡ dhcp_bytes (build_dhcp_pre a zero_pre eth dhcp (reply_options a type).optlen type).dhcp
          ++ (take (reply_options a type).optlen (reply_options a type).options ++ more)
  unfolding p m
  message_at more =
      let message = dhcp_bytes p.dhcp in
      let options = take m.optlen m.options in
      ap (λ (f : List ℕ). drop 42 (f ++ more)) frame_layout
      ∙ ap (drop 42) (append_assoc front (message ++ options) more)
      ∙ drop-append 42 front ((message ++ options) ++ more) (sym length-front)
      ∙ append_assoc message options more

  pub options_at :
      (more : List ℕ)
      → drop 282 (reply_frame a type eth dhcp ++ more)
        ≡ take (reply_options a type).optlen (reply_options a type).options ++ more
  unfolding m
  options_at more =
      let message = dhcp_bytes p.dhcp in
      let options = take m.optlen m.options in
      ap (λ (f : List ℕ). drop 282 (f ++ more)) frame_layout
      ∙ ap (λ (f : List ℕ). drop 282 (f ++ more)) (sym (append_assoc front message options))
      ∙ ap (drop 282) (append_assoc (front ++ message) options more)
      ∙ drop-append 282 (front ++ message) (options ++ more)
          (omega (arith, length-front, length-dhcp, length-append {0} front message))
