-- ===== src/Dhcp/Reply/Frame.antt =====
-- The frame of a reply, as a receiver reads it: its lengths and its checksums.
use tap_windows.Base.{
  ℕ, zero, suc, ◌+◌, ◌≤◌, ◌≡◌, ◌∙◌, sym, refl, ap, arith, List, [], ◌∷◌, ◌++◌, take, length,
  length-take, length-append, htons, u16_bytes, u32_bytes, take_all, subst,
}
use tap_windows.Proto.{ip_size, udp_size, dhcp_size, ip_bytes, udp_bytes, dhcp_bytes}
use tap_windows.Checksum.{ip_checksum, udp_checksum, udp_sum}
use tap_windows.Checksum.Verify.{with_field, zeros, ip_checksum_verifies, udp_checksum_verifies}
use tap_windows.Dhcp.Options.{Options}
use tap_windows.Dhcp.Reply.{Pre, set_checksum_dhcp_msg, udp_memory}

-- The memory of the headers has the sizes of the structs.
pub record IsPre (p : Pre) : Type 0 where
  pub dest : length p.eth.dest ≡ 6
  pub src : length p.eth.src ≡ 6
  pub chaddr : length p.dhcp.chaddr ≡ 16
  pub sname : length p.dhcp.sname ≡ 64
  pub file : length p.dhcp.file ≡ 128

pub take-append_more :
    (xs ys : List ℕ) (n k : ℕ) → n ≡ length xs + k → take n (xs ++ ys) ≡ xs ++ take k ys
take-append_more [] ys n k e = ap (λ (i : ℕ). take i ys) (omega (arith, e))
take-append_more (x ∷ xs) ys zero k e = absurd (omega arith)
take-append_more (x ∷ xs) ys (suc n) k e =
    ap (λ r. x ∷ r) (take-append_more xs ys n k (omega arith))

take_twice : (n : ℕ) (xs : List ℕ) → take n (take n xs) ≡ take n xs
take_twice n xs = take_all n (take n xs) (omega (arith, length-take n xs))

module _ (p : Pre) (m : Options) (blank_ip : p.ip.check ≡ 0) where
  ip_front : List ℕ
  ip_front =
      p.ip.version_len
      ∷ p.ip.tos
      ∷ (u16_bytes p.ip.tot_len
          ++ (u16_bytes p.ip.id ++ (u16_bytes p.ip.frag_off ++ (p.ip.ttl ∷ p.ip.protocol ∷ []))))

  ip_back : List ℕ
  ip_back = u32_bytes p.ip.saddr ++ u32_bytes p.ip.daddr

  -- The IP header of the message passes the receiver's check.
  pub ip_header_verifies : ip_checksum (ip_bytes (set_checksum_dhcp_msg p m).ip) ip_size ≡ 0
  unfolding set_checksum_dhcp_msg ip_front ip_back
  ip_header_verifies = rw blank_ip (ip_checksum_verifies 5 ip_front ip_back refl (omega arith))

pub udp_checksum-take :
    (buf : List ℕ) (len : ℕ) (src dest : List ℕ)
    → udp_checksum (take len buf) len src dest ≡ udp_checksum buf len src dest
unfolding udp_checksum udp_sum
udp_checksum-take buf len src dest = rw (take_twice len buf)

module _ (p : Pre) (m : Options) (v : IsPre p) (blank : p.udp.check ≡ 0)
    (size : length m.options ≡ 256) (within : m.optlen ≤ 256) where
  pub length-rest : length (dhcp_bytes p.dhcp ++ m.options) ≡ dhcp_size + 256
  length-rest = omega (
    arith,
    length-append {0} p.dhcp.chaddr (p.dhcp.sname ++ (p.dhcp.file ++ u32_bytes p.dhcp.magic)),
    length-append {0} p.dhcp.sname (p.dhcp.file ++ u32_bytes p.dhcp.magic),
    length-append {0} p.dhcp.file (u32_bytes p.dhcp.magic),
    length-append {0} (dhcp_bytes p.dhcp) m.options,
    v.chaddr,
    v.sname,
    v.file,
  )

  udp_front : List ℕ
  udp_front = u16_bytes p.udp.source ++ (u16_bytes p.udp.dest ++ u16_bytes p.udp.len)

  udp_back : List ℕ
  udp_back = take (dhcp_size + m.optlen) (dhcp_bytes p.dhcp ++ m.options)

  length-udp_back : length udp_back ≡ dhcp_size + m.optlen
  unfolding udp_back
  length-udp_back =
      omega
        (arith, length-rest, length-take (dhcp_size + m.optlen) (dhcp_bytes p.dhcp ++ m.options))

  -- The datagram with some checksum, cut at its length.
  take-udp_memory :
      (c : ℕ)
      → take
          (udp_size + dhcp_size + m.optlen)
          (udp_bytes (record p.udp { check = c }) ++ (dhcp_bytes p.dhcp ++ m.options))
        ≡ with_field udp_front (u16_bytes c) udp_back
  unfolding udp_front udp_back
  take-udp_memory c =
      take-append_more (udp_bytes (record p.udp { check = c })) (dhcp_bytes p.dhcp ++ m.options)
        (udp_size + dhcp_size + m.optlen) (dhcp_size + m.optlen) (omega arith)

  stored_verifies :
      (src dest : List ℕ)
      → length src ≡ 4
      → length dest ≡ 4
      → let len = udp_size + dhcp_size + m.optlen in
        let c = udp_checksum (with_field udp_front zeros udp_back) len src dest in
        udp_checksum (with_field udp_front (u16_bytes (htons c)) udp_back) len src dest ≡ 0
  unfolding udp_front
  stored_verifies src dest hs hd =
      subst
        (λ (len : ℕ).
          udp_checksum
            (with_field udp_front
              (u16_bytes (htons (udp_checksum (with_field udp_front zeros udp_back) len src dest)))
              udp_back)
            len src dest
          ≡ 0)
        (omega (arith, length-udp_back))
        (udp_checksum_verifies 3 udp_front udp_back src dest refl hs hd
          (omega (arith, length-udp_back)))

  checked_view :
      (c : ℕ) (src dest : List ℕ)
      → let len = udp_size + dhcp_size + m.optlen in
        udp_checksum
          (udp_bytes (record p.udp { check = c }) ++ (dhcp_bytes p.dhcp ++ m.options))
          len
          src
          dest
        ≡ udp_checksum (with_field udp_front (u16_bytes c) udp_back) len src dest
  checked_view c src dest =
      let len = udp_size + dhcp_size + m.optlen in
      let buf = udp_bytes (record p.udp { check = c }) ++ (dhcp_bytes p.dhcp ++ m.options) in
      let step : take len buf ≡ with_field udp_front (u16_bytes c) udp_back = take-udp_memory c in
      sym (udp_checksum-take buf len src dest)
      ∙ ap (λ (b : List ℕ). udp_checksum b len src dest) step

  blank_view :
      (src dest : List ℕ)
      → let len = udp_size + dhcp_size + m.optlen in
        udp_checksum (udp_memory p m) len src dest
        ≡ udp_checksum (with_field udp_front zeros udp_back) len src dest
  blank_view src dest =
      let len = udp_size + dhcp_size + m.optlen in
      checked_view p.udp.check src dest
      ∙ ap (λ (c : ℕ). udp_checksum (with_field udp_front (u16_bytes c) udp_back) len src dest)
          blank

  -- The UDP datagram of the message passes the receiver's check.
  pub datagram_verifies :
      let q = set_checksum_dhcp_msg p m in
      udp_checksum
        (udp_memory q m)
        (udp_size + dhcp_size + m.optlen)
        (u32_bytes q.ip.saddr)
        (u32_bytes q.ip.daddr)
      ≡ 0
  unfolding set_checksum_dhcp_msg
  datagram_verifies =
      let len = udp_size + dhcp_size + m.optlen in
      let src = u32_bytes p.ip.saddr in
      let dest = u32_bytes p.ip.daddr in
      let c = udp_checksum (udp_memory p m) len src dest in
      checked_view (htons c) src dest
      ∙ (ap
            (λ (c : ℕ).
              udp_checksum (with_field udp_front (u16_bytes (htons c)) udp_back) len src dest)
            (blank_view src dest)
          ∙ stored_verifies src dest refl refl)
