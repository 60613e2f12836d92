-- ===== src/Dhcp/Process/History.antt =====
-- What the DHCP masquerade sends over any history of packets.
use tap_windows.Base.{
  ℕ, ◌+◌, ◌%◌, ◌^◌, ◌≤◌, ◌<◌, ◌≡◌, ◌⊎◌, inl, inr, ◌∙◌, refl, arith, Bool, true, false, ◌||◌, List,
  [], ◌∷◌, ◌==◌, ntohs, htons, take, slice, u32_bytes, replicate, length, ==_iff, ap, subst,
  Bool-cases, bytes_eq_refl,
}
use tap_windows.Mac.{mac_equal}
use tap_windows.Proto.{EthHeader, DhcpHdr}
use tap_windows.Adapter.{Adapter, send_and_receive_ready, success}
use tap_windows.Receive.{Pool, padded, with_frame, indicate_receive_packet}
use tap_windows.Dhcp.Scan.{found}
use tap_windows.Dhcp.Reply.{
  dhcpdiscover, dhcpoffer, dhcprequest, dhcpack, dhcpnak, reply_frame, reply_options, is_broadcast,
  send_dhcp_msg,
}
use tap_windows.Dhcp.Reply.Read.{IsTyped, reply_frame-IsTyped, granted-reads}
use tap_windows.Dhcp.Process.{
  dhcp_message_ours, is_type, asks_for_other, chosen_reply, remember_request, process_dhcp,
  bad_dhcprequest_nak_threshold,
}
use tap_windows.Dhcp.Process.Server.{
  Incoming, run_one, run, type_of, All, SentSince, IsServer, run_one-SentSince, run_one-IsServer,
  run_one-discover, run_one-bad,
}

abbrev is_nak : ℕ → Bool
is_nak t = t == dhcpnak

abbrev is_offer_or_nak : ℕ → Bool
is_offer_or_nak t = t == dhcpoffer || t == dhcpnak

chosen-nak :
    (a : Adapter) (m : Incoming)
    → a.dhcp_received_discover ≡ false
    → is_type (type_of m) dhcpdiscover ≡ false
    → (is_type (type_of m) dhcpdiscover || is_type (type_of m) dhcprequest) ≡ true
    → is_nak (chosen_reply a m.dhcp (type_of m)) ≡ true
unfolding chosen_reply
chosen-nak a m fresh other asked = ground arith

chosen-no_ack :
    (a : Adapter) (m : Incoming)
    → bad_dhcprequest_nak_threshold ≤ a.dhcp_bad_requests
    → (is_type (type_of m) dhcpdiscover || is_type (type_of m) dhcprequest) ≡ true
    → is_offer_or_nak (chosen_reply a m.dhcp (type_of m)) ≡ true
unfolding chosen_reply
chosen-no_ack a m many asked = ground arith

-- A frame whose DHCP message says that it is an offer or a refusal.
abbrev pub IsOfferOrNak : List ℕ → Type 0
IsOfferOrNak frame = IsTyped 2 frame ⊎ IsTyped 6 frame

module _ (a : Adapter) (m : Incoming) (v : IsServer a) (client : length m.eth.src ≡ 6) where
  typed :
      (type : ℕ)
      → (type == dhcpoffer || type == dhcpack || type == dhcpnak) ≡ true
      → IsTyped type (padded (reply_frame a type m.eth m.dhcp))
  typed type known = reply_frame-IsTyped a type m.eth m.dhcp v.options v.mac client known

  nak-IsTyped :
      (type : ℕ) → is_nak type ≡ true → IsTyped 6 (padded (reply_frame a type m.eth m.dhcp))
  nak-IsTyped type e =
      let six : type ≡ 6 = ground (arith, e) in
      subst (λ (t : ℕ). IsTyped t (padded (reply_frame a type m.eth m.dhcp))) six
        (typed type (ground (arith, e)))

  chosen_frame-IsOfferOrNak :
      (type : ℕ)
      → is_offer_or_nak type ≡ true
      → IsOfferOrNak (padded (reply_frame a type m.eth m.dhcp))
  chosen_frame-IsOfferOrNak type e = elim (Bool-cases (type == dhcpnak)) [
    | inl refused ↦ inr (nak-IsTyped type refused)
    | inr other ↦
        let two : type ≡ 2 = ground (arith, e, other) in
        inl (
          subst (λ (t : ℕ). IsTyped t (padded (reply_frame a type m.eth m.dhcp))) two
            (typed type (ground (arith, e))))
  ]

-- The Ethernet header of a packet has a source address of 6 bytes.
abbrev pub HasSource : Incoming → Type 0
HasSource m = length m.eth.src ≡ 6

-- As long as no DHCPDISCOVER has come in since the last reset, every frame that the masquerade
-- sends is a DHCPNAK, whatever else the host asks for.
pub nak_before_discover :
    (ms : List Incoming) (a : Adapter) (old : List (List ℕ))
    → IsServer a
    → a.dhcp_received_discover ≡ false
    → All (λ m. HasSource m × (is_type (type_of m) dhcpdiscover ≡ false)) ms
    → SentSince (IsTyped 6) old a.indicated
    → SentSince (IsTyped 6) old (run a ms).indicated
nak_before_discover [] a old v fresh others before = before
nak_before_discover (m ∷ ms) a old v fresh ((client, other), others) before =
    nak_before_discover ms (run_one a m) old (run_one-IsServer a m v)
      (run_one-discover a m other ∙ fresh) others
      (run_one-SentSince (IsTyped 6) old a m
        (λ asked. nak-IsTyped a m v client _ (chosen-nak a m fresh other asked)) before)

no_ack_since :
    (ms : List Incoming) (a : Adapter) (old : List (List ℕ))
    → IsServer a
    → All HasSource ms
    → bad_dhcprequest_nak_threshold ≤ a.dhcp_bad_requests
    → a.dhcp_bad_requests + length ms < 2 ^ 32
    → SentSince IsOfferOrNak old a.indicated
    → SentSince IsOfferOrNak old (run a ms).indicated
no_ack_since [] a old v clients many room before = before
no_ack_since (m ∷ ms) a old v (client, clients) many room before =
    no_ack_since ms (run_one a m) old (run_one-IsServer a m v) clients
      (omega (arith, run_one-bad a m)) (omega (arith, run_one-bad a m))
      (run_one-SentSince IsOfferOrNak old a m
        (λ asked. chosen_frame-IsOfferOrNak a m v client _ (chosen-no_ack a m many asked)) before)

-- Once three bad requests were counted, the masquerade sends no DHCPACK any more, until a reset or
-- until the 32-bit counter could have wrapped: whatever packets the host sends, the frames that go
-- to it are added one by one to those before, and the first option of the DHCP message in each of
-- them says DHCPOFFER or DHCPNAK. The packets have source addresses of 6 bytes, and so is the
-- address of the server; the user-supplied options lie in their buffer.
pub no_ack_after_bad :
    (ms : List Incoming) (a : Adapter)
    → IsServer a
    → All HasSource ms
    → 3 ≤ a.dhcp_bad_requests
    → a.dhcp_bad_requests + length ms < 2 ^ 32
    → SentSince IsOfferOrNak a.indicated (run a ms).indicated
no_ack_after_bad ms a v clients many room =
    no_ack_since ms a a.indicated v clients many room SentSince.unchanged

-- A DHCPREQUEST of the host, whole in one packet, from its own address, to the masquerade or to all,
-- for no address or for the one that it is to have.
pub record IsRequest (a : Adapter) (m : Incoming) : Type 0 where
  pub whole : ntohs m.ip.tot_len ≡ 20 + 8 + 240 + m.optlen
  pub first : ntohs m.ip.frag_off % 2 ^ 13 ≡ 0
  pub ipv4 : m.eth.proto ≡ htons 0x0800
  pub protocol : m.ip.protocol ≡ 17
  pub from_host : m.eth.src ≡ a.current_address
  pub to_server : (m.eth.dest ≡ replicate 6 0xff) ⊎ (m.eth.dest ≡ a.dhcp_server_mac)
  pub server_port : m.udp.dest ≡ htons 67
  pub client_port : m.udp.source ≡ htons 68
  pub mac_bytes : m.dhcp.hlen ≡ 6
  pub client : take 6 m.dhcp.chaddr ≡ m.eth.src
  pub op : m.dhcp.op ≡ 1
  pub request : type_of m ≡ found 3
  pub mine : (m.dhcp.ciaddr ≡ 0) ⊎ (m.dhcp.ciaddr ≡ a.dhcp_addr)

IsRequest-ours :
    (a : Adapter) (m : Incoming)
    → IsRequest a m
    → dhcp_message_ours a m.eth m.ip m.udp m.dhcp ≡ true
unfolding dhcp_message_ours
IsRequest-ours a m r =
    let same : mac_equal m.eth.src a.current_address ≡ true =
      rw r.from_host (bytes_eq_refl a.current_address) in
    let own : mac_equal m.eth.src (take 6 m.dhcp.chaddr) ≡ true =
      rw r.client (bytes_eq_refl m.eth.src) in
    let dest : (is_broadcast m.eth.dest || mac_equal m.eth.dest a.dhcp_server_mac) ≡ true =
      elim r.to_server [
        | inl all ↦ rw all refl
        | inr server ↦
            let it : mac_equal m.eth.dest a.dhcp_server_mac ≡ true =
              rw server (bytes_eq_refl a.dhcp_server_mac) in
            ground (arith, it)
      ] in
    rw (same, own, dest, r.ipv4, r.protocol, r.server_port, r.client_port, r.mac_bytes) refl

IsRequest-mine : (a : Adapter) (m : Incoming) → IsRequest a m → asks_for_other a m.dhcp ≡ false
IsRequest-mine a m r = elim r.mine [
  | inl none ↦ ground (arith, none)
  | inr own ↦ ground (arith, own)
]

-- The adapter can indicate, every allocation succeeds, and the options of the reply fit.
pub record CanSend (a : Adapter) (pool : Pool) (type : ℕ) : Type 0 where
  pub ready : send_and_receive_ready a ≡ success
  pub reply : pool.reply ≡ true
  pub buffer : pool.inject_buffer ≡ true
  pub mdl : pool.inject_mdl ≡ true
  pub nbl : pool.inject_nbl ≡ true
  pub fits : (reply_options a type).overflow ≡ false

send-CanSend :
    (a : Adapter) (pool : Pool) (type : ℕ) (eth : EthHeader) (dhcp : DhcpHdr)
    → (type == dhcpoffer || type == dhcpack || type == dhcpnak) ≡ true
    → CanSend a pool type
    → send_dhcp_msg pool a type eth dhcp ≡ with_frame pool a (padded (reply_frame a type eth dhcp))
unfolding send_dhcp_msg indicate_receive_packet
send-CanSend a pool type eth dhcp known c =
    rw (known, c.reply, c.fits, c.ready, c.buffer, c.mdl, c.nbl)

process-IsRequest :
    (a : Adapter) (m : Incoming)
    → IsRequest a m
    → process_dhcp m.pool a m.eth m.ip m.udp m.dhcp m.options m.optlen ≡ (
      true,
      remember_request
          (send_dhcp_msg m.pool a (chosen_reply a m.dhcp (found dhcprequest)) m.eth m.dhcp)
          m.dhcp
          (found dhcprequest),
    )
unfolding process_dhcp
process-IsRequest a m r =
    rw
      (
        r.request,
        (==_iff _ _).1 r.whole,
        (==_iff _ _).1 r.first,
        IsRequest-ours a m r,
        (==_iff _ _).1 r.op,
      )
      refl

chosen-ack :
    (a : Adapter) (dhcp : DhcpHdr)
    → a.dhcp_received_discover ≡ true
    → a.dhcp_bad_requests < bad_dhcprequest_nak_threshold
    → asks_for_other a dhcp ≡ false
    → chosen_reply a dhcp (found dhcprequest) ≡ dhcpack
unfolding chosen_reply
chosen-ack a dhcp discovered few mine = ground arith

remember_good :
    (a : Adapter) (dhcp : DhcpHdr)
    → asks_for_other a dhcp ≡ false
    → remember_request a dhcp (found dhcprequest) ≡ a
unfolding remember_request
remember_good a dhcp mine = rw mine

-- A DHCPREQUEST is granted after a DHCPDISCOVER: if the host sends a whole request from its own
-- address, for no address or for the configured one, fewer than three bad requests were counted, the
-- adapter can indicate, every allocation succeeds and the options fit, then exactly one frame goes
-- to the host, and nothing else of the adapter changes but the count of frames in flight. In the
-- frame the host reads a DHCPACK with the number of its transaction and the configured address. The
-- user-supplied options lie in their buffer, and the addresses of the server and of the host have 6
-- bytes.
pub request_granted :
    (a : Adapter) (m : Incoming)
    → IsServer a
    → HasSource m
    → IsRequest a m
    → CanSend a m.pool dhcpack
    → a.dhcp_received_discover ≡ true
    → a.dhcp_bad_requests < 3
    → (frame : List ℕ) × (process_dhcp m.pool a m.eth m.ip m.udp m.dhcp m.options m.optlen
        ≡ (true, with_frame m.pool a frame))
      × IsTyped 5 frame
      × (slice frame 46 4 ≡ u32_bytes m.dhcp.xid)
      × (slice frame 58 4 ≡ u32_bytes a.dhcp_addr)
request_granted a m v client r c discovered few =
    let mine = IsRequest-mine a m r in
    let reads = granted-reads a dhcpack m.eth m.dhcp v.options v.mac client refl in
    (
      padded (reply_frame a dhcpack m.eth m.dhcp),
      process-IsRequest a m r
          ∙ rw
              (
                chosen-ack a m.dhcp discovered few mine,
                send-CanSend a m.pool dhcpack m.eth m.dhcp refl c,
              )
              (ap (λ (b : Adapter). (true, b)) (remember_good _ m.dhcp mine)),
      reply_frame-IsTyped a dhcpack m.eth m.dhcp v.options v.mac client refl,
      reads.0,
      reads.1,
    )
