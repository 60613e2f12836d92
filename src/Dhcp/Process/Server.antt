-- ===== src/Dhcp/Process/Server.antt =====
-- The masquerade as a server: which requests it grants, over any history of packets.
use tap_windows.Base.{
  ℕ, ◌+◌, ◌^◌, ◌≤◌, ◌<◌, ◌≡◌, refl, sym, subst, length, Bool-cases, inl, inr, arith, true, false,
  ◌||◌, List, [], ◌∷◌,
}
use tap_windows.Proto.{EthHeader, IpHdr, UdpHdr, DhcpHdr}
use tap_windows.Adapter.{Adapter}
use tap_windows.Receive.{Pool, padded, with_frame, indicate_cases}
use tap_windows.Dhcp.Scan.{Found, get_dhcp_message_type}
use tap_windows.Dhcp.Reply.{dhcpdiscover, dhcprequest, reply_frame, send_dhcp_msg}
use tap_windows.Dhcp.Reply.Content.{HasUserOptions}
use tap_windows.Dhcp.Process.{is_type, chosen_reply, remember_request, process_dhcp}

-- A packet that reached ProcessDHCP.
pub record Incoming : Type 0 where
  pub pool : Pool
  pub eth : EthHeader
  pub ip : IpHdr
  pub udp : UdpHdr
  pub dhcp : DhcpHdr
  pub options : List ℕ
  pub optlen : ℕ

abbrev pub run_one : Adapter → Incoming → Adapter
run_one a m = (process_dhcp m.pool a m.eth m.ip m.udp m.dhcp m.options m.optlen).1

abbrev pub run : Adapter → List Incoming → Adapter
run a [] = a
run a (m ∷ ms) = run (run_one a m) ms

abbrev pub type_of : Incoming → Found
type_of m = get_dhcp_message_type m.options m.optlen

abbrev pub All {ℓ κ} : {A : Type ℓ} → (A → Type κ) → List A → Type κ
All P [] = Unit
All P (x ∷ xs) = P x × All P xs

-- The frames that went to the host since it had those of `old`, the latest first, are all of a kind.
pub data SentSince (Q : List ℕ → Type 0) (old : List (List ℕ)) : List (List ℕ) → Type 0 where
  unchanged : SentSince Q old old
  then_sent :
      (frames : List (List ℕ)) (frame : List ℕ)
      → SentSince Q old frames
      → Q frame
      → SentSince Q old (frame ∷ frames)

-- SendDHCPMsg adds at most one frame, of its type, and changes nothing that ProcessDHCP reads.
pub send_cases {ℓ} :
    (P : Adapter → Type ℓ) (pool : Pool) (a : Adapter) (type : ℕ) (eth : EthHeader) (dhcp : DhcpHdr)
    → P a
    → P (with_frame pool a (padded (reply_frame a type eth dhcp)))
    → P (send_dhcp_msg pool a type eth dhcp)
unfolding send_dhcp_msg
send_cases P pool a type eth dhcp kept added =
    let indicated = indicate_cases P pool a (reply_frame a type eth dhcp) kept added in
    ground (arith, indicated)

module _ (pool : Pool) (a : Adapter) (type : ℕ) (eth : EthHeader) (dhcp : DhcpHdr) where
  send-SentSince :
      (Q : List ℕ → Type 0) (old : List (List ℕ))
      → Q (padded (reply_frame a type eth dhcp))
      → SentSince Q old a.indicated
      → SentSince Q old (send_dhcp_msg pool a type eth dhcp).indicated
  send-SentSince Q old typed before =
      send_cases (λ b. SentSince Q old b.indicated) pool a type eth dhcp before
        (SentSince.then_sent a.indicated _ before typed)

  send_same :
      ((send_dhcp_msg pool a type eth dhcp).dhcp_received_discover ≡ a.dhcp_received_discover)
      × ((send_dhcp_msg pool a type eth dhcp).dhcp_bad_requests ≡ a.dhcp_bad_requests)
      × ((send_dhcp_msg pool a type eth dhcp).dhcp_addr ≡ a.dhcp_addr)
  send_same =
      send_cases
        (λ b.
          (b.dhcp_received_discover ≡ a.dhcp_received_discover)
          × (b.dhcp_bad_requests ≡ a.dhcp_bad_requests)
          × (b.dhcp_addr ≡ a.dhcp_addr))
        pool a type eth dhcp (refl, refl, refl) (refl, refl, refl)

-- A discover or a request is answered with a frame of the kind.
abbrev pub Chooses : (List ℕ → Type 0) → Adapter → Incoming → Type 0
Chooses Q a m =
    (is_type (type_of m) dhcpdiscover || is_type (type_of m) dhcprequest) ≡ true
    → Q (padded (reply_frame a (chosen_reply a m.dhcp (type_of m)) m.eth m.dhcp))

pub run_one-SentSince :
    (Q : List ℕ → Type 0) (old : List (List ℕ)) (a : Adapter) (m : Incoming)
    → Chooses Q a m
    → SentSince Q old a.indicated
    → SentSince Q old (run_one a m).indicated
unfolding process_dhcp remember_request
run_one-SentSince Q old a m c before =
    elim (Bool-cases (is_type (type_of m) dhcpdiscover || is_type (type_of m) dhcprequest)) [
      | inl asked ↦
          let sent =
            send-SentSince m.pool a (chosen_reply a m.dhcp (type_of m)) m.eth m.dhcp Q old (c asked)
              before in
          ground (arith, asked, sent, before)
      | inr other ↦ ground (arith, other, before)
    ]

-- What a reply is made from, besides the request: the user-supplied options lie in their buffer, and
-- the server has a MAC address.
pub record IsServer (a : Adapter) : Type 0 where
  pub options : HasUserOptions a
  pub mac : length a.dhcp_server_mac ≡ 6

abbrev Settings : Type 0
Settings = List ℕ × ℕ × List ℕ

abbrev settings_of : Adapter → Settings
settings_of a = (
  a.dhcp_user_supplied_options_buffer, a.dhcp_user_supplied_options_buffer_len, a.dhcp_server_mac,
)

pub run_one-IsServer : (a : Adapter) (m : Incoming) → IsServer a → IsServer (run_one a m)
unfolding process_dhcp remember_request
run_one-IsServer a m v =
    let kept =
      send_cases (λ (b : Adapter). settings_of b ≡ settings_of a) m.pool a
        (chosen_reply a m.dhcp (type_of m)) m.eth m.dhcp refl refl in
    let same : settings_of (run_one a m) ≡ settings_of a = ground (arith, kept) in
    record {
      options = subst (λ (s : Settings). (s.1 ≤ length s.0) × (s.1 ≤ 256)) (sym same) v.options;
      mac = subst (λ (s : Settings). length s.2 ≡ 6) (sym same) v.mac;
    }

-- How one packet moves the state of the server.
pub run_one-discover :
    (a : Adapter) (m : Incoming)
    → is_type (type_of m) dhcpdiscover ≡ false
    → (run_one a m).dhcp_received_discover ≡ a.dhcp_received_discover
unfolding process_dhcp remember_request
run_one-discover a m h =
    ground (arith, send_same m.pool a (chosen_reply a m.dhcp (type_of m)) m.eth m.dhcp)

pub run_one-bad :
    (a : Adapter) (m : Incoming)
    → a.dhcp_bad_requests + 1 < 2 ^ 32
    → (a.dhcp_bad_requests ≤ (run_one a m).dhcp_bad_requests)
      × ((run_one a m).dhcp_bad_requests ≤ a.dhcp_bad_requests + 1)
unfolding process_dhcp remember_request
run_one-bad a m h =
    ground (arith, send_same m.pool a (chosen_reply a m.dhcp (type_of m)) m.eth m.dhcp)
