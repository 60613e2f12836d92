-- ===== src/Tests/Dhcp.antt =====
-- The theorems on the DHCP masquerade at concrete packets.
use tap_windows.Base.{
  ◌≡◌, ℕ, ◌≢◌, ◌≤◌, inl, u32_bytes, List, ◌⊎◌, refl, ap, arith, true, false, [], ◌∷◌, ◌++◌, length,
  take, drop, slice,
}
use tap_windows.Adapter.{send_and_receive_ready, success}
use tap_windows.Receive.{with_frame}
use tap_windows.Dhcp.Options.{Options, set_dhcp_opt}
use tap_windows.Dhcp.Options.Append.{view, append_opt, set_dhcp_opt_lem}
use tap_windows.Dhcp.Scan.{
  get_dhcp_message_type, found, bad_read, no_fuel, dhcp_end, scan_loop, scan_round,
}
use tap_windows.Dhcp.Scan.Safety.{get_dhcp_message_type_safe}
use tap_windows.Dhcp.Scan.Grammar.{
  pad, tagged, ended, options_bytes, message_type, get_dhcp_message_type-options,
}
use tap_windows.Dhcp.Reply.{
  zero_options, reply_options, send_dhcp_msg, dhcpoffer, dhcpack, dhcprequest,
}
use tap_windows.Dhcp.Reply.Content.{grant_fits, grant_overflows, fixed_bytes, user_bytes, of_bytes}
use tap_windows.Dhcp.Reply.Read.{IsTyped}
use tap_windows.Dhcp.Process.{process_dhcp}
use tap_windows.Dhcp.Process.Server.{run, type_of, SentSince, IsServer}
use tap_windows.Dhcp.Process.History.{
  IsOfferOrNak, IsRequest, CanSend, no_ack_after_bad, request_granted,
}
use tap_windows.Tests.Fixtures.{
  tap_adapter, strict_adapter, crowded_adapter, full_pool, request, request_eth, request_dhcp,
}

request_typed : type_of request ≡ found dhcprequest
unfolding get_dhcp_message_type scan_loop scan_round
request_typed = refl

request-IsRequest : IsRequest tap_adapter request
request-IsRequest = record {
  whole = refl;
  first = refl;
  ipv4 = refl;
  protocol = refl;
  from_host = refl;
  to_server = inl refl;
  server_port = refl;
  client_port = refl;
  mac_bytes = refl;
  client = refl;
  op = refl;
  request = request_typed;
  mine = inl refl;
}

tap-IsServer : IsServer tap_adapter
tap-IsServer = record { options = (omega arith, omega arith); mac = refl }

strict-IsServer : IsServer strict_adapter
strict-IsServer = record { options = (omega arith, omega arith); mac = refl }

grant_fits_example :
    view (reply_options tap_adapter dhcpack)
    ≡ of_bytes (fixed_bytes tap_adapter dhcpack ++ (user_bytes tap_adapter ++ dhcp_end ∷ []))
grant_fits_example = grant_fits tap_adapter dhcpack (omega arith, omega arith) refl (omega arith)

ack_fits : (reply_options tap_adapter dhcpack).overflow ≡ false
unfolding reply_options
ack_fits =
    ap (λ v. v.overflow)
      (grant_fits tap_adapter dhcpack (omega arith, omega arith) refl (omega arith))

ready : send_and_receive_ready tap_adapter ≡ success
unfolding send_and_receive_ready
ready = refl

ack-CanSend : CanSend tap_adapter full_pool dhcpack
ack-CanSend = record {
  ready = ready;
  reply = refl;
  buffer = refl;
  mdl = refl;
  nbl = refl;
  fits = ack_fits;
}

request_granted_example :
    (frame : List ℕ) × (process_dhcp full_pool tap_adapter request.eth request.ip request.udp
        request.dhcp request.options request.optlen
      ≡ (true, with_frame full_pool tap_adapter frame))
    × IsTyped 5 frame
    × (slice frame 46 4 ≡ u32_bytes request.dhcp.xid)
    × (slice frame 58 4 ≡ u32_bytes tap_adapter.dhcp_addr)
request_granted_example =
    request_granted tap_adapter request tap-IsServer refl request-IsRequest ack-CanSend refl
      (omega arith)

no_ack_after_bad_example :
    SentSince IsOfferOrNak strict_adapter.indicated
      (run strict_adapter (request ∷ request ∷ [])).indicated
no_ack_after_bad_example =
    no_ack_after_bad (request ∷ request ∷ []) strict_adapter strict-IsServer (refl, (refl, tt))
      (omega arith) (omega arith)

grant_overflows_example :
    send_dhcp_msg full_pool crowded_adapter dhcpoffer request_eth request_dhcp ≡ crowded_adapter
grant_overflows_example =
    grant_overflows full_pool crowded_adapter dhcpoffer request_eth request_dhcp
      (omega arith, omega arith) refl (omega arith)

-- The option of a DHCPACK, with four bytes of other memory behind the buffer
abbrev with_more : Options
with_more = record zero_options { options = zero_options.options ++ 1 ∷ 2 ∷ 3 ∷ 4 ∷ [] }

set_dhcp_opt_lem_example :
    let n = set_dhcp_opt with_more (53 ∷ 1 ∷ 5 ∷ []) 3 in
    (n.optlen ≤ 256)
    × (view n ≡ append_opt (view with_more) (take 3 (53 ∷ 1 ∷ 5 ∷ [])))
    × ((n.overflow ≡ false) ⊎ (n.options ≡ with_more.options))
    × (length n.options ≡ length with_more.options)
    × (drop 256 n.options ≡ drop 256 with_more.options)
set_dhcp_opt_lem_example =
    set_dhcp_opt_lem with_more (53 ∷ 1 ∷ 5 ∷ []) 3 (omega arith) (omega arith) (omega arith)
      (omega arith)

get_dhcp_message_type_safe_example :
    (get_dhcp_message_type (12 ∷ 200 ∷ 0 ∷ 53 ∷ []) 4 ≢ bad_read)
    × (get_dhcp_message_type (12 ∷ 200 ∷ 0 ∷ 53 ∷ []) 4 ≢ no_fuel)
get_dhcp_message_type_safe_example = get_dhcp_message_type_safe (12 ∷ 200 ∷ 0 ∷ 53 ∷ []) 4 refl

get_dhcp_message_type-options_example :
    let os = pad ∷ tagged 12 (b'h' ∷ b'i' ∷ []) ∷ tagged 53 (3 ∷ []) ∷ [] in
    let bytes = options_bytes os (ended (0 ∷ [])) in
    get_dhcp_message_type bytes (length bytes) ≡ message_type os
get_dhcp_message_type-options_example =
    get_dhcp_message_type-options (pad ∷ tagged 12 (b'h' ∷ b'i' ∷ []) ∷ tagged 53 (3 ∷ []) ∷ [])
      (ended (0 ∷ []))
      (
        tt,
        ((
          (λ e. omega (arith, e), λ e. omega (arith, e), omega arith),
          ((λ e. omega (arith, e), λ e. omega (arith, e), omega arith), tt),
        )),
      )
