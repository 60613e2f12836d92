-- ===== src/Dhcp/Reply/Content.antt =====
-- The options of a reply: when they fit, and what a client reads in them.
use tap_windows.Base.{
  ℕ, ◌+◌, ◌≤◌, ◌<◌, ◌^◌, ◌≡◌, refl, ap, arith, true, false, ◌||◌, List, [], ◌∷◌, ◌++◌, ◌==◌, take,
  length, length-take, length-append, append_assoc, u8, u32_bytes, htonl, ◌∙◌,
}
use tap_windows.Adapter.{Adapter}
use tap_windows.Proto.{EthHeader, DhcpHdr}
use tap_windows.Receive.{Pool}
use tap_windows.Dhcp.Options.{
  Options, set_dhcp_opt, set_dhcp_opt0, set_dhcp_opt8, set_dhcp_opt32, dhcp_options_buffer_size,
}
use tap_windows.Dhcp.Options.Append.{IsMsg, View, view, append_opt, set_dhcp_opt-IsMsg}
use tap_windows.Dhcp.Scan.{dhcp_msg_type, dhcp_end}
use tap_windows.Dhcp.Reply.{
  dhcpoffer, dhcpack, dhcpnak, dhcp_netmask_tag, dhcp_lease_time_tag, dhcp_server_id_tag,
  zero_options, reply_options, send_dhcp_msg,
}

-- The option bytes that a reply should carry.
abbrev pub tlv32 : ℕ → ℕ → List ℕ
tlv32 tag value = tag ∷ 4 ∷ u32_bytes value

-- The buffer of the user-supplied options holds as many bytes as its length says.
abbrev pub HasUserOptions : Adapter → Type 0
HasUserOptions a =
    (a.dhcp_user_supplied_options_buffer_len ≤ length a.dhcp_user_supplied_options_buffer)
    × (a.dhcp_user_supplied_options_buffer_len ≤ 256)

zero-IsMsg : IsMsg zero_options
zero-IsMsg = record { size = refl; within = omega arith }

-- One more option, after options of which the view is known.
abbrev pub Adds : Options → View → Type 0
Adds m v = IsMsg m × (view m ≡ v)

set :
    (m : Options) (v : View) (bs : List ℕ) (len : ℕ)
    → Adds m v
    → len ≤ length bs
    → len < 2 ^ 31
    → Adds (set_dhcp_opt m bs len) (append_opt v (take len bs))
set m v bs len (valid, e) h k =
    let (valid', e') = set_dhcp_opt-IsMsg m bs len valid h k in
    (valid', e' ∙ ap (λ (w : View). append_opt w (take len bs)) e)

set8 :
    (m : Options) (v : View) (tag value : ℕ)
    → Adds m v
    → Adds (set_dhcp_opt8 m tag value) (append_opt v (u8 tag ∷ 1 ∷ u8 value ∷ []))
unfolding set_dhcp_opt8
set8 m v tag value h = set m v (u8 tag ∷ 1 ∷ u8 value ∷ []) 3 h (omega arith) (omega arith)

set32 :
    (m : Options) (v : View) (tag value : ℕ)
    → Adds m v
    → Adds (set_dhcp_opt32 m tag value) (append_opt v (tlv32 (u8 tag) value))
unfolding set_dhcp_opt32
set32 m v tag value h = set m v (tlv32 (u8 tag) value) 6 h (omega arith) (omega arith)

set0 :
    (m : Options) (v : View) (tag : ℕ)
    → Adds m v
    → Adds (set_dhcp_opt0 m tag) (append_opt v (u8 tag ∷ []))
unfolding set_dhcp_opt0
set0 m v tag h = set m v (u8 tag ∷ []) 1 h (omega arith) (omega arith)

-- The fixed options of an offer or an acknowledgement, and the bytes of a refusal.
abbrev pub fixed_bytes : Adapter → ℕ → List ℕ
fixed_bytes a type =
    dhcp_msg_type
    ∷ 1
    ∷ u8 type
    ∷ (tlv32 dhcp_server_id_tag a.dhcp_server_ip
        ++ (tlv32 dhcp_lease_time_tag (htonl a.dhcp_lease_time)
            ++ tlv32 dhcp_netmask_tag a.dhcp_netmask))

abbrev pub user_bytes : Adapter → List ℕ
user_bytes a = take a.dhcp_user_supplied_options_buffer_len a.dhcp_user_supplied_options_buffer

abbrev pub of_bytes : List ℕ → View
of_bytes bs = record { bytes = bs; overflow = false }

module _ (a : Adapter) (type : ℕ) where
  head_options : Options
  head_options =
      set_dhcp_opt32 (set_dhcp_opt8 zero_options dhcp_msg_type type) dhcp_server_id_tag
        a.dhcp_server_ip

  head-Adds :
      Adds head_options
        (of_bytes (dhcp_msg_type ∷ 1 ∷ u8 type ∷ tlv32 dhcp_server_id_tag a.dhcp_server_ip))
  unfolding head_options
  head-Adds =
      set32 _ _ dhcp_server_id_tag a.dhcp_server_ip
        (set8 zero_options (of_bytes []) dhcp_msg_type type (zero-IsMsg, refl))

  fixed_options : Options
  fixed_options =
      set_dhcp_opt32 (set_dhcp_opt32 head_options dhcp_lease_time_tag (htonl a.dhcp_lease_time))
        dhcp_netmask_tag a.dhcp_netmask

  fixed-Adds : Adds fixed_options (of_bytes (fixed_bytes a type))
  unfolding fixed_options
  fixed-Adds =
      set32 _ _ dhcp_netmask_tag a.dhcp_netmask
        (set32 head_options _ dhcp_lease_time_tag (htonl a.dhcp_lease_time) head-Adds)

-- A refusal carries its message type, the server's address and the end octet.
pub nak-Adds :
    (a : Adapter)
    → Adds (reply_options a dhcpnak) (
        of_bytes (
          dhcp_msg_type
          ∷ 1
          ∷ dhcpnak
          ∷ (tlv32 dhcp_server_id_tag a.dhcp_server_ip ++ dhcp_end ∷ [])))
unfolding reply_options head_options
nak-Adds a = set0 _ _ dhcp_end (head-Adds a dhcpnak)

abbrev pub grant_view : Adapter → ℕ → View
grant_view a type =
    append_opt (append_opt (of_bytes (fixed_bytes a type)) (user_bytes a)) (dhcp_end ∷ [])

pub grant-Adds :
    (a : Adapter) (type : ℕ)
    → HasUserOptions a
    → (type == dhcpoffer || type == dhcpack) ≡ true
    → Adds (reply_options a type) (grant_view a type)
unfolding reply_options head_options fixed_options
grant-Adds a type h e = rw e (
    set0 _ _ dhcp_end (
      set (fixed_options a type) _ a.dhcp_user_supplied_options_buffer
        a.dhcp_user_supplied_options_buffer_len (fixed-Adds a type) h.0 (omega arith)))

length-user :
    (a : Adapter)
    → HasUserOptions a
    → length (user_bytes a) ≡ a.dhcp_user_supplied_options_buffer_len
length-user a h =
    omega (
      arith,
      length-take a.dhcp_user_supplied_options_buffer_len a.dhcp_user_supplied_options_buffer,
    )

two_appends_fit :
    (bs us : List ℕ) (e : ℕ)
    → length bs + length us < dhcp_options_buffer_size
    → append_opt (append_opt (of_bytes bs) us) (e ∷ []) ≡ of_bytes (bs ++ (us ++ e ∷ []))
two_appends_fit bs us e h = ground (arith, length-append {0} bs us, append_assoc bs us (e ∷ []))

two_appends_overflow :
    (bs us : List ℕ) (e : ℕ)
    → dhcp_options_buffer_size ≤ length bs + length us
    → (append_opt (append_opt (of_bytes bs) us) (e ∷ [])).overflow ≡ true
two_appends_overflow bs us e h = ground (arith, length-append {0} bs us)

-- With at most 234 bytes of user-supplied options, which lie in their buffer, the options of an
-- offer or an acknowledgement are the fixed ones, those, and the end octet, and nothing overflows.
pub grant_fits :
    (a : Adapter) (type : ℕ)
    → HasUserOptions a
    → (type == dhcpoffer || type == dhcpack) ≡ true
    → a.dhcp_user_supplied_options_buffer_len ≤ 234
    → view (reply_options a type) ≡ of_bytes (fixed_bytes a type ++ (user_bytes a ++ dhcp_end ∷ []))
grant_fits a type h e few =
    (grant-Adds a type h e).1
    ∙ two_appends_fit (fixed_bytes a type) (user_bytes a) dhcp_end (omega (arith, length-user a h))

-- With more than 234 bytes of user-supplied options, of the 256 that the adapter may hold, the
-- options of every offer and every acknowledgement overflow, so that none is sent: SendDHCPMsg
-- leaves the adapter as it was.
pub grant_overflows :
    (pool : Pool) (a : Adapter) (type : ℕ) (eth : EthHeader) (dhcp : DhcpHdr)
    → HasUserOptions a
    → (type == dhcpoffer || type == dhcpack) ≡ true
    → 234 < a.dhcp_user_supplied_options_buffer_len
    → send_dhcp_msg pool a type eth dhcp ≡ a
unfolding send_dhcp_msg
grant_overflows pool a type eth dhcp h e many =
    let overflow : (reply_options a type).overflow ≡ true =
      ap (λ (v : View). v.overflow) (grant-Adds a type h e).1
      ∙ two_appends_overflow (fixed_bytes a type) (user_bytes a) dhcp_end
          (omega (arith, length-user a h)) in
    ground (arith, overflow)
