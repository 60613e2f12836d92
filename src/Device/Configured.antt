-- ===== src/Device/Configured.antt =====
-- What holds of an adapter however it was configured.
use tap_windows.Base.{
  ℕ, ◌+◌, ◌-◌, ◌^◌, ◌≤◌, ◌<◌, ◌≡◌, ◌∙◌, ◌⊎◌, inl, inr, refl, arith, Bool, true, false, ◌&&◌, List,
  [], ◌∷◌, leb, ◌==◌, length, bit_and, u32_at, length-write_at, Bool-cases,
}
use tap_windows.Mac.{Mac, IsMac, generate_related_mac}
use tap_windows.Mac.Generate.{generate_related_mac_distinct}
use tap_windows.Adapter.{Adapter}
use tap_windows.Device.{
  reset_adapter_state, check_if_dhcp_and_tun_mode, enter_tun, config_tun, config_point_to_point,
  config_dhcp_masq, config_dhcp_set_opt, set_priority_behavior, set_media_status,
  set_media_connect_status, Request, configure, configure_all,
}

-- Both ARP responders are on, and the remote network encloses the address of the DHCP server.
abbrev pub has_two_servers : Adapter → Bool
has_two_servers a =
    a.tun
    && a.dhcp_enabled
    && a.dhcp_server_arp
    && bit_and a.dhcp_server_ip a.remote_netmask == a.remote_network

-- The options buffer has its 256 bytes, of which no more are used; the addresses of the peer and of
-- the DHCP server are addresses while they are in use; and the ARP responders of the two modes
-- do not both answer for the DHCP server.
pub record IsConfigured (a : Adapter) : Type 0 where
  pub address : IsMac a.current_address
  pub buffer : length a.dhcp_user_supplied_options_buffer ≡ 256
  pub used : a.dhcp_user_supplied_options_buffer_len ≤ 256
  pub peer : (a.tun ≡ false) ⊎ IsMac a.tap_to_user.dest
  pub server : (a.dhcp_enabled ≡ false) ⊎ IsMac a.dhcp_server_mac
  pub arp : has_two_servers a ≡ false

related-IsMac : (m : Mac) (d : ℕ) → d < 255 → IsMac m → IsMac (generate_related_mac m d)
related-IsMac m d h v =
    (generate_related_mac_distinct m d (d + 1) v (omega arith) (omega arith)
      (λ e. omega (arith, e))).0

encloses-peer :
    (a : Adapter) (b : Bool)
    → (a.tun && a.dhcp_enabled && b) ≡ true
    → (a.tun ≡ false) ⊎ IsMac a.tap_to_user.dest
    → IsMac a.tap_to_user.dest
encloses-peer a b both peer = ground (arith, both)

check-IsConfigured :
    (a : Adapter)
    → IsMac a.current_address
    → length a.dhcp_user_supplied_options_buffer ≡ 256
    → a.dhcp_user_supplied_options_buffer_len ≤ 256
    → (a.tun ≡ false) ⊎ IsMac a.tap_to_user.dest
    → (a.dhcp_enabled ≡ false) ⊎ IsMac a.dhcp_server_mac
    → IsConfigured (check_if_dhcp_and_tun_mode a)
unfolding check_if_dhcp_and_tun_mode
check-IsConfigured a ha hb hu hp hs =
    let encloses = bit_and a.dhcp_server_ip a.remote_netmask == a.remote_network in
    elim (Bool-cases (a.tun && a.dhcp_enabled && encloses)) [
      | inl both ↦ rw both (record {
        address = ha;
        buffer = hb;
        used = hu;
        peer = hp;
        server = inr (encloses-peer a encloses both hp);
        arp = ground arith;
      })
      | inr one ↦ rw one (record {
        address = ha;
        buffer = hb;
        used = hu;
        peer = hp;
        server = hs;
        arp = ground (arith, one);
      })
    ]

enter_tun-IsConfigured :
    (a : Adapter)
    → IsMac a.current_address
    → length a.dhcp_user_supplied_options_buffer ≡ 256
    → a.dhcp_user_supplied_options_buffer_len ≤ 256
    → (a.dhcp_enabled ≡ false) ⊎ IsMac a.dhcp_server_mac
    → IsConfigured (enter_tun a)
unfolding enter_tun
enter_tun-IsConfigured a ha hb hu hs =
    check-IsConfigured _ ha hb hu (inr (related-IsMac a.current_address 1 (omega arith) ha)) hs

tun-IsConfigured :
    (a : Adapter) (input : List ℕ) → IsConfigured a → IsConfigured (config_tun a input).1
unfolding config_tun
tun-IsConfigured a input v =
    let b : Adapter = record a {
      tun = false;
      local_ip = u32_at input 0;
      remote_network = u32_at input 4;
      remote_netmask = u32_at input 8;
    } in
    let left : IsConfigured b = record {
      address = v.address;
      buffer = v.buffer;
      used = v.used;
      peer = inl refl;
      server = v.server;
      arp = refl;
    } in
    let entered = enter_tun-IsConfigured b v.address v.buffer v.used v.server in
    ground (arith, v, left, entered)

point_to_point-IsConfigured :
    (a : Adapter) (input : List ℕ) → IsConfigured a → IsConfigured (config_point_to_point a input).1
unfolding config_point_to_point
point_to_point-IsConfigured a input v =
    let b : Adapter = record a {
      tun = false;
      local_ip = u32_at input 0;
      remote_network = u32_at input 4;
      remote_netmask = 2 ^ 32 - 1;
    } in
    let entered = enter_tun-IsConfigured b v.address v.buffer v.used v.server in
    ground (arith, v, entered)

dhcp_masq-IsConfigured :
    (a : Adapter) (input : List ℕ) → IsConfigured a → IsConfigured (config_dhcp_masq a input).1
unfolding config_dhcp_masq
dhcp_masq-IsConfigured a input v = elim (Bool-cases (leb 16 (length input))) [
  | inl long ↦ rw long (
      check-IsConfigured _ v.address v.buffer (omega arith) v.peer
        (inr (related-IsMac a.current_address 2 (omega arith) v.address)))
  | inr short ↦ rw short v
]

dhcp_set_opt-IsConfigured :
    (a : Adapter) (input : List ℕ) → IsConfigured a → IsConfigured (config_dhcp_set_opt a input).1
unfolding config_dhcp_set_opt
dhcp_set_opt-IsConfigured a input v = elim (Bool-cases (leb (length input) 256 && a.dhcp_enabled)) [
  | inl ok ↦ rw ok (record {
    address = v.address;
    buffer = length-write_at a.dhcp_user_supplied_options_buffer 0 input ∙ v.buffer;
    used = ground (arith, ok);
    peer = v.peer;
    server = v.server;
    arp = v.arp;
  })
  | inr refused ↦ rw refused v
]

priority-IsConfigured :
    (a : Adapter) (input : List ℕ) → IsConfigured a → IsConfigured (set_priority_behavior a input).1
unfolding set_priority_behavior
priority-IsConfigured a input v =
    let changed : IsConfigured (record a { priority_behavior = u32_at input 0 }) = record {
      address = v.address;
      buffer = v.buffer;
      used = v.used;
      peer = v.peer;
      server = v.server;
      arp = v.arp;
    } in
    ground (arith, v, changed)

reset-IsConfigured : (a : Adapter) → IsConfigured a → IsConfigured (reset_adapter_state a)
unfolding reset_adapter_state
reset-IsConfigured a v = record {
  address = v.address;
  buffer = v.buffer;
  used = omega arith;
  peer = inl refl;
  server = inl refl;
  arp = refl;
}

media-IsConfigured :
    (a : Adapter) (input : List ℕ) → IsConfigured a → IsConfigured (set_media_status a input).1
unfolding set_media_status set_media_connect_status
media-IsConfigured a input v = record {
  address = ground (arith, v);
  buffer = ground (arith, v);
  used = ground (arith, v);
  peer = ground (arith, v);
  server = ground (arith, v);
  arp = ground (arith, v);
}

pub configure-IsConfigured :
    (a : Adapter) (r : Request) → IsConfigured a → IsConfigured (configure a r).1
unfolding configure
configure-IsConfigured a (Request.tun input) v = tun-IsConfigured a input v
configure-IsConfigured a (Request.point_to_point input) v = point_to_point-IsConfigured a input v
configure-IsConfigured a (Request.dhcp_masq input) v = dhcp_masq-IsConfigured a input v
configure-IsConfigured a (Request.dhcp_set_opt input) v = dhcp_set_opt-IsConfigured a input v
configure-IsConfigured a (Request.priority_behavior input) v = priority-IsConfigured a input v
configure-IsConfigured a (Request.media_status input) v = media-IsConfigured a input v
configure-IsConfigured a Request.unrecognized v = v
configure-IsConfigured a Request.reset v = reset-IsConfigured a v

-- Over any history of configuring requests, refused ones and resets among them, the adapter stays
-- well configured: the user-supplied options lie within their 256 bytes, the peer of
-- point-to-point mode and the DHCP server have MAC addresses while these modes are on, and the
-- two modes never both answer ARP requests for the DHCP server.
pub configure_all-IsConfigured :
    (rs : List Request) (a : Adapter) → IsConfigured a → IsConfigured (configure_all a rs)
unfolding configure_all
configure_all-IsConfigured [] a v = v
configure_all-IsConfigured (r ∷ rs) a v =
    configure_all-IsConfigured rs (configure a r).1 (configure-IsConfigured a r v)
