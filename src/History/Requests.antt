-- ===== src/History/Requests.antt =====
-- The requests of the application and of NDIS that configure the adapter, and those that open, close
-- and stop it, keep it well.
use tap_windows.Base.{ℕ, ◌≡◌, refl, sym, subst, arith, true, false, some}
use tap_windows.Ndis.{NtStatus}
use tap_windows.Adapter.{Adapter, AdapterState, is_open}
use tap_windows.Device.{
  Request, is_halted, configure, config_tun, config_point_to_point, config_dhcp_masq,
  config_dhcp_set_opt, set_priority_behavior, set_media_status, set_media_connect_status,
  reset_adapter_state, enter_tun, check_if_dhcp_and_tun_mode,
}
use tap_windows.Device.Session.{
  tap_device_create, tap_device_cleanup, tap_device_close, destroy_tap_device,
}
use tap_windows.Device.Configured.{configure-IsConfigured}
use tap_windows.Oid.{
  OidRequest, Oid, RequestType, set_oid, set_information_of, set_multicast_list, set_lookahead,
  set_packet_filter, set_current_filter, set_power_state,
}
use tap_windows.Oid.Query.{System}
use tap_windows.Oid.Handler.{adapter_oid_request, oid_request_of}
use tap_windows.Oid.Sound.{IsSupported, adapter_oid_request_sound}
use tap_windows.History.Well.{IsWell, IsWell-of, if-Keeps, rest_of, configured-IsWell}
use tap_windows.History.Reads.{flush-IsWell}
use tap_windows.History.Cancelled.{flush_irps-IsWell}

configure-rest : (a : Adapter) (r : Request) → rest_of (configure a r).1 ≡ rest_of a
unfolding configure config_tun config_point_to_point config_dhcp_masq config_dhcp_set_opt
    set_priority_behavior set_media_status set_media_connect_status reset_adapter_state enter_tun
    check_if_dhcp_and_tun_mode
configure-rest a (Request.tun input) = ground arith
configure-rest a (Request.point_to_point input) = ground arith
configure-rest a (Request.dhcp_masq input) = ground arith
configure-rest a (Request.dhcp_set_opt input) = ground arith
configure-rest a (Request.priority_behavior input) = ground arith
configure-rest a (Request.media_status input) = ground arith
configure-rest a Request.unrecognized = refl
configure-rest a Request.reset = refl

tuned : Adapter → Adapter → Adapter
tuned a b = record a {
  mc_list = b.mc_list;
  packet_filter = b.packet_filter;
  lookahead = b.lookahead;
  current_power_state = b.current_power_state;
}

set_oid-tuned :
    (a : Adapter) (r : OidRequest) (o : Oid) → (set_oid a r o).2 ≡ tuned a (set_oid a r o).2
unfolding set_oid set_multicast_list set_lookahead set_current_filter set_packet_filter
    set_power_state tuned
set_oid-tuned a r Oid.multicast_list = ground arith
set_oid-tuned a r Oid.current_lookahead = ground arith
set_oid-tuned a r Oid.current_packet_filter = ground arith
set_oid-tuned a r Oid.set_power = ground arith
set_oid-tuned a r _ = refl

oid_of-tuned :
    (system : System) (a : Adapter) (r : OidRequest) (t : RequestType)
    → (oid_request_of system a r t).2 ≡ tuned a (oid_request_of system a r t).2
unfolding oid_request_of set_information_of tuned
oid_of-tuned system a r RequestType.set_information = set_oid-tuned a r r.oid
oid_of-tuned system a r _ = refl

module _ {t : ℕ → ℕ} where
  pub configure-IsWell : (a : Adapter) (r : Request) → IsWell t a → IsWell t (configure a r).1
  configure-IsWell a r w =
      configured-IsWell a (configure a r).1 w (configure-rest a r)
        (configure-IsConfigured a r w.configured)

  reset-IsWell : (a : Adapter) → IsWell t a → IsWell t (reset_adapter_state a)
  unfolding configure
  reset-IsWell a w = configure-IsWell a Request.reset w

  media-IsWell : (a : Adapter) (n : ℕ) → IsWell t a → IsWell t (set_media_connect_status a n)
  unfolding set_media_connect_status
  media-IsWell a n w =
      if-Keeps (IsWell t) (is_halted a.adapter_state) _ _
        (IsWell-of a _ w refl w.packets w.pending w.counted w.requests)
        (IsWell-of a _ w refl w.packets w.pending w.counted w.requests)

  pub open-IsWell : (a : Adapter) (file : ℕ) → IsWell t a → IsWell t (tap_device_create a file).1
  unfolding tap_device_create
  open-IsWell a file w =
      let b = record a { tap_file_object = some file } in
      let c = reset_adapter_state b in
      let v = reset-IsWell b (IsWell-of a b w refl w.packets w.pending w.counted w.requests) in
      if-Keeps (λ (o : NtStatus × Adapter). IsWell t o.1) (is_open a.tap_file_object) _ _ w
        (IsWell-of c (record c { tap_file_is_open = true }) v refl v.packets v.pending v.counted
          v.requests)

  pub cleanup-IsWell : (a : Adapter) → IsWell t a → IsWell t (tap_device_cleanup a)
  unfolding tap_device_cleanup
  cleanup-IsWell a w =
      let b = record a { tap_file_is_open = false } in
      let v = IsWell-of a b w refl w.packets w.pending w.counted w.requests in
      flush_irps-IsWell _ (flush-IsWell _ (reset-IsWell _ (media-IsWell b 0 v)))

  pub close-IsWell : (a : Adapter) → IsWell t a → IsWell t (tap_device_close a)
  unfolding tap_device_close
  close-IsWell a w = IsWell-of a _ w refl w.packets w.pending w.counted w.requests

  pub destroy-IsWell : (a : Adapter) → IsWell t a → IsWell t (destroy_tap_device a)
  unfolding destroy_tap_device
  destroy-IsWell a w =
      let b = record a { tap_device_created = false } in
      flush_irps-IsWell _
        (flush-IsWell b (IsWell-of a b w refl w.packets w.pending w.counted w.requests))

  -- An adapter with its state, which the rest does not depend on
  pub state-IsWell :
      (a : Adapter) (s : AdapterState) → IsWell t a → IsWell t (record a { adapter_state = s })
  state-IsWell a s w = IsWell-of a _ w refl w.packets w.pending w.counted w.requests

  tuned-IsWell : (a b : Adapter) → IsWell t a → IsSupported b → IsWell t (tuned a b)
  unfolding tuned
  tuned-IsWell a b w s = record {
    packets = w.packets;
    pending = w.pending;
    counted = w.counted;
    requests = w.requests;
    configured = record {
      address = w.configured.address;
      buffer = w.configured.buffer;
      used = w.configured.used;
      peer = w.configured.peer;
      server = w.configured.server;
      arp = w.configured.arp;
    };
    supported = record {
      filter = s.filter;
      list = s.list;
      least_state = s.least_state;
      most_state = s.most_state;
    };
  }

  pub oid-IsWell :
      (system : System) (a : Adapter) (r : OidRequest)
      → IsWell t a
      → IsWell t (adapter_oid_request system a r).2
  unfolding adapter_oid_request
  oid-IsWell system a r w =
      let b = (oid_request_of system a r r.request_type).2 in
      let sound = adapter_oid_request_sound system a r w.supported in
      subst (IsWell t) (sym (oid_of-tuned system a r r.request_type)) (tuned-IsWell a b w sound.0)
