-- ===== src/History/Well.antt =====
-- What holds of an adapter at any time, and the small steps that keep it.
use tap_windows.Base.{ℕ, ◌+◌, ◌≡◌, sym, subst, Bool, true, false, List, if◌then◌else◌}
use tap_windows.Mac.{Mac}
use tap_windows.Proto.{EthHeader}
use tap_windows.Ndis.{Irp, RxNbl}
use tap_windows.Adapter.{Adapter}
use tap_windows.Adapter.Queue.{PacketQueue}
use tap_windows.Adapter.Irps.{IrpCsq}
use tap_windows.Device.Configured.{IsConfigured}
use tap_windows.Oid.Sound.{IsSupported}
use tap_windows.Transmit.Read.Pended.{reads}
use tap_windows.Write.Answered.{IsCounted, known}
use tap_windows.History.Counters.{IsTrue, IsNumbered}

-- How often a request is one of the adapter: completed, in flight to the host, or waiting for a
-- packet.
abbrev pub held : ℕ → Adapter → ℕ
held id a = known id a + reads id a.pending_read_irp_queue.queue

-- The counters are true, the adapter is well configured, its packet filter, multicast list and power
-- state are ones that it supports, and it has each request as often as `t` says.
pub record IsWell (t : ℕ → ℕ) (a : Adapter) : Type 0 where
  pub packets : IsTrue a.send_packet_queue
  pub pending : IsNumbered a.pending_read_irp_queue
  pub counted : IsCounted a
  pub configured : IsConfigured a
  pub supported : IsSupported a
  pub requests : (id : ℕ) → held id a ≡ t id

-- What two of these are about
abbrev Config : Type 0
Config = Mac × List ℕ × ℕ × Bool × EthHeader × Bool × Mac × Bool × ℕ × ℕ × ℕ × ℕ × List Mac × ℕ

abbrev pub config_of : Adapter → Config
config_of a = (
  a.current_address, a.dhcp_user_supplied_options_buffer, a.dhcp_user_supplied_options_buffer_len,
  a.tun, a.tap_to_user, a.dhcp_enabled, a.dhcp_server_mac, a.dhcp_server_arp, a.dhcp_server_ip,
  a.remote_netmask, a.remote_network, a.packet_filter, a.mc_list, a.current_power_state,
)

abbrev with_config : Adapter → Config → Adapter
with_config a c = record a {
  current_address = c.0;
  dhcp_user_supplied_options_buffer = c.1;
  dhcp_user_supplied_options_buffer_len = c.2;
  tun = c.3;
  tap_to_user = c.4;
  dhcp_enabled = c.5;
  dhcp_server_mac = c.6;
  dhcp_server_arp = c.7;
  dhcp_server_ip = c.8;
  remote_netmask = c.9;
  remote_network = c.10;
  packet_filter = c.11;
  mc_list = c.12;
  current_power_state = c.13;
}

IsConfigured-of : (a b : Adapter) → config_of b ≡ config_of a → IsConfigured a → IsConfigured b
IsConfigured-of a b e v =
    let moved : IsConfigured (with_config a (config_of b)) =
      subst (λ (c : Config). IsConfigured (with_config a c)) (sym e)
        (record {
          address = v.address;
          buffer = v.buffer;
          used = v.used;
          peer = v.peer;
          server = v.server;
          arp = v.arp;
        }) in
    record {
      address = moved.address;
      buffer = moved.buffer;
      used = moved.used;
      peer = moved.peer;
      server = moved.server;
      arp = moved.arp;
    }

IsSupported-of : (a b : Adapter) → config_of b ≡ config_of a → IsSupported a → IsSupported b
IsSupported-of a b e v =
    let moved : IsSupported (with_config a (config_of b)) =
      subst (λ (c : Config). IsSupported (with_config a c)) (sym e)
        (record {
          filter = v.filter;
          list = v.list;
          least_state = v.least_state;
          most_state = v.most_state;
        }) in
    record {
      filter = moved.filter;
      list = moved.list;
      least_state = moved.least_state;
      most_state = moved.most_state;
    }

-- An adapter with the same configuration is well if its counters are true.
pub IsWell-of :
    {t u : ℕ → ℕ}
    → (a b : Adapter) → IsWell t a
    → config_of b ≡ config_of a
    → IsTrue b.send_packet_queue
    → IsNumbered b.pending_read_irp_queue
    → IsCounted b
    → ((id : ℕ) → held id b ≡ u id)
    → IsWell u b
IsWell-of a b w e p n c h = record {
  packets = p;
  pending = n;
  counted = c;
  configured = IsConfigured-of a b e w.configured;
  supported = IsSupported-of a b e w.supported;
  requests = h;
}

-- What no request of the application changes
abbrev Rest : Type 0
Rest = PacketQueue × IrpCsq × List Irp × ℕ × List RxNbl × ℕ × List Mac × ℕ

abbrev pub rest_of : Adapter → Rest
rest_of a = (
  a.send_packet_queue, a.pending_read_irp_queue, a.completed_irps, a.receive_nbl_in_flight_count,
  a.in_flight, a.packet_filter, a.mc_list, a.current_power_state,
)

pub configured-IsWell :
    {t : ℕ → ℕ} → (a b : Adapter) → IsWell t a → rest_of b ≡ rest_of a → IsConfigured b → IsWell t b
configured-IsWell {t} a b w e c =
    let moved : IsWell t (record a {
      send_packet_queue = b.send_packet_queue;
      pending_read_irp_queue = b.pending_read_irp_queue;
      completed_irps = b.completed_irps;
      receive_nbl_in_flight_count = b.receive_nbl_in_flight_count;
      in_flight = b.in_flight;
      packet_filter = b.packet_filter;
      mc_list = b.mc_list;
      current_power_state = b.current_power_state;
    }) =
      subst
        (λ (s : Rest). IsWell t (record a {
          send_packet_queue = s.0;
          pending_read_irp_queue = s.1;
          completed_irps = s.2;
          receive_nbl_in_flight_count = s.3;
          in_flight = s.4;
          packet_filter = s.5;
          mc_list = s.6;
          current_power_state = s.7;
        }))
        (sym e) w in
    record {
      packets = moved.packets;
      pending = moved.pending;
      counted = moved.counted;
      requests = moved.requests;
      configured = c;
      supported = record {
        filter = moved.supported.filter;
        list = moved.supported.list;
        least_state = moved.supported.least_state;
        most_state = moved.supported.most_state;
      };
    }

pub if-Keeps {ℓ ℓ'} :
    {A : Type ℓ} (P : A → Type ℓ') (b : Bool) (x y : A) → P x → P y → P (if b then x else y)
if-Keeps P true x y kept other = kept
if-Keeps P false x y other kept = kept
