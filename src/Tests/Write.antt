-- ===== src/Tests/Write.antt =====
-- The theorems on the writes of the application at concrete requests.
use tap_windows.Base.{
  ℕ, ◌+◌, ◌≤◌, ◌≡◌, refl, arith, true, some, List, [], ◌∷◌, ◌++◌, length, replicate, drop,
}
use tap_windows.Proto.{eth_at}
use tap_windows.Ndis.{Irp, RxNbl}
use tap_windows.Adapter.{Adapter, read_and_write_ready, send_and_receive_ready}
use tap_windows.Receive.{padded}
use tap_windows.Frames.{raw_frame_type}
use tap_windows.Transmit.Read.Pended.{one, reads}
use tap_windows.Transmit.Vlan.{tag_frame}
use tap_windows.Write.{
  tap_device_write, host_returns, pick_all, pick, return_net_buffer_lists, complete_receive_nbl,
  passes_filter,
}
use tap_windows.Write.Answered.{known, IsCounted, tap_device_write-answered}
use tap_windows.Write.Returned.{host_returns_each, host_returns-all}
use tap_windows.Write.Delivered.{Supplies, IsUp, HeaderFor, write-tun, write-tag_frame}
use tap_windows.Lifecycle.{Pc, Steps}
use tap_windows.Lifecycle.Refine.{view, data_path_refines}
use tap_windows.Tests.Fixtures.{tap_adapter, tun_adapter, host_mac, peer_mac, full_pool, irp, nbl}

-- A frame of 60 bytes to the adapter.
abbrev frame : List ℕ
frame = host_mac ++ (peer_mac ++ (8 ∷ 0 ∷ replicate 46 7))

abbrev write_of : List ℕ → Irp
write_of bytes = record (irp 9) { system_buffer = bytes }

full-Supplies : Supplies full_pool
full-Supplies = record { inject_buffer = refl; inject_mdl = refl; inject_nbl = refl }

tap-IsUp : IsUp tap_adapter
unfolding read_and_write_ready send_and_receive_ready
tap-IsUp = record { device = refl; adapter = refl }

tun-IsUp : IsUp tun_adapter
unfolding read_and_write_ready send_and_receive_ready
tun-IsUp = record { device = refl; adapter = refl }

tap_device_write-answered_example :
    let b = (tap_device_write full_pool tap_adapter (write_of frame) true true).1 in
    (known 9 b ≡ known 9 tap_adapter + one 9 (write_of frame)) × IsCounted b
tap_device_write-answered_example =
    tap_device_write-answered full_pool tap_adapter (write_of frame) true true 9 refl

-- The adapter with that frame in flight
abbrev busy_adapter : Adapter
busy_adapter = record tap_adapter {
  receive_nbl_in_flight_count = 1;
  in_flight =
      record {
        rx_frame = frame;
        rx_priority = 0;
        rx_vlan = 0;
        rx_irp = some (write_of frame);
        rx_in_place = true;
      }
      ∷ [];
}

-- A call that returns nothing, and one that returns the list
abbrev calls : List (List ℕ)
calls = [] ∷ (0 ∷ []) ∷ []

all_back : (host_returns_each busy_adapter calls).in_flight ≡ []
unfolding host_returns pick_all pick return_net_buffer_lists complete_receive_nbl
all_back = refl

host_returns-all_example :
    let b = host_returns_each busy_adapter calls in
    (b.receive_nbl_in_flight_count ≡ 0)
    × (reads 9 b.completed_irps ≡ known 9 busy_adapter)
    × (b.receive_nbl_zero_event ≡ true)
host_returns-all_example = host_returns-all busy_adapter calls 9 refl (omega arith) all_back

data_path_refines_example :
    let b = (tap_device_write full_pool busy_adapter (write_of frame) true true).1 in
    let c = host_returns busy_adapter (replicate {A = ℕ} 1 0) in
    Steps (view Pc.waiting 1 busy_adapter) (view Pc.waiting (length b.in_flight) b)
    × Steps (view Pc.waiting 1 busy_adapter) (view Pc.waiting (length c.in_flight) c)
data_path_refines_example =
    data_path_refines Pc.waiting full_pool busy_adapter (write_of frame) true true
      (replicate {A = ℕ} 1 0) (omega arith)

-- An IPv6 packet of 24 bytes
abbrev packet6 : List ℕ
packet6 = 0x60 ∷ replicate 23 1

write-tun_example :
    (sent : List ℕ) × ((tap_device_write full_pool tun_adapter
        (write_of packet6)
        true
        true).1.indicated
      ≡ sent ∷ tun_adapter.indicated)
    × (60 ≤ length sent)
    × (eth_at sent 0 ≡ tun_adapter.user_to_tap_ipv6)
    × (drop 14 sent ≡ packet6 ++ replicate {A = ℕ} 22 0)
write-tun_example =
    write-tun full_pool tun_adapter (write_of packet6) tun_adapter.user_to_tap_ipv6 full-Supplies
      tun-IsUp refl refl (omega arith) (omega arith) (HeaderFor.ipv6 (omega arith) (omega arith))
      (refl, omega arith) (refl, omega arith) (omega arith)

-- The frame as the application reads it, with a tag
abbrev tagged : List ℕ
tagged = host_mac ++ (peer_mac ++ (0x81 ∷ 0 ∷ 0x64 ∷ 0xa0 ∷ 8 ∷ 0 ∷ replicate 46 7))

tag_of_frame : tagged ≡ tag_frame (replicate 4 0) 4 (nbl 3) frame
unfolding tag_frame
tag_of_frame = refl

frame_passes : passes_filter tap_adapter frame ≡ true
unfolding passes_filter raw_frame_type
frame_passes = refl

write-tag_frame_example :
    (sent : RxNbl) × ((tap_device_write full_pool tap_adapter
        (write_of tagged)
        true
        true).1.in_flight
      ≡ sent ∷ tap_adapter.in_flight)
    × (sent.rx_frame ≡ padded frame)
    × (sent.rx_priority ≡ 5)
    × (sent.rx_vlan ≡ 100)
write-tag_frame_example =
    write-tag_frame full_pool tap_adapter (write_of tagged) (replicate 4 0) (nbl 3) frame
      full-Supplies tap-IsUp refl frame_passes (omega arith) (omega arith) (omega arith)
      (omega arith) (omega arith) tag_of_frame
