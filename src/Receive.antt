-- ===== src/Receive.antt =====
-- IndicateReceivePacket of src/rxpath.c: frames that the driver makes and hands to the host.
use tap_windows.Base.{
  ℕ, none, ◌+◌, ◌-◌, Bool, not, ◌&&◌, List, ◌∷◌, ◌++◌, if◌then◌else◌, length, replicate, u32, arith,
}
use tap_windows.Ndis.{RxNbl}
use tap_windows.Adapter.{Adapter, send_and_receive_ready, is_success}

-- What the allocators of NDIS answer while one packet is handled: MemAlloc of the reply, and the
-- buffer, the MDL and the NBL of a received frame, the TAP packet and NdisGetDataBuffer, for the
-- whole frame and for its header.
pub record Pool : Type 0 where
  pub reply : Bool
  pub inject_buffer : Bool
  pub inject_mdl : Bool
  pub inject_nbl : Bool
  pub tap_packet : Bool
  pub data_buffer : Bool
  pub header_in_place : Bool

abbrev pub tap_min_frame_size : ℕ
tap_min_frame_size = 60

-- The flat buffer of a frame: its bytes, and zeros up to the least frame size.
abbrev pub padded : List ℕ → List ℕ
padded packet = packet ++ replicate (tap_min_frame_size - length packet) 0

-- The adapter after one more list went to the host.
abbrev pub with_nbl : Adapter → RxNbl → Adapter
with_nbl a nbl = record a {
  receive_nbl_in_flight_count = u32 (a.receive_nbl_in_flight_count + 1);
  indicated = nbl.rx_frame ∷ a.indicated;
  in_flight = nbl ∷ a.in_flight;
}

-- The list of a frame that the driver made.
abbrev pub injected_nbl : Pool → List ℕ → RxNbl
injected_nbl pool frame = record {
  rx_frame = frame;
  rx_priority = 0;
  rx_vlan = 0;
  rx_irp = none;
  rx_in_place = pool.header_in_place;
}

abbrev pub with_frame : Pool → Adapter → List ℕ → Adapter
with_frame pool a frame = with_nbl a (injected_nbl pool frame)

-- IndicateReceivePacket
unfoldable pub indicate_receive_packet : Pool → Adapter → List ℕ → Adapter
indicate_receive_packet pool a packet =
    if not (is_success (send_and_receive_ready a))
    then a
    else if pool.inject_buffer && pool.inject_mdl && pool.inject_nbl
    then with_frame pool a (padded packet)
    else a

-- To prove something of the adapter after IndicateReceivePacket, prove it where the frame was
-- indicated and where it was not.
pub indicate_cases {ℓ} :
    (P : Adapter → Type ℓ) (pool : Pool) (a : Adapter) (packet : List ℕ)
    → P a
    → P (with_frame pool a (padded packet))
    → P (indicate_receive_packet pool a packet)
unfolding indicate_receive_packet
indicate_cases P pool a packet kept added = ground arith
