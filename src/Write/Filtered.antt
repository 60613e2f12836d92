-- ===== src/Write/Filtered.antt =====
-- The packet filter: which frames a write brings to the host.
use tap_windows.Base.{ℕ, ◌+◌, ◌≡◌, ◌⊎◌, Bool, true, not, List, ◌∷◌, bit_and, ◌==◌}
use tap_windows.Mac.{Mac}
use tap_windows.Ndis.{RxNbl}
use tap_windows.Adapter.{Adapter}
use tap_windows.Dhcp.Reply.{is_broadcast}
use tap_windows.Frames.{
  dest_of, is_multicast, in_multicast_list, type_directed, type_multicast, type_all_multicast,
  type_broadcast,
}

-- The filter has a bit of `mask`.
abbrev pub lets : ℕ → Adapter → Bool
lets mask a = not (bit_and mask a.packet_filter == 0)

-- What a filter that is not promiscuous lets through.
pub data Allowed (a : Adapter) (frame : List ℕ) : Type 0 where
  to_all : is_broadcast (dest_of frame) ≡ true → lets type_broadcast a ≡ true → Allowed a frame
  to_group :
      is_multicast (dest_of frame) ≡ true → lets type_all_multicast a ≡ true → Allowed a frame
  to_listed_group :
      is_multicast (dest_of frame) ≡ true
      → in_multicast_list (dest_of frame) a.mc_list ≡ true
      → lets (type_multicast + type_all_multicast) a ≡ true
      → Allowed a frame
  to_adapter : dest_of frame ≡ a.current_address → lets type_directed a ≡ true → Allowed a frame

-- No list more is in flight, or one whose frame the filter lets through.
Kept : Adapter → List RxNbl → Type 0
Kept a nbls =
    (nbls ≡ a.in_flight) ⊎ ((sent : RxNbl) × (nbls ≡ sent ∷ a.in_flight) × Allowed a sent.rx_frame)
