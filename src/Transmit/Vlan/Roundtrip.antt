-- ===== src/Transmit/Vlan/Roundtrip.antt =====
-- The tag that the driver adds is the tag that it takes out.
use tap_windows.Base.{
  ℕ, ◌+◌, ◌*◌, ◌/◌, ◌%◌, ◌^◌, ◌≤◌, ◌<◌, ◌≡◌, sym, subst, arith, List, length, cells, cells_lem,
}
use tap_windows.Ndis.{Nbl}
use tap_windows.Transmit.Vlan.{tag_frame, strip_8021q, vlan_tag_size, tag_value}

strip-tag_cells :
    (unset : List ℕ) (nbl : Nbl) (frame : List ℕ)
    → nbl.user_priority < 2 ^ 3
    → nbl.vlan_id < 2 ^ 12
    → strip_8021q (tag_frame (cells 4 unset) 4 nbl (cells 14 frame))
      ≡ record { packet = cells 14 frame; priority = nbl.user_priority; vlan = nbl.vlan_id }
unfolding strip_8021q tag_frame
strip-tag_cells unset nbl frame hp hv =
    let priority : (tag_value nbl % 256 + 256 * (tag_value nbl / 256 % 256)) / 2 ^ 13
        ≡ nbl.user_priority =
      omega arith in
    let vlan : (tag_value nbl % 256 + 256 * (tag_value nbl / 256 % 256)) % 2 ^ 12 ≡ nbl.vlan_id =
      omega arith in
    rw (priority, vlan) (ground arith)

-- TapStrip8021Q takes out the tag that tapAdapterTransmit adds: from a frame with at least an
-- Ethernet header it returns the frame as it was, with the priority (3 bits) and the VLAN (12
-- bits) of the tag. There is room for the tag in front of the frame.
pub strip-tag_frame :
    (unset : List ℕ) (nbl : Nbl) (frame : List ℕ)
    → vlan_tag_size ≤ length unset
    → 14 ≤ length frame
    → nbl.user_priority < 2 ^ 3
    → nbl.vlan_id < 2 ^ 12
    → strip_8021q (tag_frame unset vlan_tag_size nbl frame)
      ≡ record { packet = frame; priority = nbl.user_priority; vlan = nbl.vlan_id }
strip-tag_frame unset nbl frame hu hf hp hv =
    subst
      (λ (u : List ℕ).
        strip_8021q (tag_frame u vlan_tag_size nbl frame)
        ≡ record { packet = frame; priority = nbl.user_priority; vlan = nbl.vlan_id })
      (sym (cells_lem 4 unset hu))
      (subst
        (λ (f : List ℕ).
          strip_8021q (tag_frame (cells 4 unset) vlan_tag_size nbl f)
          ≡ record { packet = f; priority = nbl.user_priority; vlan = nbl.vlan_id })
        (sym (cells_lem 14 frame hf)) (strip-tag_cells unset nbl frame hp hv))
