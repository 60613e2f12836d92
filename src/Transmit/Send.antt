-- ===== src/Transmit/Send.antt =====
-- AdapterSendNetBufferLists of src/txpath.c: the host sends lists of frames.
pub mod Conservation
use tap_windows.Base.{
  ℕ, ◌+◌, ◌*◌, Bool, true, false, not, ◌&&◌, List, [], ◌∷◌, ◌++◌, ltb, if◌then◌else◌, length,
}
use tap_windows.Proto.{eth_size}
use tap_windows.Ndis.{Nbl, NdisStatus}
use tap_windows.Adapter.{
  Adapter, is_open, is_success, send_and_receive_ready, success, invalid_length,
}
use tap_windows.Receive.{Pool}
use tap_windows.Transmit.Vlan.{vlan_tag_size}
use tap_windows.Transmit.Frame.{adapter_transmit}
use tap_windows.Transmit.Read.{
  send_net_buffer_lists_complete, process_send_packet_queue, tap_buffer_size,
}

-- What the allocators answer for one frame, and what the memory of its packet held before.
pub record Supply : Type 0 where
  pub pool : Pool
  pub unset : List ℕ

abbrev pub is_valid_length : ℕ → List ℕ → Bool
is_valid_length mtu frame =
    not (ltb (length frame) eth_size) && not (ltb (eth_size + vlan_tag_size + mtu) (length frame))

abbrev pub valid_buffers : ℕ → List (List ℕ) → Bool
valid_buffers mtu [] = true
valid_buffers mtu (b ∷ bs) = is_valid_length mtu b && valid_buffers mtu bs

-- tapNetBufferListNetBufferLengthsValid
unfoldable pub lengths_valid : ℕ → List Nbl → Bool
lengths_valid mtu [] = true
lengths_valid mtu (nbl ∷ nbls) = valid_buffers mtu nbl.net_buffers && lengths_valid mtu nbls

-- The NET_BUFFERs of one list. The allocators answer for the frames by their number in the list.
unfoldable pub transmit_buffers : (ℕ → Supply) → ℕ → Adapter → Nbl → List (List ℕ) → Adapter
transmit_buffers supply i a nbl [] = a
transmit_buffers supply i a nbl (b ∷ bs) =
    transmit_buffers supply (i + 1) (adapter_transmit (supply i).pool (supply i).unset a b nbl) nbl
      bs

unfoldable pub transmit_lists : (ℕ → Supply) → ℕ → Adapter → List Nbl → Adapter
transmit_lists supply i a [] = a
transmit_lists supply i a (nbl ∷ nbls) =
    transmit_lists supply (i + length nbl.net_buffers)
      (transmit_buffers supply i a nbl nbl.net_buffers) nbls

-- Hold the lists until the queue drains.
abbrev pub hold_nbls : Adapter → List Nbl → Adapter
hold_nbls a nbls = record a {
  flow_control_list = a.flow_control_list ++ nbls;
  flow_control_has_packets = true;
}

-- AdapterSendNetBufferLists
unfoldable pub adapter_send_net_buffer_lists : (ℕ → Supply) → Adapter → List Nbl → Adapter
adapter_send_net_buffer_lists supply a nbls =
    let status = send_and_receive_ready a in
    let b = transmit_lists supply 0 a nbls in
    let c =
      if ltb tap_buffer_size b.send_packet_queue.total_bytes
      then hold_nbls b nbls
      else send_net_buffer_lists_complete b nbls success in
    if not (is_open a.tap_file_object)
    then send_net_buffer_lists_complete a nbls success
    else if not (is_success status)
    then send_net_buffer_lists_complete a nbls status
    else if not (lengths_valid a.mtu_size nbls)
    then send_net_buffer_lists_complete a nbls invalid_length
    else process_send_packet_queue c
