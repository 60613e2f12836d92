-- ===== src/Transmit/Send/Conservation.antt =====
-- Every list of frames that the host sends is answered for.
use tap_windows.Base.{
  ℕ, ◌+◌, ◌≡◌, ◌∙◌, refl, ap, arith, List, [], ◌∷◌, length, false, if◌then◌else◌,
}
use tap_windows.Ndis.{Nbl, NdisStatus}
use tap_windows.Adapter.{Adapter, success, invalid_length, send_and_receive_ready}
use tap_windows.Receive.{Pool}
use tap_windows.Transmit.Vlan.{add_header_size, tag_frame}
use tap_windows.Transmit.Frame.{
  masquerade, point_to_point, push_packet, transmit_data, adapter_transmit, tap_packet_of,
}
use tap_windows.Transmit.Same.{Same}
use tap_windows.Transmit.Queued.{masquerade-Same, point_to_point-Same}
use tap_windows.Transmit.Read.{send_net_buffer_lists_complete}
use tap_windows.Transmit.Read.Flow.{
  times, times-append, accounted, complete-times, complete-flow, process-accounted,
}
use tap_windows.Transmit.Send.{
  Supply, transmit_buffers, transmit_lists, hold_nbls, adapter_send_net_buffer_lists,
}

Same-accounted : (a b : Adapter) (id : ℕ) → Same a b → accounted id b ≡ accounted id a
Same-accounted a b id s = rw (s.completed_nbls, s.flow_control_list) refl

push-accounted :
    (a : Adapter) (m : List ℕ) (id : ℕ)
    → accounted id (push_packet a (tap_packet_of a m)) ≡ accounted id a
unfolding push_packet
push-accounted a m id = ground arith

transmit_data-accounted :
    (pool : Pool) (a : Adapter) (m : List ℕ) (id : ℕ)
    → accounted id (transmit_data pool a m) ≡ accounted id a
unfolding transmit_data
transmit_data-accounted pool a m id =
    let b = (masquerade pool a m).1 in
    let c = (if b.tun then point_to_point pool b m else (false, b)).1 in
    let first = Same-accounted a b id (masquerade-Same pool a m) in
    let second = Same-accounted b (point_to_point pool b m).1 id (point_to_point-Same pool b m) in
    ground (arith, first, second, push-accounted c m id)

adapter_transmit-accounted :
    (pool : Pool) (unset : List ℕ) (a : Adapter) (frame : List ℕ) (nbl : Nbl) (id : ℕ)
    → accounted id (adapter_transmit pool unset a frame nbl) ≡ accounted id a
unfolding adapter_transmit
adapter_transmit-accounted pool unset a frame nbl id = ground (
  arith,
  transmit_data-accounted pool a (tag_frame unset (add_header_size a nbl (length frame)) nbl frame)
      id,
)

buffers-accounted :
    (supply : ℕ → Supply) (i : ℕ) (a : Adapter) (nbl : Nbl) (bs : List (List ℕ)) (id : ℕ)
    → accounted id (transmit_buffers supply i a nbl bs) ≡ accounted id a
unfolding transmit_buffers
buffers-accounted supply i a nbl [] id = refl
buffers-accounted supply i a nbl (b ∷ bs) id =
    buffers-accounted supply (i + 1) _ nbl bs id
    ∙ adapter_transmit-accounted (supply i).pool (supply i).unset a b nbl id

lists-accounted :
    (supply : ℕ → Supply) (i : ℕ) (a : Adapter) (nbls : List Nbl) (id : ℕ)
    → accounted id (transmit_lists supply i a nbls) ≡ accounted id a
unfolding transmit_lists
lists-accounted supply i a [] id = refl
lists-accounted supply i a (nbl ∷ nbls) id =
    lists-accounted supply (i + length nbl.net_buffers) _ nbls id
    ∙ buffers-accounted supply i a nbl nbl.net_buffers id

complete-accounted :
    (a : Adapter) (nbls : List Nbl) (status : NdisStatus) (id : ℕ)
    → accounted id (send_net_buffer_lists_complete a nbls status) ≡ accounted id a + times id nbls
complete-accounted a nbls status id =
    omega (arith, complete-times nbls a status id, ap (times id) (complete-flow nbls a status))

hold-accounted :
    (a : Adapter) (nbls : List Nbl) (id : ℕ)
    → accounted id (hold_nbls a nbls) ≡ accounted id a + times id nbls
hold-accounted a nbls id = omega (arith, times-append id a.flow_control_list nbls)

-- Whatever the state of the adapter and the frames, AdapterSendNetBufferLists answers for each list
-- of frames that it is given exactly once: afterwards the list has been completed to NDIS or is
-- held by flow control, and no list that was completed or held before is lost or repeated.
pub send_accounted :
    (supply : ℕ → Supply) (a : Adapter) (nbls : List Nbl) (id : ℕ)
    → accounted id (adapter_send_net_buffer_lists supply a nbls) ≡ accounted id a + times id nbls
unfolding adapter_send_net_buffer_lists
send_accounted supply a nbls id =
    let b = transmit_lists supply 0 a nbls in
    let sent = lists-accounted supply 0 a nbls id in
    ground (
      arith,
      sent,
      complete-accounted a nbls success id,
      complete-accounted a nbls (send_and_receive_ready a) id,
      complete-accounted a nbls invalid_length id,
      process-accounted (send_net_buffer_lists_complete b nbls success) id,
      process-accounted (hold_nbls b nbls) id,
      complete-accounted b nbls success id,
      hold-accounted b nbls id,
    )
