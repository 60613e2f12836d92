-- ===== src/History/Lists.antt =====
-- The lists of frames that the host sends, over any history.
use tap_windows.Base.{
  ℕ, ◌+◌, ◌≡◌, ◌∙◌, refl, ap, arith, Bool, false, List, [], ◌∷◌, get_elem?, length, Option-cases,
  inl, inr,
}
use tap_windows.Ndis.{Irp, Nbl, NtStatus, RxNbl}
use tap_windows.Adapter.{Adapter, success, halted}
use tap_windows.Adapter.Irps.{irp_csq_insert}
use tap_windows.Receive.{Pool}
use tap_windows.Transmit.Read.{
  tap_device_read, flush_send_packet_queue, complete_flow_control_packets,
}
use tap_windows.Transmit.Read.Flow.{
  accounted, times, process-accounted, complete-times, complete-flow,
}
use tap_windows.Transmit.Send.Conservation.{send_accounted}
use tap_windows.Transmit.Vlan.{Stripped, strip_8021q}
use tap_windows.Proto.{eth_bytes}
use tap_windows.Write.{
  Answer, shared_send_packet, write_ethernet, write_ip, write_mapped, finish_write, stripped_irp,
  user_header, tap_device_write, complete_receive_nbl, return_net_buffer_lists, pick_all,
  host_returns,
}
use tap_windows.Device.{
  Request, configure, config_tun, config_point_to_point, config_dhcp_masq, config_dhcp_set_opt,
  set_priority_behavior, set_media_status, set_media_connect_status, reset_adapter_state, enter_tun,
  check_if_dhcp_and_tun_mode,
}
use tap_windows.Device.Session.{
  tap_device_create, cancel_read, flush_irp_queues, tap_device_cleanup, tap_device_close,
  destroy_tap_device, diag_device_control,
}
use tap_windows.Oid.{
  OidRequest, Oid, RequestType, set_oid, set_information_of, set_multicast_list, set_lookahead,
  set_packet_filter, set_current_filter, set_power_state,
}
use tap_windows.Oid.Query.{System}
use tap_windows.Oid.Handler.{adapter_oid_request, oid_request_of}
use tap_windows.Lifecycle.{
  adapter_restart, adapter_reset, adapter_shutdown, adapter_halt, begin_pause,
}
use tap_windows.History.{Operation, perform, run}

-- The lists that were completed and those that are held
abbrev books : Adapter → List Nbl × List Nbl
books a = (a.completed_nbls, a.flow_control_list)

shared-books :
    (pool : Pool) (a : Adapter) (irp : Irp) (p : Stripped) (prefix : List ℕ)
    → books (shared_send_packet pool a irp p prefix).2 ≡ books a
unfolding shared_send_packet
shared-books pool a irp p prefix = ground arith

mapped-books : (pool : Pool) (a : Adapter) (irp : Irp) → books (write_mapped pool a irp).2 ≡ books a
unfolding write_mapped write_ethernet write_ip
mapped-books pool a irp =
    let packet = irp.system_buffer in
    let p = strip_8021q packet in
    let ip : Stripped = record { packet = packet; priority = 0; vlan = 0 } in
    ground (
      arith,
      shared-books pool a (stripped_irp irp) p [],
      shared-books pool a irp ip (eth_bytes (user_header a packet)),
    )

finish-books : (r : Answer) → books (finish_write r).1 ≡ books r.2
unfolding finish_write
finish-books r = ground arith

write-books :
    (pool : Pool) (a : Adapter) (irp : Irp) (has_mdl mapped : Bool)
    → books (tap_device_write pool a irp has_mdl mapped).1 ≡ books a
unfolding tap_device_write
write-books pool a irp has_mdl mapped =
    let failed = record irp { information = 0 } in
    let asked = record irp { information = length irp.system_buffer } in
    ground (
      arith,
      finish-books (NtStatus.cancelled, failed, a),
      finish-books (NtStatus.invalid_parameter, failed, a),
      finish-books (NtStatus.insufficient_resources, failed, a),
      finish-books (write_mapped pool a asked) ∙ mapped-books pool a asked,
    )

return-books : (nbls : List RxNbl) (a : Adapter) → books (return_net_buffer_lists a nbls) ≡ books a
unfolding return_net_buffer_lists complete_receive_nbl
return-books [] a = refl
return-books (nbl ∷ nbls) a = return-books nbls (complete_receive_nbl a nbl)

pub returns-books : (a : Adapter) (places : List ℕ) → books (host_returns a places) ≡ books a
unfolding host_returns
returns-books a places = return-books (pick_all places a.in_flight).0 _

cancel-books : (a : Adapter) (i : ℕ) → books (cancel_read a i) ≡ books a
unfolding cancel_read
cancel-books a i = elim (Option-cases (get_elem? a.pending_read_irp_queue.queue i)) [
  | inl none_there ↦ rw (cancel_read, none_there) refl
  | inr (irp, e) ↦ rw (cancel_read, e) refl
]

configure-books : (a : Adapter) (r : Request) → books (configure a r).1 ≡ books a
unfolding configure config_tun config_point_to_point config_dhcp_masq config_dhcp_set_opt
    set_priority_behavior set_media_status set_media_connect_status reset_adapter_state enter_tun
    check_if_dhcp_and_tun_mode
configure-books a (Request.tun input) = ground arith
configure-books a (Request.point_to_point input) = ground arith
configure-books a (Request.dhcp_masq input) = ground arith
configure-books a (Request.dhcp_set_opt input) = ground arith
configure-books a (Request.priority_behavior input) = ground arith
configure-books a (Request.media_status input) = ground arith
configure-books a Request.unrecognized = refl
configure-books a Request.reset = refl

diag-books : (a : Adapter) (r : Request) → books (diag_device_control a r).1 ≡ books a
unfolding diag_device_control
diag-books a (Request.media_status input) = configure-books a (Request.media_status input)
diag-books a (Request.priority_behavior input) = configure-books a (Request.priority_behavior input)
diag-books a _ = refl

set-books : (a : Adapter) (r : OidRequest) (o : Oid) → books (set_oid a r o).2 ≡ books a
unfolding set_oid set_multicast_list set_lookahead set_current_filter set_packet_filter
    set_power_state
set-books a r Oid.multicast_list = ground arith
set-books a r Oid.current_lookahead = ground arith
set-books a r Oid.current_packet_filter = ground arith
set-books a r Oid.set_power = ground arith
set-books a r _ = refl

oid-books :
    (system : System) (a : Adapter) (r : OidRequest) (t : RequestType)
    → books (oid_request_of system a r t).2 ≡ books a
unfolding oid_request_of set_information_of
oid-books system a r RequestType.set_information = set-books a r r.oid
oid-books system a r _ = refl

flush-books :
    (a : Adapter) (id : ℕ)
    → (times id (flush_send_packet_queue a).completed_nbls ≡ accounted id a)
      × ((flush_send_packet_queue a).flow_control_list ≡ [])
unfolding flush_send_packet_queue complete_flow_control_packets
flush-books a id =
    (complete-times a.flow_control_list _ success id, complete-flow a.flow_control_list _ success)

-- TapDeviceCleanup completes the lists that are held.
pub cleanup-books :
    (a : Adapter) (id : ℕ)
    → (times id (tap_device_cleanup a).completed_nbls ≡ accounted id a)
      × ((tap_device_cleanup a).flow_control_list ≡ [])
unfolding tap_device_cleanup flush_irp_queues reset_adapter_state set_media_connect_status
cleanup-books a id =
    let closed = record a { tap_file_is_open = false } in
    let b = reset_adapter_state (set_media_connect_status closed 0) in
    let kept : books b ≡ books a = ground arith in
    let flushed = flush-books b id in
    (flushed.0 ∙ ap (λ (l : List Nbl × List Nbl). times id l.0 + times id l.1) kept, flushed.1)

destroy-accounted : (a : Adapter) (id : ℕ) → accounted id (destroy_tap_device a) ≡ accounted id a
unfolding destroy_tap_device flush_irp_queues
destroy-accounted a id =
    let (completed, held) = flush-books (record a { tap_device_created = false }) id in
    omega (arith, completed, ap (times id) held)

-- How often an operation brings a list of this number, and how often a history does.
abbrev brings : Operation → ℕ → ℕ
brings (Operation.send supply nbls) id = times id nbls
brings _ id = 0

abbrev pub sent : List Operation → ℕ → ℕ
sent [] id = 0
sent (op ∷ ops) id = brings op id + sent ops id

-- Where no list was completed or held
unmoved : (id : ℕ) (a b : Adapter) → books b ≡ books a → accounted id b ≡ accounted id a + 0
unmoved id a b e = omega (arith, ap (λ (l : List Nbl × List Nbl). times id l.0 + times id l.1) e)

read-accounted :
    (a : Adapter) (irp : Irp) (len : ℕ) (has_mdl mapped : Bool) (id : ℕ)
    → accounted id (tap_device_read a irp len has_mdl mapped).1 ≡ accounted id a
unfolding tap_device_read
read-accounted a irp len has_mdl mapped id =
    let asked = record irp { information = len; status = NtStatus.pending } in
    let b = record a { pending_read_irp_queue = irp_csq_insert a.pending_read_irp_queue asked } in
    ground (arith, process-accounted b id)

perform-accounted :
    (op : Operation) (a : Adapter) (id : ℕ)
    → accounted id (perform a op) ≡ accounted id a + brings op id
unfolding perform tap_device_create tap_device_close adapter_oid_request adapter_restart
    adapter_reset adapter_shutdown adapter_halt begin_pause reset_adapter_state
perform-accounted (Operation.send supply nbls) a id = send_accounted supply a nbls id
perform-accounted (Operation.give_back places) a id =
    unmoved id a (perform a (Operation.give_back places)) (returns-books a places)
perform-accounted (Operation.read irp len has_mdl mapped) a id =
    omega (arith, read-accounted a irp len has_mdl mapped id)
perform-accounted (Operation.write pool irp has_mdl mapped) a id =
    unmoved id a (perform a (Operation.write pool irp has_mdl mapped))
      (write-books pool a irp has_mdl mapped)
perform-accounted (Operation.cancel i) a id =
    unmoved id a (perform a (Operation.cancel i)) (cancel-books a i)
perform-accounted (Operation.control r) a id =
    unmoved id a (perform a (Operation.control r)) (configure-books a r)
perform-accounted (Operation.diag r) a id =
    unmoved id a (perform a (Operation.diag r)) (diag-books a r)
perform-accounted (Operation.query_or_set system r) a id =
    unmoved id a (perform a (Operation.query_or_set system r)) (oid-books system a r r.request_type)
perform-accounted (Operation.create_file file) a id = ground arith
perform-accounted Operation.cleanup_file a id =
    let (completed, held) = cleanup-books a id in omega (arith, completed, ap (times id) held)
perform-accounted Operation.close_file a id = unmoved id a (perform a Operation.close_file) refl
perform-accounted Operation.restart a id = unmoved id a (perform a Operation.restart) refl
perform-accounted Operation.pause a id = unmoved id a (perform a Operation.pause) refl
perform-accounted Operation.paused a id = unmoved id a (perform a Operation.paused) refl
perform-accounted Operation.reset a id = unmoved id a (perform a Operation.reset) refl
perform-accounted Operation.halt a id =
    omega (arith, destroy-accounted (record a { adapter_state = halted }) id)
perform-accounted (Operation.shut_down bug_check) a id = ground arith

pub run-accounted :
    (ops : List Operation) (a : Adapter) (id : ℕ)
    → accounted id (run a ops) ≡ accounted id a + sent ops id
unfolding run
run-accounted [] a id = omega arith
run-accounted (op ∷ ops) a id =
    omega (arith, run-accounted ops (perform a op) id, perform-accounted op a id)
