-- ===== src/Lifecycle/Refine.antt =====
-- The writes of the application and the returns of their lists are made of the steps that
-- AdapterPause is proved against.
use tap_windows.Base.{
  ℕ, suc, ◌+◌, ◌-◌, ◌^◌, ◌<◌, ◌≡◌, refl, sym, subst, arith, Bool, true, false, List, [], ◌∷◌, ◌++◌,
  length, Bool-cases, inl, inr, ◌==◌, if◌then◌else◌,
}
use tap_windows.Ndis.{Irp, NtStatus, RxNbl}
use tap_windows.Adapter.{Adapter, is_success, state_status, send_and_receive_ready}
use tap_windows.Receive.{Pool, padded, with_nbl}
use tap_windows.Transmit.Vlan.{Stripped, strip_8021q}
use tap_windows.Proto.{eth_bytes}
use tap_windows.Write.{
  Answer, shared_send_packet, write_ethernet, write_ip, write_mapped, finish_write,
  tap_device_write, stripped_irp, is_pending, user_header, complete_receive_nbl,
  return_net_buffer_lists, pick_all, host_returns,
}
use tap_windows.Write.Delivered.{sent_nbl}
use tap_windows.Write.Returned.{pick_all-length, return-in_flight}
use tap_windows.Lifecycle.{Pc, Miniport, down, Drains, Arrives, Steps, done, drain, arrive}

-- What the steps see of an adapter, where the host or the driver has `n` lists. No thread is in the
-- middle of a step.
abbrev pub view : Pc → ℕ → Adapter → Miniport
view pc n a = record {
  pc = pc;
  state = a.adapter_state;
  count = a.receive_nbl_in_flight_count;
  event = a.receive_nbl_zero_event;
  lists = n;
  checked = 0;
  setting = 0;
}

Steps-trans : (m n o : Miniport) → Steps m n → Steps n o → Steps m o
Steps-trans m n _ before (done _) = before
Steps-trans m n o before (drain _ p _ steps step) =
    Steps.drain m p o (Steps-trans m n p before steps) step
Steps-trans m n o before (arrive _ p _ steps step) =
    Steps.arrive m p o (Steps-trans m n p before steps) step

-- Where the adapter can be reached by steps.
Reaches : Pc → Adapter → Adapter → Type 0
Reaches pc a b = Steps (view pc (length a.in_flight) a) (view pc (length b.in_flight) b)

ready-state :
    (a : Adapter)
    → is_success (send_and_receive_ready a) ≡ true
    → is_success (state_status a.adapter_state) ≡ true
unfolding send_and_receive_ready
ready-state a h = ground (arith, h)

with_nbl-Reaches :
    (pc : Pc) (a : Adapter) (nbl : RxNbl)
    → is_success (send_and_receive_ready a) ≡ true
    → length a.in_flight < 2 ^ 31 - 1
    → Reaches pc a (with_nbl a nbl)
unfolding Reaches
with_nbl-Reaches pc a nbl up few =
    let m = view pc (length a.in_flight) a in
    Steps.arrive m (record m { checked = 1 }) _
      (Steps.arrive m m _ (Steps.done m) (Arrives.check m (ready-state a up)))
      (Arrives.indicate (record m { checked = 1 }) 0 refl few)

nothing-Reaches : (pc : Pc) (a : Adapter) → Reaches pc a a
unfolding Reaches
nothing-Reaches pc a = Steps.done _

shared-Reaches :
    (pc : Pc) (pool : Pool) (a : Adapter) (irp : Irp) (p : Stripped) (prefix : List ℕ)
    → is_success (send_and_receive_ready a) ≡ true
    → length a.in_flight < 2 ^ 31 - 1
    → Reaches pc a (shared_send_packet pool a irp p prefix).2
unfolding shared_send_packet
shared-Reaches pc pool a irp p prefix up few = ground (
  arith,
  nothing-Reaches pc a,
  with_nbl-Reaches pc a (sent_nbl pool irp p (padded (prefix ++ p.packet))) up few,
  with_nbl-Reaches pc a (sent_nbl pool irp p (prefix ++ p.packet)) up few,
)

ethernet-Reaches :
    (pc : Pc) (pool : Pool) (a : Adapter) (irp : Irp)
    → is_success (send_and_receive_ready a) ≡ true
    → length a.in_flight < 2 ^ 31 - 1
    → Reaches pc a (write_ethernet pool a irp).2
unfolding write_ethernet
ethernet-Reaches pc pool a irp up few =
    let p = strip_8021q irp.system_buffer in
    ground (arith, nothing-Reaches pc a, shared-Reaches pc pool a (stripped_irp irp) p [] up few)

ip-Reaches :
    (pc : Pc) (pool : Pool) (a : Adapter) (irp : Irp)
    → is_success (send_and_receive_ready a) ≡ true
    → length a.in_flight < 2 ^ 31 - 1
    → Reaches pc a (write_ip pool a irp).2
unfolding write_ip
ip-Reaches pc pool a irp up few =
    let p : Stripped = record { packet = irp.system_buffer; priority = 0; vlan = 0 } in
    let prefix = eth_bytes (user_header a irp.system_buffer) in
    ground (arith, nothing-Reaches pc a, shared-Reaches pc pool a irp p prefix up few)

mapped-Reaches :
    (pc : Pc) (pool : Pool) (a : Adapter) (irp : Irp)
    → length a.in_flight < 2 ^ 31 - 1
    → Reaches pc a (write_mapped pool a irp).2
unfolding write_mapped
mapped-Reaches pc pool a irp few = elim (Bool-cases (is_success (send_and_receive_ready a))) [
  | inl up ↦ ground (
    arith,
    up,
    nothing-Reaches pc a,
    ethernet-Reaches pc pool a irp up few,
    ip-Reaches pc pool a irp up few,
  )
  | inr silent ↦ ground (arith, silent, nothing-Reaches pc a)
]

finish-Reaches :
    (pc : Pc) (a : Adapter) (r : Answer) → Reaches pc a r.2 → Reaches pc a (finish_write r).1
unfolding finish_write Reaches
finish-Reaches pc a r h = elim (Bool-cases (is_pending r.0)) [
  | inl pending ↦ rw pending h
  | inr other ↦ rw other h
]

write-Reaches :
    (pc : Pc) (pool : Pool) (a : Adapter) (irp : Irp) (has_mdl mapped : Bool)
    → length a.in_flight < 2 ^ 31 - 1
    → Reaches pc a (tap_device_write pool a irp has_mdl mapped).1
unfolding tap_device_write
write-Reaches pc pool a irp has_mdl mapped few =
    let asked = record irp { information = length irp.system_buffer } in
    let failed : (status : NtStatus)
        → Reaches pc a (finish_write (status, record irp { information = 0 }, a)).1 =
      λ status.
        finish-Reaches pc a (status, record irp { information = 0 }, a) (nothing-Reaches pc a) in
    ground (
      arith,
      failed NtStatus.cancelled,
      failed NtStatus.invalid_parameter,
      failed NtStatus.insufficient_resources,
      finish-Reaches pc a (write_mapped pool a asked) (mapped-Reaches pc pool a asked few),
    )

event-Steps :
    (m b : Miniport) (spent : Bool)
    → Steps m (record b { setting = if spent then 1 else 0 })
    → Steps m (record b { setting = 0; event = if spent then true else b.event })
event-Steps m b true before =
    Steps.drain m (record b { setting = 1 }) _ before
      (Drains.set_event (record b { setting = 1 }) 0 refl)
event-Steps m b false before = before

-- A list that comes back is one step, and one more if its thread sets the event.
complete-Steps :
    (pc : Pc) (a : Adapter) (nbl : RxNbl) (k n : ℕ)
    → k ≡ suc n
    → Steps (view pc k a) (view pc n (complete_receive_nbl a nbl))
unfolding complete_receive_nbl
complete-Steps pc a nbl k n e =
    let m = view pc k a in
    let back = Steps.drain m m _ (Steps.done m) (Drains.take_back m n e) in
    let b = record m { lists = n; count = down a.receive_nbl_in_flight_count } in
    event-Steps m b (down a.receive_nbl_in_flight_count == 0) back

return-Steps :
    (pc : Pc) (nbls : List RxNbl) (a : Adapter) (k n : ℕ)
    → k ≡ length nbls + n
    → Steps (view pc k a) (view pc n (return_net_buffer_lists a nbls))
unfolding return_net_buffer_lists
return-Steps pc [] a k n e =
    subst (λ (j : ℕ). Steps (view pc k a) (view pc j a)) (omega (arith, e)) (Steps.done _)
return-Steps pc (nbl ∷ nbls) a k n e =
    let b = complete_receive_nbl a nbl in
    Steps-trans _ (view pc (length nbls + n) b) _
      (complete-Steps pc a nbl k (length nbls + n) (omega (arith, e)))
      (return-Steps pc nbls b (length nbls + n) n refl)

host_returns-Reaches :
    (pc : Pc) (a : Adapter) (places : List ℕ) → Reaches pc a (host_returns a places)
unfolding host_returns Reaches
host_returns-Reaches pc a places =
    let (chosen, left) = pick_all places a.in_flight in
    let b = record a { in_flight = left } in
    subst
      (λ (l : List RxNbl).
        Steps (view pc (length a.in_flight) a)
          (view pc (length l) (return_net_buffer_lists b chosen)))
      (sym (return-in_flight b chosen))
      (return-Steps pc chosen b (length a.in_flight) (length left)
        (sym (pick_all-length places a.in_flight)))

-- TapDeviceWrite, whatever the request, and AdapterReturnNetBufferLists, whichever lists the host
-- returns, change the state of the miniport, the count of lists in flight, the event and the lists
-- of the host as a run of the steps does that AdapterPause is proved against, wherever AdapterPause
-- is. Fewer than 2 ^ 31 - 1 lists are in flight.
pub data_path_refines :
    (pc : Pc) (pool : Pool) (a : Adapter) (irp : Irp) (has_mdl mapped : Bool) (places : List ℕ)
    → length a.in_flight < 2 ^ 31 - 1
    → let b = (tap_device_write pool a irp has_mdl mapped).1 in
      let c = host_returns a places in
      Steps (view pc (length a.in_flight) a) (view pc (length b.in_flight) b)
      × Steps (view pc (length a.in_flight) a) (view pc (length c.in_flight) c)
unfolding Reaches
data_path_refines pc pool a irp has_mdl mapped places few =
    (write-Reaches pc pool a irp has_mdl mapped few, host_returns-Reaches pc a places)
