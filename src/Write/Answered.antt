-- ===== src/Write/Answered.antt =====
-- Every write of the application is answered for, and the count of frames in flight is true.
use tap_windows.Base.{
  ℕ, ◌+◌, ◌≡◌, refl, arith, Bool, false, List, [], ◌∷◌, Option, none, some, length, if◌then◌else◌,
  u32,
}
use tap_windows.Ndis.{Irp, NtStatus, RxNbl}
use tap_windows.Adapter.{Adapter}
use tap_windows.Receive.{Pool}
use tap_windows.Transmit.Read.Pended.{one, reads}
use tap_windows.Transmit.Vlan.{Stripped, strip_8021q}
use tap_windows.Proto.{eth_bytes}
use tap_windows.Write.{
  user_header, Answer, shared_send_packet, write_ethernet, write_ip, write_mapped, finish_write,
  tap_device_write, stripped_irp, is_pending,
}

-- How often a request is that of a list.
abbrev pub carried : ℕ → Option Irp → ℕ
carried id none = 0
carried id (some irp) = one id irp

abbrev pub flying : ℕ → List RxNbl → ℕ
flying id [] = 0
flying id (nbl ∷ nbls) = carried id nbl.rx_irp + flying id nbls

-- Completed or in flight.
abbrev pub known : ℕ → Adapter → ℕ
known id a = reads id a.completed_irps + flying id a.in_flight

-- The count of frames in flight is that of the lists, in its 32 bits.
abbrev pub IsCounted : Adapter → Type 0
IsCounted a = a.receive_nbl_in_flight_count ≡ u32 (length a.in_flight)

-- An answer either is pending and holds its request in flight, or leaves the requests alone; and
-- the count stays true.
IsSound : ℕ → Adapter → Irp → Answer → Type 0
IsSound id a irp r =
    (IsCounted a → IsCounted r.2)
    × (reads id r.2.completed_irps ≡ reads id a.completed_irps)
    × (flying id r.2.in_flight + (if is_pending r.0 then 0 else one id r.1)
        ≡ flying id a.in_flight + one id irp)

shared-IsSound :
    (pool : Pool) (a : Adapter) (irp : Irp) (p : Stripped) (prefix : List ℕ) (id : ℕ)
    → IsSound id a irp (shared_send_packet pool a irp p prefix)
unfolding shared_send_packet IsSound
shared-IsSound pool a irp p prefix id = ground arith

ethernet-IsSound :
    (pool : Pool) (a : Adapter) (irp : Irp) (id : ℕ) → IsSound id a irp (write_ethernet pool a irp)
unfolding write_ethernet IsSound
ethernet-IsSound pool a irp id =
    let p = strip_8021q irp.system_buffer in
    ground (arith, shared-IsSound pool a (stripped_irp irp) p [] id)

ip-IsSound :
    (pool : Pool) (a : Adapter) (irp : Irp) (id : ℕ) → IsSound id a irp (write_ip pool a irp)
unfolding write_ip IsSound
ip-IsSound pool a irp id =
    let p : Stripped = record { packet = irp.system_buffer; priority = 0; vlan = 0 } in
    let prefix = eth_bytes (user_header a irp.system_buffer) in
    ground (arith, shared-IsSound pool a irp p prefix id)

mapped-IsSound :
    (pool : Pool) (a : Adapter) (irp : Irp) (id : ℕ) → IsSound id a irp (write_mapped pool a irp)
unfolding write_mapped IsSound
mapped-IsSound pool a irp id =
    ground (arith, ethernet-IsSound pool a irp id, ip-IsSound pool a irp id)

-- One more request is known, this one.
Answers : ℕ → Adapter → Irp → Adapter → Type 0
Answers id a irp b = (known id b ≡ known id a + one id irp) × IsCounted b

finish-Answers :
    (a : Adapter) (irp : Irp) (r : Answer) (id : ℕ)
    → IsCounted a
    → IsSound id a irp r
    → Answers id a irp (finish_write r).1
unfolding finish_write IsSound Answers
finish-Answers a irp r id counted h = ground (arith, h, h.0 counted)

failed-Answers :
    (a : Adapter) (irp : Irp) (status : NtStatus) (id : ℕ)
    → is_pending status ≡ false
    → IsCounted a
    → Answers id a irp (finish_write (status, record irp { information = 0 }, a)).1
unfolding finish_write Answers
failed-Answers a irp status id h counted = ground (arith, h, counted)

-- TapDeviceWrite answers for its request exactly once, whether the device is ready and the buffer
-- is mapped or not, and whatever the allocators answer: afterwards the request is completed or in
-- flight to the host, and no request that was completed or in flight before is lost or completed
-- twice. The count of lists in flight, if it was true, stays so.
pub tap_device_write-answered :
    (pool : Pool) (a : Adapter) (irp : Irp) (has_mdl mapped : Bool) (id : ℕ)
    → IsCounted a
    → let b = (tap_device_write pool a irp has_mdl mapped).1 in
      (known id b ≡ known id a + one id irp) × IsCounted b
unfolding tap_device_write Answers
tap_device_write-answered pool a irp has_mdl mapped id counted =
    let asked = record irp { information = length irp.system_buffer } in
    ground (
      arith,
      finish-Answers a asked (write_mapped pool a asked) id counted
          (mapped-IsSound pool a asked id),
      failed-Answers a irp NtStatus.cancelled id refl counted,
      failed-Answers a irp NtStatus.invalid_parameter id refl counted,
      failed-Answers a irp NtStatus.insufficient_resources id refl counted,
    )
