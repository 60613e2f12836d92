-- ===== src/Device/Session.antt =====
-- Opening and closing the device, of src/device.c: TapDeviceCreate, tapFlushIrpQueues,
-- TapDeviceCleanup, TapDeviceClose, DestroyTapDevice; the requests of TapDeviceControl that only
-- read; and the device of EnableTapDiag.
use tap_windows.Base.{
  ℕ, Bool, true, false, List, [], ◌∷◌, ◌++◌, none, some, get_elem?, leb, if◌then◌else◌, length,
  slice, u32_bytes, write_at,
}
use tap_windows.Mac.{mac_size}
use tap_windows.Ndis.{Irp, NtStatus}
use tap_windows.Adapter.{Adapter, is_open}
use tap_windows.Adapter.Irps.{irp_csq_flush, irp_csq_remove, cancelled_irp}
use tap_windows.Transmit.Read.{flush_send_packet_queue}
use tap_windows.Device.{
  reset_adapter_state, set_media_connect_status, Request, configure, media_status,
  priority_behavior,
}

-- TapDeviceCreate, by a file object: what it returns, and the adapter. Only one file has the device.
unfoldable pub tap_device_create : Adapter → ℕ → NtStatus × Adapter
tap_device_create a file = if is_open a.tap_file_object then (NtStatus.unsuccessful, a) else (
  NtStatus.success,
  record (reset_adapter_state (record a { tap_file_object = some file })) {
    tap_file_is_open = true;
  },
)

-- Requests that are completed one after the other.
abbrev pub complete_all : List Irp → List Irp → List Irp
complete_all [] done = done
complete_all (irp ∷ irps) done = complete_all irps (irp ∷ done)

-- tapFlushIrpQueues
unfoldable pub flush_irp_queues : Adapter → Adapter
flush_irp_queues a =
    let (cancelled, rest) = irp_csq_flush a.pending_read_irp_queue in
    record a {
      pending_read_irp_queue = rest;
      completed_irps = complete_all cancelled a.completed_irps;
    }

-- The application cancels the pending read at this place: the cancel-safe queue removes it
-- (tapIrpCsqRemoveIrp) and completes it (tapIrpCsqCompleteCanceledIrp).
unfoldable pub cancel_read : Adapter → ℕ → Adapter
cancel_read a i = elim (get_elem? a.pending_read_irp_queue.queue i) [
  | none ↦ a
  | some irp ↦ record a {
    pending_read_irp_queue = irp_csq_remove a.pending_read_irp_queue irp;
    completed_irps = cancelled_irp irp ∷ a.completed_irps;
  }
]

-- TapDeviceCleanup, which always succeeds
unfoldable pub tap_device_cleanup : Adapter → Adapter
tap_device_cleanup a =
    let closed = record a { tap_file_is_open = false } in
    let reset = reset_adapter_state (set_media_connect_status closed 0) in
    flush_irp_queues (flush_send_packet_queue reset)

-- TapDeviceClose, less the reference on the adapter
unfoldable pub tap_device_close : Adapter → Adapter
tap_device_close a = record a { tap_file_object = none }

-- DestroyTapDevice, less the calls that deregister the devices
unfoldable pub destroy_tap_device : Adapter → Adapter
destroy_tap_device a =
    flush_irp_queues (flush_send_packet_queue (record a { tap_device_created = false }))

-- The requests that read: the MAC address, the version (as the build gives it), the MTU.
pub data Inquiry : Type 0 where
  get_mac get_version get_mtu : Inquiry

pub record Version : Type 0 where
  pub major : ℕ
  pub minor : ℕ
  pub debug : Bool

abbrev pub inquiry_bytes : Version → Adapter → Inquiry → List ℕ
inquiry_bytes v a get_mac = slice a.current_address 0 mac_size
inquiry_bytes v a get_version =
    u32_bytes v.major ++ (u32_bytes v.minor ++ u32_bytes (if v.debug then 1 else 0))
inquiry_bytes v a get_mtu = u32_bytes a.mtu_size

abbrev pub inquiry_size : Inquiry → ℕ
inquiry_size get_mac = mac_size
inquiry_size get_version = 12
inquiry_size get_mtu = 4

-- TapDeviceControl of such a request with this output buffer: the status, Information, which is 0
-- before, and the buffer.
unfoldable pub inquire : Version → Adapter → Inquiry → List ℕ → NtStatus × ℕ × List ℕ
inquire v a q output =
    if leb (inquiry_size q) (length output)
    then (NtStatus.success, inquiry_size q, write_at output 0 (inquiry_bytes v a q))
    else (NtStatus.buffer_too_small, 0, output)

-- TapDiagDeviceControl
unfoldable pub diag_device_control : Adapter → Request → NtStatus × Adapter
diag_device_control a (media_status input) = configure a (media_status input)
diag_device_control a (priority_behavior input) = configure a (priority_behavior input)
diag_device_control a _ = (NtStatus.invalid_device_request, a)
