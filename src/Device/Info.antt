-- ===== src/Device/Info.antt =====
-- The requests of TapDeviceControl in src/device.c that print: TAP_WIN_IOCTL_GET_INFO, and of the
-- debug build TAP_WIN_IOCTL_GET_LOG_LINE.
use tap_windows.Base.{ℕ, ◌+◌, Bool, List, [], ◌∷◌, if◌then◌else◌, length, u8, u32}
use tap_windows.Ndis.{NtStatus}
use tap_windows.Adapter.{Adapter, is_success, read_and_write_ready, send_and_receive_ready}
use tap_windows.DebugLog.{DebugOutput, get_debug_line}

-- `state`, less its terminator
unfoldable pub info_state : Adapter → List ℕ
info_state a =
    (if is_success (send_and_receive_ready a) then b'A' else b'a')
    ∷ (if read_and_write_ready a then b'T' else b't')
    ∷ u8 (b'0' + a.current_power_state)
    ∷ (if a.media_state_always_connected then b'C' else b'c')
    ∷ []

-- The numbers that are printed, each as its 32 bits. TapFileOpenCount, m_Rx and m_RxErr are 0: no
-- code sets them after the context was zeroed.
unfoldable pub info_numbers : ℕ → Adapter → List ℕ
info_numbers line a =
    let tx = a.tx_stats in
    line
    ∷ 0
    ∷ u32 (tx.frames_tx_directed + tx.frames_tx_multicast + tx.frames_tx_broadcast)
    ∷ u32 tx.transmit_failures_other
    ∷ 0
    ∷ 0
    ∷ a.pending_read_irp_queue.count
    ∷ a.pending_read_irp_queue.max_count
    ∷ 16
    ∷ a.send_packet_queue.count
    ∷ a.send_packet_queue.max_count
    ∷ 64
    ∷ 0
    ∷ 0
    ∷ 16
    ∷ []

-- What RtlStringCchPrintfExA makes of a buffer, given the state, the file name of the last error and
-- the numbers.
abbrev pub InfoPrintf : Type 0
InfoPrintf = List ℕ → List ℕ → List ℕ → List ℕ → List ℕ

-- TAP_WIN_IOCTL_GET_INFO, with the file name and the line of the last error: the status,
-- Information, and the buffer. It prints, and fails.
unfoldable pub get_info : InfoPrintf → List ℕ → ℕ → Adapter → List ℕ → NtStatus × ℕ × List ℕ
get_info print file line a output = (
  NtStatus.invalid_device_request,
  length output,
  print (info_state a) file (info_numbers line a) output,
)

-- TAP_WIN_IOCTL_GET_LOG_LINE with an output buffer of `len` bytes: the status, Information, the
-- buffer, and the log. `owned` is what the lock gives.
unfoldable pub get_log_line : Bool → ℕ → DebugOutput → NtStatus × ℕ × List ℕ × DebugOutput
get_log_line owned len g =
    let (found, line, rest) = get_debug_line owned len g in
    (if found then NtStatus.success else NtStatus.unsuccessful, len, line, rest)
