-- ===== src/Tests/Device.antt =====
-- The theorems on the configuration of an adapter at concrete requests.
use tap_windows.Base.{◌≡◌, refl, arith, true, false, some, List, [], ◌∷◌, replicate}
use tap_windows.Adapter.{Adapter, LinkState, read_and_write_ready}
use tap_windows.Device.{Request, set_media_status, set_media_connect_status}
use tap_windows.Ndis.{NtStatus}
use tap_windows.Transmit.Read.Pended.{reads, answered}
use tap_windows.Transmit.Read.Flow.{accounted}
use tap_windows.Transmit.Read.Flush.{IsEmpty}
use tap_windows.Device.Session.{tap_device_create, tap_device_cleanup, tap_device_close}
use tap_windows.Device.Closed.{session_lem}
use tap_windows.Tests.Fixtures.{tap_adapter}

abbrev new_adapter : Adapter
new_adapter = record tap_adapter {
  dhcp_enabled = false;
  dhcp_user_supplied_options_buffer = replicate 256 0;
  dhcp_user_supplied_options_buffer_len = 0;
}

-- A lease of an hour, a domain name, and then a network for point-to-point mode.
abbrev requests : List Request
requests =
    Request.dhcp_masq
      (10 ∷ 8 ∷ 0 ∷ 2 ∷ 255 ∷ 255 ∷ 255 ∷ 0 ∷ 10 ∷ 8 ∷ 0 ∷ 254 ∷ 16 ∷ 14 ∷ 0 ∷ 0 ∷ [])
    ∷ Request.dhcp_set_opt (15 ∷ 1 ∷ b'x' ∷ [])
    ∷ Request.tun (10 ∷ 8 ∷ 0 ∷ 2 ∷ 10 ∷ 8 ∷ 0 ∷ 0 ∷ 255 ∷ 255 ∷ 255 ∷ 0 ∷ [])
    ∷ []

session_lem_example :
    let b = tap_device_cleanup tap_adapter in
    let (status, c) = tap_device_create (tap_device_close b) 2 in
    (read_and_write_ready b ≡ false)
    × (IsEmpty b.send_packet_queue × IsEmpty c.send_packet_queue)
    × (b.flow_control_list ≡ [])
    × ((b.pending_read_irp_queue.queue ≡ []) × (c.pending_read_irp_queue.queue ≡ []))
    × (reads 7 b.completed_irps ≡ answered 7 tap_adapter)
    × (accounted 3 b ≡ accounted 3 tap_adapter)
    × (status ≡ NtStatus.success)
    × (c.tap_file_object ≡ some 2)
    × (c.tun ≡ false)
    × (c.dhcp_enabled ≡ false)
    × (c.dhcp_user_supplied_options_buffer_len ≡ 0)
session_lem_example =
    session_lem tap_adapter 2 7 3 (record { count = refl; total = refl; bound = omega arith })
      (record { count = refl; bound = omega arith })

-- A second file does not get the device.
second_refused : tap_device_create tap_adapter 2 ≡ (NtStatus.unsuccessful, tap_adapter)
unfolding tap_device_create
second_refused = refl

-- The parameter 2 leaves the adapter connected, and the host is told that it is disconnected.
told_otherwise :
    let a = record tap_adapter { logical_media_state = 0 } in
    let b = (set_media_status a (2 ∷ 0 ∷ 0 ∷ 0 ∷ [])).1 in
    (read_and_write_ready b ≡ true) × (b.link_states ≡ LinkState.disconnected ∷ [])
unfolding set_media_status set_media_connect_status read_and_write_ready
told_otherwise = (refl, refl)

-- A disconnected adapter that is disconnected again reports an unknown link.
told_unknown :
    (set_media_connect_status (record tap_adapter { logical_media_state = 0 }) 0).link_states
    ≡ LinkState.unknown ∷ []
unfolding set_media_connect_status
told_unknown = refl
