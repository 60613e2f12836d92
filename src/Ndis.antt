-- ===== src/Ndis.antt =====
-- The objects that the system hands to the driver, as far as it reads or sets their members:
-- requests (IRP) and lists of frames (NET_BUFFER_LIST).
use tap_windows.Base.{ℕ, List, Bool, Option}

-- The NTSTATUS and NDIS_STATUS values that the driver returns.
pub data NdisStatus : Type 0 where
  success media_disconnected low_power_state reset_in_progress status_paused : NdisStatus
  invalid_state invalid_length multicast_full not_supported invalid_data buffer_too_short :
      NdisStatus

pub data NtStatus : Type 0 where
  success pending cancelled invalid_parameter insufficient_resources : NtStatus
  buffer_overflow buffer_too_small unsuccessful device_does_not_exist : NtStatus
  invalid_device_request : NtStatus

-- An IRP for a read or a write: who it is, the file object of its stack location, its IoStatus
-- block, and the memory of its system buffer.
pub record Irp : Type 0 where
  pub irp_id : ℕ
  pub file_object : ℕ
  pub status : NtStatus
  pub information : ℕ
  pub system_buffer : List ℕ

-- A NET_BUFFER_LIST that is sent: who it is, the frames of its NET_BUFFERs, the priority and the
-- VLAN of its 802.1Q information, its status, and whether NdisGetDataBuffer reaches the Ethernet
-- header of its first NET_BUFFER in place.
pub record Nbl : Type 0 where
  pub nbl_id : ℕ
  pub net_buffers : List (List ℕ)
  pub user_priority : ℕ
  pub vlan_id : ℕ
  pub nbl_status : NdisStatus
  pub header_in_place : Bool

-- A NET_BUFFER_LIST that was indicated: its frame, the priority and the VLAN of its 802.1Q
-- information, the write request in MiniportReserved[0], and whether NdisGetDataBuffer reaches its
-- Ethernet header in place.
pub record RxNbl : Type 0 where
  pub rx_frame : List ℕ
  pub rx_priority : ℕ
  pub rx_vlan : ℕ
  pub rx_irp : Option Irp
  pub rx_in_place : Bool
