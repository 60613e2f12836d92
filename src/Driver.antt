-- ===== src/Driver.antt =====
-- The driver as a whole: DriverEntry and TapDriverUnload of src/tapdrvr.c.
pub mod Resources
use tap_windows.Base.{
  ℕ, zero, suc, ◌+◌, ◌-◌, Bool, true, false, not, Option, none, some, ◌==◌, if◌then◌else◌, ltb,
}

-- What DriverEntry returns, with the other codes of RtlVerifyVersionInfo.
pub data EntryStatus : Type 0 where
  success unsupported_revision failure : EntryStatus
  verify_failed : ℕ → EntryStatus

-- The answers of RtlVerifyVersionInfo.
pub data Verified : Type 0 where
  matches revision_mismatch : Verified
  other : ℕ → Verified

-- A value of the registry: whether its type is REG_DWORD, and the number that its data begin with.
pub record RegValue : Type 0 where
  pub is_dword : Bool
  pub number : ℕ

-- RTL_OSVERSIONINFOEXW, as far as it is compared.
pub record OsInfo : Type 0 where
  pub major : ℕ
  pub minor : ℕ

-- What the system answers when the driver is loaded: its version of NDIS and those that the headers
-- name, the key of the driver with its value TapDiag, the handle of NdisMRegisterMiniportDriver if
-- it succeeds, the comparison of a version with that of the system, and whether there is memory for
-- a lock.
pub record Loader : Type 0 where
  pub ndis_version : ℕ
  pub runtime_version_620 : ℕ
  pub runtime_version_630 : ℕ
  pub tap_diag : Option (Option RegValue)
  pub register_miniport : Option ℕ
  pub verify_version_info : OsInfo → Verified
  pub has_lock : Bool

-- TAP_GLOBAL without its list of adapters: what is a pointer there is none or the handle. The last
-- four are not in it: they count the locks that the system gave and those that were freed, and the
-- registrations that it made and those that were undone.
pub record TapGlobal : Type 0 where
  pub version : ℕ
  pub enable_tap_diag : Bool
  pub ndis_driver_handle : Option ℕ
  pub lock : Bool
  pub running_windows8_or_greater : Bool
  pub locks : ℕ
  pub freed_locks : ℕ
  pub registrations : ℕ
  pub deregistrations : ℕ

-- NdisZeroMemory of the global data, when the driver is loaded.
unfoldable pub zero_global : TapGlobal
zero_global = record {
  version = 0;
  enable_tap_diag = false;
  ndis_driver_handle = none;
  lock = false;
  running_windows8_or_greater = false;
  locks = 0;
  freed_locks = 0;
  registrations = 0;
  deregistrations = 0;
}

unfoldable pub free_lock : TapGlobal → TapGlobal
free_lock g = if g.lock then record g { lock = false; freed_locks = g.freed_locks + 1 } else g

unfoldable pub deregister : TapGlobal → Option ℕ → TapGlobal
deregister g none = g
deregister g (some handle) = record g { deregistrations = g.deregistrations + 1 }

-- TapDriverUnload
unfoldable pub tap_driver_unload : TapGlobal → TapGlobal
unfolding free_lock deregister
tap_driver_unload g = deregister (free_lock g) g.ndis_driver_handle

-- The version of NDIS that the driver goes by.
unfoldable pub set_ndis_version : Loader → TapGlobal → TapGlobal
set_ndis_version sys g =
    if ltb sys.runtime_version_620 sys.ndis_version
    then record g { version = sys.runtime_version_630 }
    else record g { version = sys.ndis_version }

-- Whether there are TapDiag devices.
unfoldable pub read_tap_diag : Option (Option RegValue) → TapGlobal → TapGlobal
read_tap_diag (some (some v)) g =
    if v.is_dword then record g { enable_tap_diag = not (v.number == 0) } else g
read_tap_diag (some none) g = g
read_tap_diag none g = g

-- The version that is asked for: the second assignment to dwMajorVersion replaces the first, and
-- dwMinorVersion stays 0.
unfoldable pub os_info : OsInfo
os_info =
    let zeroed : OsInfo = record { major = 0; minor = 0 } in
    let six = record zeroed { major = 6 } in record six { major = 2 }

unfoldable pub check_os : TapGlobal → Verified → EntryStatus × TapGlobal
check_os g Verified.matches = (EntryStatus.success, record g { running_windows8_or_greater = true })
check_os g Verified.revision_mismatch =
    (EntryStatus.success, record g { running_windows8_or_greater = false })
check_os g (Verified.other code) = (EntryStatus.verify_failed code, g)

unfoldable pub allocate_lock : Loader → EntryStatus × TapGlobal → EntryStatus × TapGlobal
unfolding tap_driver_unload
allocate_lock sys (EntryStatus.success, g) =
    if sys.has_lock
    then (EntryStatus.success, record g { lock = true; locks = g.locks + 1 })
    else (EntryStatus.failure, tap_driver_unload g)
allocate_lock sys (status, g) = (status, tap_driver_unload g)

-- From NdisMRegisterMiniportDriver to the end
unfoldable pub register_driver : Loader → TapGlobal → Option ℕ → EntryStatus × TapGlobal
unfolding tap_driver_unload check_os allocate_lock os_info
register_driver sys g none = (EntryStatus.failure, tap_driver_unload g)
register_driver sys g (some handle) =
    let registered = record g {
      ndis_driver_handle = some handle;
      registrations = g.registrations + 1;
    } in
    allocate_lock sys (check_os registered (sys.verify_version_info os_info))

-- DriverEntry
unfoldable pub driver_entry : Loader → EntryStatus × TapGlobal
unfolding zero_global set_ndis_version read_tap_diag register_driver
driver_entry sys =
    if ltb sys.ndis_version sys.runtime_version_620
    then (EntryStatus.unsupported_revision, record zero_global { version = sys.ndis_version })
    else register_driver sys (read_tap_diag sys.tap_diag (set_ndis_version sys zero_global))
        sys.register_miniport
