-- ===== src/Driver/Resources.antt =====
-- What the driver holds of the system after DriverEntry of src/tapdrvr.c and after TapDriverUnload.
use tap_windows.Base.{
  ℕ, ◌≤◌, ◌∙◌, ◌+◌, ◌≡◌, if◌then◌else◌, ◌&&◌, ◌==◌, leb, inl, inr, refl, arith, true, false, Option,
  none, some, ltb, Bool-cases,
}
use tap_windows.Driver.{
  EntryStatus, Verified, Loader, TapGlobal, RegValue, OsInfo, zero_global, tap_driver_unload,
  set_ndis_version, read_tap_diag, check_os, allocate_lock, register_driver, driver_entry, os_info,
}

-- The driver holds nothing of the system: each lock was freed and each registration undone, exactly
-- once.
pub record IsFree (g : TapGlobal) : Type 0 where
  pub no_locks : g.freed_locks ≡ g.locks
  pub no_registrations : g.deregistrations ≡ g.registrations

-- Nothing was asked of the system, and nothing was given back.
record IsUntouched (g : TapGlobal) : Type 0 where
  no_locks : g.locks ≡ 0
  none_freed : g.freed_locks ≡ 0
  no_registrations : g.registrations ≡ 0
  none_undone : g.deregistrations ≡ 0

-- Nothing was asked of the system yet.
record IsFresh (g : TapGlobal) : Type 0 where
  no_handle : g.ndis_driver_handle ≡ none
  no_lock : g.lock ≡ false
  free : IsUntouched g

-- The driver holds its registration and the lock, and the global data say so.
pub record IsLoaded (g : TapGlobal) (handle : ℕ) : Type 0 where
  pub handle_kept : g.ndis_driver_handle ≡ some handle
  pub lock_kept : g.lock ≡ true
  pub one_lock : g.locks ≡ 1
  pub not_freed : g.freed_locks ≡ 0
  pub one_registration : g.registrations ≡ 1
  pub not_undone : g.deregistrations ≡ 0

-- What DriverEntry leaves behind: with success the registration that NDIS gave and a lock, both of
-- which TapDriverUnload gives back, and with any error nothing.
unfoldable pub Leaves : Loader → EntryStatus × TapGlobal → Type 0
Leaves sys (EntryStatus.success, g) =
    (handle : ℕ) × (sys.register_miniport ≡ some handle)
    × IsLoaded g handle
    × IsFree (tap_driver_unload g)
Leaves sys (_, g) = IsFree g

diag-IsFresh :
    (v : Option (Option RegValue)) (g : TapGlobal) → IsFresh g → IsFresh (read_tap_diag v g)
unfolding read_tap_diag
diag-IsFresh none g f = f
diag-IsFresh (some none) g f = f
diag-IsFresh (some (some v)) g f = record {
  no_handle = ground arith;
  no_lock = ground arith;
  free = ground arith;
}

version-IsFresh : (sys : Loader) (g : TapGlobal) → IsFresh g → IsFresh (set_ndis_version sys g)
unfolding set_ndis_version
version-IsFresh sys g f = record {
  no_handle = ground arith;
  no_lock = ground arith;
  free = ground arith;
}

unload-IsFree :
    (g : TapGlobal)
    → g.locks ≡ (if g.lock then 1 else 0)
    → g.freed_locks ≡ 0
    → g.registrations ≡ 1
    → g.deregistrations ≡ 0
    → (handle : ℕ) → g.ndis_driver_handle ≡ some handle
    → IsFree (tap_driver_unload g)
unfolding tap_driver_unload
unload-IsFree g locks not_freed one not_undone handle e = record {
  no_locks = ground arith;
  no_registrations = ground arith;
}

unload_fresh-IsFree : (g : TapGlobal) → IsFresh g → IsFree (tap_driver_unload g)
unfolding tap_driver_unload
unload_fresh-IsFree g f = record { no_locks = ground arith; no_registrations = ground arith }

allocate-Leaves :
    (sys : Loader) (handle : ℕ) (r : EntryStatus × TapGlobal)
    → sys.register_miniport ≡ some handle
    → r.1.ndis_driver_handle ≡ some handle
    → r.1.lock ≡ false
    → r.1.locks ≡ 0
    → r.1.freed_locks ≡ 0
    → r.1.registrations ≡ 1
    → r.1.deregistrations ≡ 0
    → Leaves sys (allocate_lock sys r)
unfolding allocate_lock Leaves
allocate-Leaves sys handle (EntryStatus.success, g) e kept lock none_held not_freed one not_undone =
    let failed = unload-IsFree g (ground arith) not_freed one not_undone handle kept in
    let held = record g { lock = true; locks = g.locks + 1 } in
    let given = unload-IsFree held (omega arith) not_freed one not_undone handle kept in
    elim (Bool-cases sys.has_lock) [
      | inl has ↦ rw has (
        handle,
        e,
        record {
          handle_kept = kept;
          lock_kept = refl;
          one_lock = omega arith;
          not_freed = not_freed;
          one_registration = one;
          not_undone = not_undone;
        },
        given,
      )
      | inr out ↦ rw out failed
    ]
allocate-Leaves sys handle (EntryStatus.unsupported_revision, g) e kept lock none_held not_freed one
      not_undone =
    unload-IsFree g (ground arith) not_freed one not_undone handle kept
allocate-Leaves sys handle (EntryStatus.failure, g) e kept lock none_held not_freed one not_undone =
    unload-IsFree g (ground arith) not_freed one not_undone handle kept
allocate-Leaves sys handle (EntryStatus.verify_failed code, g) e kept lock none_held not_freed one
      not_undone =
    unload-IsFree g (ground arith) not_freed one not_undone handle kept

checked-Leaves :
    (sys : Loader) (handle : ℕ) (g : TapGlobal) (v : Verified)
    → sys.register_miniport ≡ some handle
    → g.ndis_driver_handle ≡ some handle
    → g.lock ≡ false
    → g.locks ≡ 0
    → g.freed_locks ≡ 0
    → g.registrations ≡ 1
    → g.deregistrations ≡ 0
    → Leaves sys (allocate_lock sys (check_os g v))
unfolding check_os
checked-Leaves sys handle g Verified.matches = allocate-Leaves sys handle _
checked-Leaves sys handle g Verified.revision_mismatch = allocate-Leaves sys handle _
checked-Leaves sys handle g (Verified.other code) = allocate-Leaves sys handle _

register-Leaves :
    (sys : Loader) (g : TapGlobal)
    → IsFresh g
    → (answer : Option ℕ) → sys.register_miniport ≡ answer
    → Leaves sys (register_driver sys g answer)
unfolding register_driver Leaves
register-Leaves sys g f none e = unload_fresh-IsFree g f
register-Leaves sys g f (some handle) e =
    let registered = record g {
      ndis_driver_handle = some handle;
      registrations = g.registrations + 1;
    } in
    checked-Leaves sys handle registered (sys.verify_version_info os_info) e refl f.no_lock
      f.free.no_locks f.free.none_freed (omega arith) f.free.none_undone

-- Whatever the system answers to DriverEntry, the driver that is loaded holds the registration that
-- NDIS gave and one lock, its global data say so, and TapDriverUnload gives both back, each once. If DriverEntry
-- fails, at whatever step, each lock and registration that it got was given back, once, and nothing
-- else was.
pub driver_entry-Leaves : (sys : Loader) → Leaves sys (driver_entry sys)
unfolding driver_entry zero_global Leaves
driver_entry-Leaves sys =
    let fresh : IsFresh zero_global = record {
      no_handle = refl;
      no_lock = refl;
      free = record {
        no_locks = refl;
        none_freed = refl;
        no_registrations = refl;
        none_undone = refl;
      };
    } in
    let g = read_tap_diag sys.tap_diag (set_ndis_version sys zero_global) in
    let ready = diag-IsFresh sys.tap_diag _ (version-IsFresh sys zero_global fresh) in
    elim (Bool-cases (ltb sys.ndis_version sys.runtime_version_620)) [
      | inl old ↦ rw old (record { no_locks = refl; no_registrations = refl })
      | inr new ↦ rw new (register-Leaves sys g ready sys.register_miniport refl)
    ]

-- The answer of RtlVerifyVersionInfo for VER_GREATER_EQUAL on both numbers, in a system of this
-- version.
unfoldable pub greater_equal : ℕ → ℕ → OsInfo → Verified
greater_equal major minor asked =
    if ltb asked.major major
    then Verified.matches
    else if asked.major == major && leb asked.minor minor
    then Verified.matches
    else Verified.revision_mismatch

asked_2_0 : (major minor : ℕ) → 2 ≤ major → greater_equal major minor os_info ≡ Verified.matches
unfolding greater_equal os_info
asked_2_0 major minor h = ground arith

allocate-windows8 :
    (sys : Loader) (g : TapGlobal) (v : Verified)
    → v ≡ Verified.matches
    → (allocate_lock sys (check_os g v)).0 ≡ EntryStatus.success
    → (allocate_lock sys (check_os g v)).1.running_windows8_or_greater ≡ true
unfolding allocate_lock check_os
allocate-windows8 sys g Verified.matches e ok = ground arith
allocate-windows8 sys g Verified.revision_mismatch e ok = cc
allocate-windows8 sys g (Verified.other code) e ok = cc

register-windows8 :
    (sys : Loader) (g : TapGlobal) (answer : Option ℕ)
    → sys.verify_version_info os_info ≡ Verified.matches
    → (register_driver sys g answer).0 ≡ EntryStatus.success
    → (register_driver sys g answer).1.running_windows8_or_greater ≡ true
unfolding register_driver
register-windows8 sys g none e ok = cc
register-windows8 sys g (some handle) e ok =
    allocate-windows8 sys
      (record g { ndis_driver_handle = some handle; registrations = g.registrations + 1 })
      (sys.verify_version_info os_info) e ok

-- In each system whose version is 2.0 or more, Windows 7 (6.1) among them, a driver that loads takes
-- it for Windows 8 or greater.
always_windows8 :
    (sys : Loader) (major minor : ℕ)
    → 2 ≤ major
    → sys.verify_version_info os_info ≡ greater_equal major minor os_info
    → (driver_entry sys).0 ≡ EntryStatus.success
    → (driver_entry sys).1.running_windows8_or_greater ≡ true
unfolding driver_entry
always_windows8 sys major minor h e ok =
    let g = read_tap_diag sys.tap_diag (set_ndis_version sys zero_global) in
    let yes_2_0 = e ∙ asked_2_0 major minor h in
    elim (Bool-cases (ltb sys.ndis_version sys.runtime_version_620)) [
      | inl old ↦ cc (rw old at ok)
      | inr new ↦ rw new (register-windows8 sys g sys.register_miniport yes_2_0 (rw new at ok))
    ]
