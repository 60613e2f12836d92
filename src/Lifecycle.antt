-- ===== src/Lifecycle.antt =====
-- The states of the miniport, of src/adapter.c: AdapterRestart, AdapterReset, AdapterShutdownEx and
-- AdapterHalt; and AdapterPause with tapWaitForReceiveNblInFlightCountZeroEvent, as the steps that
-- other threads come between.
pub mod Trace
pub mod Pausing
pub mod Emptied
pub mod Refine
use tap_windows.Base.{
  ℕ, zero, suc, ◌+◌, ◌-◌, ◌^◌, ◌<◌, ◌≡◌, Bool, true, false, ◌==◌, if◌then◌else◌, u32,
}
use tap_windows.Ndis.{NdisStatus}
use tap_windows.Adapter.{
  Adapter, AdapterState, success, is_success, state_status, running, restarting, paused, pausing,
  shutdown, halted,
}
use tap_windows.Device.Session.{destroy_tap_device}

-- AdapterRestart, the two states that it enters one after the other, and what it returns
unfoldable pub adapter_restart : Adapter → NdisStatus × Adapter
adapter_restart a =
    let b = record a { adapter_state = restarting } in
    (success, record b { adapter_state = running })

-- AdapterReset
unfoldable pub adapter_reset : Adapter → NdisStatus × Adapter
adapter_reset a =
    let b = record a { reset_in_progress = true } in
    (success, record b { reset_in_progress = false })

-- AdapterShutdownEx, for a bug check or not
unfoldable pub adapter_shutdown : Adapter → Bool → Adapter
adapter_shutdown a bug_check = if bug_check then a else record a { adapter_state = shutdown }

-- AdapterHalt, less the list of adapters and the reference on this one
unfoldable pub adapter_halt : Adapter → Adapter
adapter_halt a = destroy_tap_device (record a { adapter_state = halted })

-- Where AdapterPause is: not called; the state set; the bias added; the event reset; waiting, since
-- lists were left once the bias was taken off; done waiting; returned.
pub data Pc : Type 0 where
  not_called entered biased reset waiting waited returned : Pc

-- What the steps of a pause share: where AdapterPause is, the state, ReceiveNblInFlightCount, the
-- event, the lists that the host has, the threads that found the adapter ready and are about to
-- indicate a list, and those whose decrement gave 0 and that are about to set the event.
pub record Miniport : Type 0 where
  pub pc : Pc
  pub state : AdapterState
  pub count : ℕ
  pub event : Bool
  pub lists : ℕ
  pub checked : ℕ
  pub setting : ℕ

abbrev pub up : ℕ → ℕ
up count = u32 (count + 1)

abbrev pub down : ℕ → ℕ
down count = u32 (count + 2 ^ 32 - 1)

-- AdapterPause up to its wait, if no other thread comes between
unfoldable pub begin_pause : Adapter → Adapter
begin_pause a =
    let b = record a {
      adapter_state = pausing;
      receive_nbl_in_flight_count = up a.receive_nbl_in_flight_count;
    } in
    record b {
      receive_nbl_zero_event = false;
      receive_nbl_in_flight_count = down b.receive_nbl_in_flight_count;
    }

-- AdapterPause after its wait
abbrev pub end_pause : Adapter → Adapter
end_pause a = record a { adapter_state = paused }

-- One more thread sets the event if the count came to 0.
abbrev pub setters : ℕ → ℕ → ℕ
setters count n = if count == 0 then suc n else n

-- After the bias was taken off
abbrev pub after_bias : ℕ → Pc
after_bias count = if count == 0 then waited else waiting

-- What one thread does without another in between: the steps of AdapterPause, and after them those
-- of a thread in which the host returns a list (tapCompleteIrpAndFreeReceiveNetBufferList).
pub data Drains : Miniport → Miniport → Type 0 where
  enter : (m : Miniport) → m.pc ≡ not_called → Drains m (record m { pc = entered; state = pausing })
  add_bias :
      (m : Miniport) → m.pc ≡ entered → Drains m (record m { pc = biased; count = up m.count })
  reset_event : (m : Miniport) → m.pc ≡ biased → Drains m (record m { pc = reset; event = false })
  take_bias :
      (m : Miniport)
      → m.pc ≡ reset
      → Drains m (record m { pc = after_bias (down m.count); count = down m.count })
  wake : (m : Miniport) → m.pc ≡ waiting → m.event ≡ true → Drains m (record m { pc = waited })
  leave : (m : Miniport) → m.pc ≡ waited → Drains m (record m { pc = returned; state = paused })
  take_back :
      (m : Miniport) (n : ℕ)
      → m.lists ≡ suc n
      → Drains m
          (record m { lists = n; count = down m.count; setting = setters (down m.count) m.setting })
  set_event :
      (m : Miniport) (n : ℕ) → m.setting ≡ suc n → Drains m (record m { setting = n; event = true })

-- The steps of a thread that hands a list to the host (IndicateReceivePacket or
-- TapSharedSendPacket): it finds the state good, and later counts the list. Fewer than 2 ^ 31 lists
-- are in flight, as the count is a LONG.
pub data Arrives : Miniport → Miniport → Type 0 where
  check :
      (m : Miniport)
      → is_success (state_status m.state) ≡ true
      → Arrives m (record m { checked = suc m.checked })
  indicate :
      (m : Miniport) (n : ℕ)
      → m.checked ≡ suc n
      → m.lists < 2 ^ 31 - 1
      → Arrives m (record m { checked = n; lists = suc m.lists; count = up m.count })

-- Any number of steps.
pub data Steps : Miniport → Miniport → Type 0 where
  done : (m : Miniport) → Steps m m
  drain : (m n o : Miniport) → Steps m n → Drains n o → Steps m o
  arrive : (m n o : Miniport) → Steps m n → Arrives n o → Steps m o

-- A number of steps in which no list arrives.
pub data Run : ℕ → Miniport → Miniport → Type 0 where
  start : (m : Miniport) → Run 0 m m
  then_drains : (k : ℕ) (m n o : Miniport) → Run k m n → Drains n o → Run (suc k) m o
