-- ===== src/Tests/Lifecycle.antt =====
-- Pauses of the adapter with concrete threads beside them.
use tap_windows.Base.{ℕ, ◌≤◌, ◌≡◌, ◌⊎◌, refl, arith, true, false}
use tap_windows.Adapter.{AdapterState}
use tap_windows.Lifecycle.{Miniport, Pc, Drains, Arrives, Steps, Run, start, then_drains}
use tap_windows.Lifecycle.Pausing.{measure, pause_returns}
use tap_windows.Lifecycle.Emptied.{paused_empty}

-- A running adapter, with one list at the host.
abbrev one_list : Miniport
one_list = record {
  pc = Pc.not_called;
  state = AdapterState.running;
  count = 1;
  event = false;
  lists = 1;
  checked = 0;
  setting = 0;
}

abbrev entering : Miniport
entering = record one_list { pc = Pc.entered; state = AdapterState.pausing }

-- AdapterPause waits.
abbrev waits : Miniport
waits = record one_list { pc = Pc.waiting; state = AdapterState.pausing }

abbrev biased_once : Miniport
biased_once = record entering { pc = Pc.biased; count = 2 }

waits-Steps : Steps one_list waits
waits-Steps =
    Steps.drain _ (record biased_once { pc = Pc.reset }) _
      (Steps.drain _ biased_once _
        (Steps.drain _ entering _ (Steps.drain _ one_list _ (Steps.done _) (Drains.enter _ refl))
          (Drains.add_bias _ refl))
        (Drains.reset_event _ refl))
      (Drains.take_bias _ refl)

-- The list comes back, its thread sets the event, and AdapterPause goes on.
abbrev back : Miniport
back = record waits { lists = 0; count = 0; setting = 1 }

abbrev set : Miniport
set = record back { setting = 0; event = true }

abbrev over : Miniport
over = record set { pc = Pc.returned; state = AdapterState.paused }

to_end : Run 4 waits over
to_end =
    Run.then_drains 3 _ (record set { pc = Pc.waited }) _
      (Run.then_drains 2 _ set _
        (Run.then_drains 1 _ back _
          (Run.then_drains 0 _ waits _ (Run.start waits) (Drains.take_back _ 0 refl))
          (Drains.set_event _ 0 refl))
        (Drains.wake _ refl refl))
      (Drains.leave _ refl)

pause_returns_example :
    (4 ≤ measure waits) × ((over.pc ≡ Pc.returned) ⊎ ((o : Miniport) × Drains over o))
pause_returns_example =
    pause_returns one_list waits over 4 refl refl (omega arith) waits-Steps to_end

Steps-of : {k : ℕ} {m n o : Miniport} → Steps m n → Run k n o → Steps m o
Steps-of before (start _) = before
Steps-of before (then_drains k _ n _ run step) = Steps.drain _ n _ (Steps-of before run) step

entering-Steps : Steps entering waits
entering-Steps =
    Steps.drain _ (record biased_once { pc = Pc.reset }) _
      (Steps.drain _ biased_once _
        (Steps.drain _ entering _ (Steps.done _) (Drains.add_bias _ refl))
        (Drains.reset_event _ refl))
      (Drains.take_bias _ refl)

paused_empty_example : (over.lists ≡ 0) × (over.count ≡ 0)
paused_empty_example =
    paused_empty entering over refl refl refl (omega arith) refl refl
      (Steps-of entering-Steps to_end) refl

-- A thread that found the adapter ready indicates its list after AdapterPause has returned.
abbrev idle : Miniport
idle = record one_list { count = 0; lists = 0 }

abbrev ready : Miniport
ready = record idle { checked = 1 }

abbrev late : Miniport
late = record ready { pc = Pc.entered; state = AdapterState.pausing }

late-Steps : Steps idle (record late {
  pc = Pc.returned;
  state = AdapterState.paused;
  checked = 0;
  lists = 1;
  count = 1;
})
late-Steps =
    Steps.arrive _ (record late { pc = Pc.returned; state = AdapterState.paused }) _
      (Steps.drain _ (record late { pc = Pc.waited }) _
        (Steps.drain _ (record late { pc = Pc.reset; count = 1 }) _
          (Steps.drain _ (record late { pc = Pc.biased; count = 1 }) _
            (Steps.drain _ late _
              (Steps.drain _ ready _ (Steps.arrive _ idle _ (Steps.done _) (Arrives.check _ refl))
                (Drains.enter _ refl))
              (Drains.add_bias _ refl))
            (Drains.reset_event _ refl))
          (Drains.take_bias _ refl))
        (Drains.leave _ refl))
      (Arrives.indicate _ 0 refl (omega arith))

-- A thread whose decrement gave 0 sets the event only after another list went to the host and
-- AdapterPause reset the event: AdapterPause returns while the host has that list.
abbrev between : Miniport
between = record one_list { setting = 1 }

abbrev stale : Miniport
stale = record between { pc = Pc.waiting; state = AdapterState.pausing }

between-Steps : Steps one_list between
between-Steps =
    Steps.arrive _ (record between { lists = 0; count = 0; checked = 1 }) _
      (Steps.arrive _ (record between { lists = 0; count = 0 }) _
        (Steps.drain _ one_list _ (Steps.done _) (Drains.take_back _ 0 refl))
        (Arrives.check _ refl))
      (Arrives.indicate _ 0 refl (omega arith))

stale-Steps :
    Steps one_list
      (record stale { pc = Pc.returned; state = AdapterState.paused; setting = 0; event = true })
stale-Steps =
    Steps.drain _ (record stale { pc = Pc.waited; setting = 0; event = true }) _
      (Steps.drain _ (record stale { setting = 0; event = true }) _
        (Steps.drain _ stale _
          (Steps.drain _ (record stale { pc = Pc.reset; count = 2 }) _
            (Steps.drain _ (record stale { pc = Pc.biased; count = 2 }) _
              (Steps.drain _ (record stale { pc = Pc.entered }) _
                (Steps.drain _ between _ between-Steps (Drains.enter _ refl))
                (Drains.add_bias _ refl))
              (Drains.reset_event _ refl))
            (Drains.take_bias _ refl))
          (Drains.set_event _ 0 refl))
        (Drains.wake _ refl refl))
      (Drains.leave _ refl)
