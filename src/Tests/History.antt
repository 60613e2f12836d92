-- ===== src/Tests/History.antt =====
-- The theorems on histories, at one session of the application.
use tap_windows.Base.{ℕ, ◌≡◌, ◌⊎◌, arith, true, false, none, some, List, [], ◌∷◌}
use tap_windows.Adapter.{Adapter}
use tap_windows.Transmit.Read.Pended.{reads}
use tap_windows.Transmit.Read.Flow.{times}
use tap_windows.Transmit.Send.{Supply}
use tap_windows.Device.{Request}
use tap_windows.Create.{adapter_create}
use tap_windows.Create.Sound.{all_succeed}
use tap_windows.History.{Operation, run, submitted}
use tap_windows.History.Well.{IsWell}
use tap_windows.History.Preserved.{history-IsWell}
use tap_windows.History.Lists.{sent}
use tap_windows.History.Completed.{wind_down, requests_completed}
use tap_windows.Tests.Fixtures.{full_pool, irp, nbl, answers, settings}

abbrev supply : ℕ → Supply
supply i = record { pool = full_pool; unset = [] }

-- The device is opened and connected, a read waits, a frame of the host serves it, a second read is
-- cancelled, the host returns what it has, and the miniport is paused and halted.
abbrev history : List Operation
history =
    Operation.restart
    ∷ Operation.create_file 1
    ∷ Operation.control (Request.media_status (1 ∷ 0 ∷ 0 ∷ 0 ∷ []))
    ∷ Operation.read (irp 7) 100 true true
    ∷ Operation.send supply (nbl 1 ∷ [])
    ∷ Operation.read (irp 8) 100 true true
    ∷ Operation.cancel 0
    ∷ Operation.write full_pool (irp 9) true true
    ∷ Operation.give_back (0 ∷ [])
    ∷ Operation.pause
    ∷ Operation.paused
    ∷ Operation.cleanup_file
    ∷ Operation.close_file
    ∷ Operation.halt
    ∷ []

history-IsWell_example :
    ((adapter_create answers (some settings) ≡ none) × (all_succeed answers ≡ false))
    ⊎ ((a : Adapter) × (adapter_create answers (some settings) ≡ some a)
        × (all_succeed answers ≡ true)
        × IsWell (submitted history) (run a history))
history-IsWell_example = history-IsWell answers (some settings) history (omega arith)

requests_completed_example :
    ((adapter_create answers (some settings) ≡ none) × (all_succeed answers ≡ false))
    ⊎ ((a : Adapter) × (adapter_create answers (some settings) ≡ some a)
        × (let b = wind_down (run a history) in
            (b.pending_read_irp_queue.queue ≡ [])
            × (b.in_flight ≡ [])
            × (b.flow_control_list ≡ [])
            × ((id : ℕ) → reads id b.completed_irps ≡ submitted history id)
            × ((id : ℕ) → times id b.completed_nbls ≡ sent history id)))
requests_completed_example = requests_completed answers (some settings) history (omega arith)
