-- ===== src/Tests/Driver.antt =====
-- The loading of the driver and its mutex at concrete values.
use tap_windows.Base.{◌≡◌, ◌≤◌, refl, arith, true, [], ◌∷◌, some}
use tap_windows.Driver.{Loader, driver_entry, os_info}
use tap_windows.Driver.Resources.{Leaves, driver_entry-Leaves, greater_equal}
use tap_windows.Lock.{Kind, Place, Mutex, Move, Step, Reach, tried}
use tap_windows.Lock.Exclusive.{init, total, holds, counts, mutual_exclusion}

-- Windows 7, with a driver that gets all it asks for
abbrev windows7 : Loader
windows7 = record {
  ndis_version = 0x60014;
  runtime_version_620 = 0x60014;
  runtime_version_630 = 0x6001e;
  tap_diag = some (some (record { is_dword = true; number = 1 }));
  register_miniport = some 77;
  verify_version_info = greater_equal 6 1;
  has_lock = true;
}

driver_entry-Leaves_example : Leaves windows7 (driver_entry windows7)
driver_entry-Leaves_example = driver_entry-Leaves windows7

taken_for_8 : (driver_entry windows7).1.running_windows8_or_greater ≡ true
unfolding driver_entry os_info greater_equal
taken_for_8 = refl

-- Two threads, of which one has the mutex and the other is about to take its increment back
abbrev contended : Mutex
contended = record { count = 2; threads = Place.holding ∷ Place.undoing Kind.nonblocking ∷ [] }

abbrev asking : Mutex
asking = record { count = 0; threads = Place.trying Kind.blocking ∷ Place.outside ∷ [] }

abbrev held : Mutex
held = record { count = 1; threads = Place.holding ∷ Place.outside ∷ [] }

abbrev late : Mutex
late = record { count = 1; threads = Place.holding ∷ Place.trying Kind.nonblocking ∷ [] }

contended-Reach : Reach (init 2) contended
unfolding tried
contended-Reach =
    Reach.next
      (Reach.next
        (Reach.next
          (Reach.next Reach.here (Step.move (init 2) 0 _ _ 0 refl (Move.request 0 Kind.blocking)))
          (Step.move asking 0 _ _ 1 refl (Move.attempt 0 Kind.blocking)))
        (Step.move held 1 _ _ 1 refl (Move.request 1 Kind.nonblocking)))
      (Step.move late 1 _ _ 2 refl (Move.attempt 1 Kind.nonblocking))

mutual_exclusion_example :
    (total holds contended.threads ≤ 1) × (contended.count ≡ total counts contended.threads)
mutual_exclusion_example = mutual_exclusion 2 contended (omega arith) contended-Reach
