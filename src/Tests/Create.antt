-- ===== src/Tests/Create.antt =====
-- An adapter that is created, and the references on it.
use tap_windows.Base.{
  ◌≡◌, ◌⊎◌, ◌↔◌, refl, arith, true, false, not, List, [], ◌∷◌, none, some, get_elem?,
}
use tap_windows.Adapter.{Adapter}
use tap_windows.Contexts.{
  Context, Event, handle, handle_all, from_device_object, open_file, update, halt, halt_once,
  reference, dereference, allocate, add_to_global_list, remove_from_global_list,
}
use tap_windows.Contexts.Counted.{context_freed}
use tap_windows.Create.{adapter_create}
use tap_windows.Create.Sound.{IsNew, all_succeed, adapter_create-IsNew}
use tap_windows.Tests.Fixtures.{answers, settings}

adapter_create-IsNew_example :
    ((adapter_create answers (some settings) ≡ none) × (all_succeed answers ≡ false))
    ⊎ ((a : Adapter) × (adapter_create answers (some settings) ≡ some a)
        × (all_succeed answers ≡ true)
        × IsNew a)
adapter_create-IsNew_example = adapter_create-IsNew answers (some settings) (omega arith)

-- The adapter is halted while a file has its device: the file keeps the context.
abbrev events : List Event
events = Event.created 5 0 ∷ Event.opened 5 1 ∷ Event.opened 5 2 ∷ Event.halted_at 0 ∷ []

abbrev kept : Context
kept = record {
  device_object = 5;
  diag_device_object = 0;
  ref_count = 1;
  linked = false;
  tap_file_object = some 1;
  diag_handles = 0;
  halted = true;
  freed = false;
}

kept_there : get_elem? (handle_all [] events) 0 ≡ some kept
unfolding handle_all handle from_device_object open_file update halt_once halt reference dereference
    allocate add_to_global_list remove_from_global_list
kept_there = refl

context_freed_example :
    ((kept.freed ≡ true)
      ↔ ((kept.halted ≡ true) × (kept.tap_file_object ≡ none) × (kept.diag_handles ≡ 0)))
    × (kept.linked ≡ not kept.halted)
context_freed_example = context_freed events 0 kept (omega arith) kept_there
