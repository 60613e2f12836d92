-- ===== src/Lifecycle/Pausing.antt =====
-- AdapterPause comes to its end.
use tap_windows.Base.{
  ℕ, suc, ◌+◌, ◌*◌, ◌^◌, ◌≤◌, ◌<◌, ◌≡◌, ◌⊎◌, inl, inr, refl, ap, arith, pred-cases,
}
use tap_windows.Lifecycle.{
  Pc, Miniport, down, setters, after_bias, Drains, Steps, Run, not_called, entered, biased, reset,
  waiting, waited, returned, enter, add_bias, reset_event, take_bias, wake, leave, take_back,
  set_event, start, then_drains,
}
use tap_windows.Lifecycle.Trace.{IsCoherent, bias, is_waiting, Drains-IsCoherent, Steps-IsCoherent}

-- How many steps of AdapterPause are left at most.
abbrev pub rank : Pc → ℕ
rank not_called = 7
rank entered = 6
rank biased = 5
rank reset = 4
rank waiting = 2
rank waited = 1
rank returned = 0

-- How many steps are left at most if no list arrives: each list comes back once, and may have its
-- thread set the event.
abbrev pub measure : Miniport → ℕ
measure m = rank m.pc + 2 * m.lists + m.setting

rank_after : (c : ℕ) → rank (after_bias c) ≤ 2
rank_after c = ground arith

setters_le : (c n : ℕ) → setters c n ≤ suc n
setters_le c n = ground arith

Drains-measure : (m n : Miniport) → Drains m n → suc (measure n) ≤ measure m
Drains-measure m _ (enter _ e) = omega (arith, ap rank e)
Drains-measure m _ (add_bias _ e) = omega (arith, ap rank e)
Drains-measure m _ (reset_event _ e) = omega (arith, ap rank e)
Drains-measure m _ (take_bias _ e) = omega (arith, ap rank e, rank_after (down m.count))
Drains-measure m _ (wake _ e set) = omega (arith, ap rank e)
Drains-measure m _ (leave _ e) = omega (arith, ap rank e)
Drains-measure m _ (take_back _ k e) = omega (arith, e, setters_le (down m.count) m.setting)
Drains-measure m _ (set_event _ k e) = omega (arith, e)

-- A thread that returns a list, or that sets the event, can go on.
others_go_on : (m : Miniport) → 1 ≤ m.setting + m.lists → (n : Miniport) × Drains m n
others_go_on m h = elim (pred-cases m.setting) [
  | inl none_sets ↦ elim (pred-cases m.lists) [
    | inl none_left ↦ absurd (omega (arith, none_sets, none_left))
    | inr (k, e) ↦ (_, Drains.take_back m k e)
  ]
  | inr (k, e) ↦ (_, Drains.set_event m k e)
]

-- Some thread can go on until AdapterPause has returned.
progress_at :
    (m : Miniport) (p : Pc)
    → m.pc ≡ p
    → IsCoherent m
    → (m.pc ≡ returned) ⊎ ((n : Miniport) × Drains m n)
progress_at m not_called e h = inr (_, Drains.enter m e)
progress_at m entered e h = inr (_, Drains.add_bias m e)
progress_at m biased e h = inr (_, Drains.reset_event m e)
progress_at m reset e h = inr (_, Drains.take_bias m e)
progress_at m waited e h = inr (_, Drains.leave m e)
progress_at m returned e h = inl e
progress_at m waiting e h = elim h.awake [
  | inl moving ↦ absurd (ground (arith, moving, ap is_waiting e))
  | inr (inl set) ↦ inr (_, Drains.wake m e set)
  | inr (inr some_left) ↦ inr (others_go_on m some_left)
]

run_lem :
    (k : ℕ) (m n : Miniport) → IsCoherent m → Run k m n → IsCoherent n × (k + measure n ≤ measure m)
run_lem _ m _ h (start _) = (h, omega arith)
run_lem _ m o h (then_drains k _ n _ before step) =
    let (h', left) = run_lem k m n h before in
    (Drains-IsCoherent n o h' step, omega (arith, left, Drains-measure n o step))

-- AdapterPause returns, whatever the threads beside it did before: from any state that it and they
-- reach, no more steps than `measure` says can follow in which no list arrives, and until
-- AdapterPause has returned there is always a step of its own, of a thread that returns a list, or
-- of one that sets the event. At first AdapterPause is not called and the count is that of the
-- lists, fewer than 2 ^ 31.
pub pause_returns :
    (s m n : Miniport) (k : ℕ)
    → s.pc ≡ not_called
    → s.count ≡ s.lists
    → s.lists < 2 ^ 31
    → Steps s m
    → Run k m n
    → (k ≤ measure m) × ((n.pc ≡ returned) ⊎ ((o : Miniport) × Drains n o))
pause_returns s m n k idle counted few reached run =
    let at_first : IsCoherent s = record {
      count = omega (arith, ap bias idle, counted);
      bound = few;
      awake = inl (ap is_waiting idle);
    } in
    let (h, left) = run_lem k m n (Steps-IsCoherent s m at_first reached) run in
    (omega (arith, left), progress_at n n.pc refl h)
