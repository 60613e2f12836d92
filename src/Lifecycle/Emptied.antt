-- ===== src/Lifecycle/Emptied.antt =====
-- Once AdapterPause has returned the host has no list.
use tap_windows.Base.{ℕ, ◌+◌, ◌^◌, ◌<◌, ◌≡◌, ◌⊎◌, inl, inr, refl, ap, arith, Bool, true, false}
use tap_windows.Adapter.{AdapterState, is_success, state_status, pausing}
use tap_windows.Lifecycle.{
  Pc, Miniport, down, setters, after_bias, Drains, Arrives, Steps, entered, reset, waiting, waited,
  returned, enter, add_bias, reset_event, take_bias, wake, leave, take_back, set_event, check,
  indicate, done, drain, arrive,
}
use tap_windows.Lifecycle.Trace.{IsCoherent, bias, is_waiting, Drains-IsCoherent}

-- The event has been reset; the wait is over.
abbrev is_past : Pc → Bool
is_past reset = true
is_past waiting = true
is_past waited = true
is_past returned = true
is_past _ = false

abbrev is_over : Pc → Bool
is_over waited = true
is_over returned = true
is_over _ = false

-- No list arrives any more; and the event is set, or about to be, only once no list is left.
record IsClosing (m : Miniport) : Type 0 where
  coherent : IsCoherent m
  closed : is_success (state_status m.state) ≡ false
  none_checked : m.checked ≡ 0
  setting : (m.setting ≡ 0) ⊎ (m.lists ≡ 0)
  event : (is_past m.pc ≡ false) ⊎ ((m.event ≡ false) ⊎ (m.lists ≡ 0))
  over : (is_over m.pc ≡ false) ⊎ (m.lists ≡ 0)

over_after : (count : ℕ) → (is_over (after_bias count) ≡ false) ⊎ (count ≡ 0)
over_after count = ground arith

past_event :
    {unset none_left : Type 0} {b : Bool}
    → (b ≡ false) ⊎ (unset ⊎ none_left)
    → b ≡ true
    → unset ⊎ none_left
past_event (inl early) e = absurd (ground (arith, early, e))
past_event (inr rest) e = rest

over_lists : {none_left : Type 0} {b : Bool} → (b ≡ false) ⊎ none_left → b ≡ true → none_left
over_lists (inl on) e = absurd (ground (arith, on, e))
over_lists (inr none_left) e = none_left

-- The thread that sets the event after this return finds no list left.
last_sets :
    (lists setting count held : ℕ)
    → count ≡ lists + held
    → setting ≡ 0
    → (setters count setting ≡ 0) ⊎ (lists ≡ 0)
last_sets lists setting count held e none_sets = ground arith

closed_to_all : (m n : Miniport) → IsClosing m → Arrives m n → ⊥
closed_to_all m _ h (check _ e) = ground (arith, h.closed, e)
closed_to_all m _ h (indicate _ k e b) = omega (arith, h.none_checked, e)

Drains-IsClosing : (m n : Miniport) → IsClosing m → Drains m n → IsClosing n
Drains-IsClosing m _ h (enter _ e) = record {
  coherent = Drains-IsCoherent m _ h.coherent (Drains.enter m e);
  closed = refl;
  none_checked = h.none_checked;
  setting = h.setting;
  event = inl refl;
  over = inl refl;
}
Drains-IsClosing m _ h (add_bias _ e) = record {
  coherent = Drains-IsCoherent m _ h.coherent (Drains.add_bias m e);
  closed = h.closed;
  none_checked = h.none_checked;
  setting = h.setting;
  event = inl refl;
  over = inl refl;
}
Drains-IsClosing m _ h (reset_event _ e) = record {
  coherent = Drains-IsCoherent m _ h.coherent (Drains.reset_event m e);
  closed = h.closed;
  none_checked = h.none_checked;
  setting = h.setting;
  event = inr (inl refl);
  over = inl refl;
}
Drains-IsClosing m _ h (take_bias _ e) =
    let after = Drains-IsCoherent m _ h.coherent (Drains.take_bias m e) in
    record {
      coherent = after;
      closed = h.closed;
      none_checked = h.none_checked;
      setting = h.setting;
      event = inr (past_event (h.event) (ap is_past e));
      over = elim (over_after (down m.count)) [
        | inl on ↦ inl on
        | inr spent ↦ inr (omega (arith, spent, after.count))
      ];
    }
Drains-IsClosing m _ h (wake _ e set) =
    let none_left : m.lists ≡ 0 = elim (past_event h.event (ap is_past e)) [
      | inl unset ↦ absurd (ground (arith, set, unset))
      | inr none_left ↦ none_left
    ] in
    record {
      coherent = Drains-IsCoherent m _ h.coherent (Drains.wake m e set);
      closed = h.closed;
      none_checked = h.none_checked;
      setting = h.setting;
      event = inr (inr none_left);
      over = inr none_left;
    }
Drains-IsClosing m _ h (leave _ e) = record {
  coherent = Drains-IsCoherent m _ h.coherent (Drains.leave m e);
  closed = refl;
  none_checked = h.none_checked;
  setting = h.setting;
  event = inr (past_event h.event (ap is_past e));
  over = inr (over_lists h.over (ap is_over e));
}
Drains-IsClosing m _ h (take_back _ k e) =
    let after = Drains-IsCoherent m _ h.coherent (Drains.take_back m k e) in
    record {
      coherent = after;
      closed = h.closed;
      none_checked = h.none_checked;
      setting = last_sets k m.setting _ (bias m.pc) after.count (omega (arith, h.setting, e));
      event = elim h.event [
        | inl early ↦ inl early
        | inr (inl unset) ↦ inr (inl unset)
        | inr (inr none_left) ↦ absurd (omega (arith, e, none_left))
      ];
      over = elim h.over [ inl on ↦ inl on | inr none_left ↦ absurd (omega (arith, e, none_left)) ];
    }
Drains-IsClosing m _ h (set_event _ k e) =
    let none_left : m.lists ≡ 0 = omega (arith, h.setting, e) in
    record {
      coherent = Drains-IsCoherent m _ h.coherent (Drains.set_event m k e);
      closed = h.closed;
      none_checked = h.none_checked;
      setting = inr none_left;
      event = inr (inr none_left);
      over = inr none_left;
    }

Steps-IsClosing : (m n : Miniport) → IsClosing m → Steps m n → IsClosing n
Steps-IsClosing m _ h (done _) = h
Steps-IsClosing m o h (drain _ n _ before step) =
    Drains-IsClosing n o (Steps-IsClosing m n h before) step
Steps-IsClosing m o h (arrive _ n _ before step) =
    absurd (closed_to_all n o (Steps-IsClosing m n h before) step)

-- When AdapterPause has returned the host has no list, and the count is 0; and so it stays. When
-- AdapterPause set the state, no thread was between its readiness test and its indication, and none
-- between its last decrement and its setting of the event; the count was that of the lists, fewer
-- than 2 ^ 31.
pub paused_empty :
    (s o : Miniport)
    → s.pc ≡ entered
    → s.state ≡ pausing
    → s.count ≡ s.lists
    → s.lists < 2 ^ 31
    → s.checked ≡ 0
    → s.setting ≡ 0
    → Steps s o
    → o.pc ≡ returned
    → (o.lists ≡ 0) × (o.count ≡ 0)
paused_empty s o at set counted few checked setting reached over =
    let at_first : IsClosing s = record {
      coherent = record {
        count = omega (arith, ap bias at, counted);
        bound = few;
        awake = inl (ap is_waiting at);
      };
      closed = ap (λ (t : AdapterState). is_success (state_status t)) set;
      none_checked = checked;
      setting = inl setting;
      event = inl (ap is_past at);
      over = inl (ap is_over at);
    } in
    let last = Steps-IsClosing s o at_first reached in
    let none_left = over_lists last.over (ap is_over over) in
    (none_left, omega (arith, none_left, last.coherent.count, ap bias over))
