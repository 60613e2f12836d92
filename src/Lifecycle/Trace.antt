-- ===== src/Lifecycle/Trace.antt =====
-- What holds of every state that AdapterPause and the threads beside it can reach.
use tap_windows.Base.{
  ℕ, ◌+◌, ◌^◌, ◌≤◌, ◌<◌, ◌≡◌, ◌⊎◌, inl, inr, refl, ap, arith, Bool, true, false, ◌==◌, Bool-cases,
}
use tap_windows.Lifecycle.{
  Pc, Miniport, down, setters, after_bias, Drains, Arrives, Steps, biased, reset, waiting, enter,
  add_bias, reset_event, take_bias, wake, leave, take_back, set_event, check, indicate, done, drain,
  arrive,
}

-- The bias on the count
abbrev pub bias : Pc → ℕ
bias biased = 1
bias reset = 1
bias _ = 0

abbrev pub is_waiting : Pc → Bool
is_waiting waiting = true
is_waiting _ = false

-- The count is that of the lists and the bias; and if AdapterPause waits, the event is set, or a
-- thread is about to set it, or the host still has a list.
pub record IsCoherent (m : Miniport) : Type 0 where
  pub count : m.count ≡ m.lists + bias m.pc
  pub bound : m.lists < 2 ^ 31
  pub awake : (is_waiting m.pc ≡ false) ⊎ ((m.event ≡ true) ⊎ (1 ≤ m.setting + m.lists))

bias_after : (c : ℕ) → bias (after_bias c) ≡ 0
bias_after c = ground arith

pub bias_le : (p : Pc) → bias p ≤ 1
bias_le biased = omega arith
bias_le reset = omega arith
bias_le _ = omega arith

bias-is_waiting : (p : Pc) → (is_waiting p ≡ false) ⊎ (bias p ≡ 0)
bias-is_waiting waiting = inr refl
bias-is_waiting _ = inl refl

-- Once the bias is off, AdapterPause waits only if a list is left.
after-awake :
    (count lists setting : ℕ) (event : Bool)
    → count ≡ lists
    → (is_waiting (after_bias count) ≡ false) ⊎ ((event ≡ true) ⊎ (1 ≤ setting + lists))
after-awake count lists setting event e = elim (Bool-cases (count == 0)) [
  | inl none_left ↦ rw none_left (inl refl)
  | inr some_left ↦ inr (inr (ground (arith, some_left)))
]

-- The last list that is returned without a bias has its thread set the event.
last-awake : (lists setting count : ℕ) → count ≡ lists → 1 ≤ setters count setting + lists
last-awake lists setting count e = ground arith

pub Drains-IsCoherent : (m n : Miniport) → IsCoherent m → Drains m n → IsCoherent n
Drains-IsCoherent m _ h (enter _ e) = record {
  count = omega (arith, ap bias e, h.count);
  bound = h.bound;
  awake = inl refl;
}
Drains-IsCoherent m _ h (add_bias _ e) = record {
  count = omega (arith, ap bias e, h.count, h.bound);
  bound = h.bound;
  awake = inl refl;
}
Drains-IsCoherent m _ h (reset_event _ e) = record {
  count = omega (arith, ap bias e, h.count);
  bound = h.bound;
  awake = inl refl;
}
Drains-IsCoherent m _ h (take_bias _ e) = record {
  count = omega (arith, ap bias e, h.count, h.bound, bias_after (down m.count));
  bound = h.bound;
  awake = after-awake _ m.lists m.setting m.event (omega (arith, ap bias e, h.count, h.bound));
}
Drains-IsCoherent m _ h (wake _ e set) = record {
  count = omega (arith, ap bias e, h.count);
  bound = h.bound;
  awake = inl refl;
}
Drains-IsCoherent m _ h (leave _ e) = record {
  count = omega (arith, ap bias e, h.count);
  bound = h.bound;
  awake = inl refl;
}
Drains-IsCoherent m _ h (take_back _ k e) = record {
  count = omega (arith, e, h.count, h.bound, bias_le m.pc);
  bound = omega (arith, e, h.bound);
  awake = elim (bias-is_waiting m.pc) [
    | inl moving ↦ inl moving
    | inr free ↦ inr (inr (last-awake k m.setting _ (omega (arith, free, e, h.count, h.bound))))
  ];
}
Drains-IsCoherent m _ h (set_event _ k e) = record {
  count = h.count;
  bound = h.bound;
  awake = inr (inl refl);
}

Arrives-IsCoherent : (m n : Miniport) → IsCoherent m → Arrives m n → IsCoherent n
Arrives-IsCoherent m _ h (check _ e) = record { count = h.count; bound = h.bound; awake = h.awake }
Arrives-IsCoherent m _ h (indicate _ k e b) = record {
  count = omega (arith, h.count, h.bound, bias_le m.pc);
  bound = omega (arith, b);
  awake = inr (inr (omega arith));
}

-- Whatever the threads do and in whichever order, the count stays that of the lists and the bias,
-- and no wake-up is lost.
pub Steps-IsCoherent : (m n : Miniport) → IsCoherent m → Steps m n → IsCoherent n
Steps-IsCoherent m _ h (done _) = h
Steps-IsCoherent m o h (drain _ n _ before step) =
    Drains-IsCoherent n o (Steps-IsCoherent m n h before) step
Steps-IsCoherent m o h (arrive _ n _ before step) =
    Arrives-IsCoherent n o (Steps-IsCoherent m n h before) step
