-- ===== src/Installer/Counts.antt =====
-- How often an adapter is disabled or enabled in what msm/installation.c asks of Windows, and the
-- calls that do neither.
use tap_windows.Base.{
  ℕ, zero, suc, ◌+◌, ◌≡◌, ◌∙◌, refl, arith, Bool, true, false, ◌&&◌, List, [], ◌∷◌, ◌==◌,
  if◌then◌else◌,
}
use tap_windows.Installer.{
  Change, Call, World, Windows, ask, is_driver_loaded, ensure_driver_unloaded,
}

-- 1 for a disabling of the device that succeeded
unfoldable pub disabled_by : ℕ → Call × Bool → ℕ
disabled_by dev (Call.call_class_installer Change.disable d, ok) = if ok && d == dev then 1 else 0
disabled_by dev _ = 0

-- 1 for an attempt to enable the device
unfoldable pub enabled_by : ℕ → Call × Bool → ℕ
enabled_by dev (Call.set_install_params Change.enable d, ok) = if d == dev then 1 else 0
enabled_by dev _ = 0

-- How often, in all the calls
module _ (weigh : Call × Bool → ℕ) where
  unfoldable pub total : List (Call × Bool) → ℕ
  total [] = 0
  total (c ∷ calls) = total calls + weigh c

unfoldable pub disablings : ℕ → World → ℕ
disablings dev w = total (disabled_by dev) w.calls

unfoldable pub enablings : ℕ → World → ℕ
enablings dev w = total (enabled_by dev) w.calls

-- How often a device is in a list
unfoldable pub times : ℕ → List ℕ → ℕ
times dev [] = 0
times dev (d ∷ devs) = times dev devs + (if d == dev then 1 else 0)

-- From one state to another nothing was disabled or enabled, and no node allocated or freed.
pub record Keeps (dev : ℕ) (w v : World) : Type 0 where
  pub no_disabling : disablings dev v ≡ disablings dev w
  pub no_enabling : enablings dev v ≡ enablings dev w
  pub same_nodes : v.nodes ≡ w.nodes

pub Keeps-refl : (dev : ℕ) (w : World) → Keeps dev w w
Keeps-refl dev w = record { no_disabling = refl; no_enabling = refl; same_nodes = refl }

pub Keeps-trans : (dev : ℕ) (u v w : World) → Keeps dev u v → Keeps dev v w → Keeps dev u w
Keeps-trans dev u v w p q = record {
  no_disabling = q.no_disabling ∙ p.no_disabling;
  no_enabling = q.no_enabling ∙ p.no_enabling;
  same_nodes = q.same_nodes ∙ p.same_nodes;
}

-- A call that is neither
unfoldable pub is_other : Call → Bool
is_other (Call.call_class_installer Change.disable d) = false
is_other (Call.set_install_params Change.enable d) = false
is_other _ = true

is_other-weights :
    (dev : ℕ) (c : Call) (ok : Bool)
    → is_other c ≡ true
    → (disabled_by dev (c, ok) ≡ 0) × (enabled_by dev (c, ok) ≡ 0)
unfolding is_other disabled_by enabled_by
is_other-weights dev (Call.call_class_installer Change.disable d) ok h = cc
is_other-weights dev (Call.set_install_params Change.enable d) ok h = cc
is_other-weights dev _ ok h = (refl, refl)

pub ask-Keeps :
    (env : Windows) (c : Call) (dev : ℕ) (w : World)
    → is_other c ≡ true
    → Keeps dev w (ask env c w).1
unfolding ask disablings enablings total
ask-Keeps env c dev w other =
    let (a, b) = is_other-weights dev c (env.succeeds w.calls c) other in
    record { no_disabling = omega (arith, a); no_enabling = omega (arith, b); same_nodes = refl }

pub branch-Keeps :
    (dev : ℕ) (w : World) (b : Bool) (r s : Bool × World)
    → Keeps dev w r.1
    → Keeps dev w s.1
    → Keeps dev w (if b then r else s).1
branch-Keeps dev w true r s p q = p
branch-Keeps dev w false r s p q = q

pub loaded-Keeps : (env : Windows) (dev : ℕ) (w : World) → Keeps dev w (is_driver_loaded env w).1
unfolding is_driver_loaded is_other
loaded-Keeps env dev w = ask-Keeps env Call.query_drivers dev w refl

pub unloaded-Keeps :
    (env : Windows) (dev n : ℕ) (w : World) → Keeps dev w (ensure_driver_unloaded env n w).1
unfolding ensure_driver_unloaded is_other
unloaded-Keeps env dev zero w = loaded-Keeps env dev w
unloaded-Keeps env dev (suc n) w =
    let v = (is_driver_loaded env w).1 in
    let u = (ask env Call.sleep v).1 in
    let first = loaded-Keeps env dev w in
    let paused = Keeps-trans dev w v u first (ask-Keeps env Call.sleep dev v refl) in
    let all = Keeps-trans dev w u _ paused (unloaded-Keeps env dev n u) in
    branch-Keeps dev w (is_driver_loaded env w).0 (ensure_driver_unloaded env n u) (true, v) all
      first
