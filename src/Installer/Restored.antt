-- ===== src/Installer/Restored.antt =====
-- The adapters that an installation of msm/installation.c disables are enabled again.
use tap_windows.Base.{
  ℕ, ◌+◌, ◌≡◌, ◌∙◌, refl, arith, Bool, true, false, ◌&&◌, List, [], ◌∷◌, Option, none, some, length,
  ◌==◌, if◌then◌else◌, Bool-cases, inl, inr,
}
use tap_windows.Installer.{
  Change, Call, Device, World, Windows, Visit, no_memory, skipped, failed, changed, ask,
  is_driver_loaded, ensure_driver_unloaded, change_device, drop_node, visit_node, visit,
  disable_our_adapters, enable_our_adapters,
}
use tap_windows.Installer.Package.{install_driver, remove_driver}
use tap_windows.Installer.Actions.{
  is_nonempty, disable_and_wait, unload_driver, cleanup_adapters, replace_driver, install_or_update,
}
use tap_windows.Installer.Counts.{
  disabled_by, enabled_by, total, disablings, enablings, times, ask-Keeps, is_other, loaded-Keeps,
  unloaded-Keeps,
}
use tap_windows.Installer.Kept.{install-Keeps, remove-Keeps}

-- From one state to another the devices of a list were disabled, none was enabled, and a node was
-- allocated for each.
record Disables (dev : ℕ) (devs : List ℕ) (w v : World) : Type 0 where
  those : disablings dev v ≡ disablings dev w + times dev devs
  not_enabled : enablings dev v ≡ enablings dev w
  one_node : v.nodes ≡ w.nodes + length devs

disabled_one :
    (env : Windows) (dev d : ℕ) (w : World)
    → let (ok, v) = change_device env Change.disable d w in
      (disablings dev v ≡ disablings dev w + (if ok && d == dev then 1 else 0))
      × (enablings dev v ≡ enablings dev w)
      × (v.nodes ≡ w.nodes)
unfolding change_device ask disablings enablings total disabled_by enabled_by
disabled_one env dev d w = ground arith

enabled_one :
    (env : Windows) (dev d : ℕ) (w : World)
    → let (ok, v) = change_device env Change.enable d w in
      (disablings dev v ≡ disablings dev w)
      × (enablings dev v ≡ enablings dev w + (if d == dev then 1 else 0))
      × (v.nodes ≡ w.nodes)
unfolding change_device ask disablings enablings total disabled_by enabled_by
enabled_one env dev d w = ground arith

disabled : Visit → List ℕ
disabled (Visit.changed d) = d ∷ []
disabled _ = []

visit_node-Disables :
    (env : Windows) (dev : ℕ) (e : Option Device) (w u : World)
    → disablings dev w ≡ disablings dev u
    → enablings dev w ≡ enablings dev u
    → w.nodes ≡ u.nodes + 1
    → Disables dev (disabled (visit_node env e w).0) u (visit_node env e w).1
unfolding visit_node drop_node disabled times disablings enablings
visit_node-Disables env dev none w u p q r = record {
  those = omega (arith, p);
  not_enabled = q;
  one_node = omega (arith, r);
}
visit_node-Disables env dev (some d) w u p q r =
    let (a, b, c) = disabled_one env dev d.dev_inst w in
    record {
      those = ground (arith, a, p);
      not_enabled = ground (arith, b, q);
      one_node = ground (arith, c, r);
    }

visit-Disables :
    (env : Windows) (dev : ℕ) (e : Option Device) (w : World)
    → Disables dev (disabled (visit env e w).0) w (visit env e w).1
unfolding visit disabled times is_other disablings enablings
visit-Disables env dev e w =
    let (ok, v) = ask env Call.malloc_node w in
    let asked = ask-Keeps env Call.malloc_node dev w refl in
    let node = record v { nodes = v.nodes + 1 } in
    let rest =
      visit_node-Disables env dev e node w asked.no_disabling asked.no_enabling
        (omega (arith, asked.same_nodes)) in
    let none_done : Disables dev [] w v = record {
      those = omega (arith, asked.no_disabling);
      not_enabled = asked.no_enabling;
      one_node = omega (arith, asked.same_nodes);
    } in
    elim (Bool-cases (env.succeeds w.calls Call.malloc_node)) [
      | inl yes_node ↦ rw yes_node (rw yes_node at rest)
      | inr no_node ↦ rw no_node (rw no_node at none_done)
    ]

Disables-add :
    (dev : ℕ) (devs ds all : List ℕ) (u w v : World)
    → Disables dev devs u w
    → Disables dev ds w v
    → times dev all ≡ times dev devs + times dev ds
    → length all ≡ length devs + length ds
    → Disables dev all u v
Disables-add dev devs ds all u w v p q t n = record {
  those = omega (arith, p.those, q.those, t);
  not_enabled = q.not_enabled ∙ p.not_enabled;
  one_node = omega (arith, p.one_node, q.one_node, n);
}

loop-Disables :
    (env : Windows) (dev : ℕ) (set : List (Option Device)) (ret : Bool) (devs : List ℕ)
    (u w : World)
    → Disables dev devs u w
    → let (r, all, v) = disable_our_adapters env set ret devs w in Disables dev all u v
unfolding disable_our_adapters disabled times is_other
loop-Disables env dev [] ret devs u w h =
    let v = (ask env Call.malloc_node w).1 in
    let asked = ask-Keeps env Call.malloc_node dev w refl in
    record {
      those = asked.no_disabling ∙ h.those;
      not_enabled = asked.no_enabling ∙ h.not_enabled;
      one_node = asked.same_nodes ∙ h.one_node;
    }
loop-Disables env dev (e ∷ set) ret devs u w h =
    visited (visit env e w).0 (visit env e w).1 (visit-Disables env dev e w)
      (λ ret' devs' v h'. loop-Disables env dev set ret' devs' u v h')
  where
    visited :
        (r : Visit) (v : World)
        → Disables dev (disabled r) w v
        → ((ret' : Bool) (devs' : List ℕ) (v' : World)
            → Disables dev devs' u v'
            → let (r', all, last) = disable_our_adapters env set ret' devs' v' in
              Disables dev all u last)
        → let (r', all, last) : Bool × List ℕ × World = elim r [
          | no_memory ↦ (false, devs, v)
          | skipped ↦ disable_our_adapters env set ret devs v
          | failed ↦ disable_our_adapters env set false devs v
          | changed d ↦ disable_our_adapters env set ret (d ∷ devs) v
        ] in
          Disables dev all u last
    visited Visit.no_memory v d ih =
        Disables-add dev devs [] devs u w v h d (omega arith) (omega arith)
    visited Visit.skipped v d ih =
        ih ret devs v (Disables-add dev devs [] devs u w v h d (omega arith) (omega arith))
    visited Visit.failed v d ih =
        ih false devs v (Disables-add dev devs [] devs u w v h d (omega arith) (omega arith))
    visited (Visit.changed x) v d ih =
        ih ret (x ∷ devs) v
          (Disables-add dev devs (x ∷ []) (x ∷ devs) u w v h d (omega arith) (omega arith))

enable-Keeps :
    (env : Windows) (dev : ℕ) (devs : List ℕ) (ret : Bool) (w : World)
    → let v = (enable_our_adapters env devs ret w).1 in
      (disablings dev v ≡ disablings dev w)
      × (enablings dev v ≡ enablings dev w + times dev devs)
      × (v.nodes ≡ w.nodes)
unfolding enable_our_adapters times
enable-Keeps env dev [] ret w = (refl, omega arith, refl)
enable-Keeps env dev (d ∷ devs) ret w =
    let (ok, v) = change_device env Change.enable d w in
    let (a, b, c) = enabled_one env dev d w in
    let (x, y, z) = enable-Keeps env dev devs (ret && ok) v in (x ∙ a, omega (arith, b, y), z ∙ c)

unload-Disables :
    (env : Windows) (dev : ℕ) (set : List (Option Device)) (w : World)
    → Disables dev (unload_driver env set w).0 w (unload_driver env set w).1
unfolding unload_driver disable_and_wait times
unload-Disables env dev set w =
    let (loaded, v) = is_driver_loaded env w in
    let asked = loaded-Keeps env dev w in
    let nothing : Disables dev [] w v = record {
      those = omega (arith, asked.no_disabling);
      not_enabled = asked.no_enabling;
      one_node = omega (arith, asked.same_nodes);
    } in
    let (r, devs, u) = disable_our_adapters env set true [] v in
    let done = loop-Disables env dev set true [] w v nothing in
    let waited = unloaded-Keeps env dev 300 u in
    let both : Disables dev devs w (ensure_driver_unloaded env 300 u).1 = record {
      those = waited.no_disabling ∙ done.those;
      not_enabled = waited.no_enabling ∙ done.not_enabled;
      one_node = waited.same_nodes ∙ done.one_node;
    } in
    elim (Bool-cases (is_driver_loaded env w).0) [
      | inl yes_loaded ↦ rw yes_loaded both
      | inr free ↦ rw free nothing
    ]

replace-restores :
    (env : Windows) (dev : ℕ) (set : Option (List (Option Device))) (w : World)
    → let v = (replace_driver env set w).1 in
      (enablings dev v + disablings dev w ≡ disablings dev v + enablings dev w)
      × (v.nodes ≡ w.nodes)
unfolding replace_driver cleanup_adapters disablings enablings
replace-restores env dev none w = (omega arith, refl)
replace-restores env dev (some set) w =
    let (existing, v) = unload_driver env set w in
    let d = unload-Disables env dev set w in
    let removed = (remove_driver env v).1 in
    let a = remove-Keeps env dev v in
    let installed = (install_driver env (is_nonempty existing) removed).1 in
    let b = install-Keeps env dev (is_nonempty existing) removed in
    let (x, y, z) = enable-Keeps env dev existing true installed in
    (
      omega (
        arith, d.those, d.not_enabled, a.no_disabling, a.no_enabling, b.no_disabling, b.no_enabling,
        x, y,
      ),
      omega (arith, d.one_node, a.same_nodes, b.same_nodes, z),
    )

-- Whatever Windows answers, and whether the installation succeeds or not: InstallOrUpdate tries to
-- enable each device as often as it has disabled it with success, and it frees as many nodes of its
-- list of adapters as it allocates.
pub install_or_update-restores :
    (env : Windows) (dev : ℕ) (w : World)
    → let v = (install_or_update env w).1 in
      (enablings dev v + disablings dev w ≡ disablings dev v + enablings dev w)
      × (v.nodes ≡ w.nodes)
unfolding install_or_update
install_or_update-restores env dev w = replace-restores env dev env.device_info_set w
