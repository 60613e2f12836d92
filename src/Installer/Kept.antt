-- ===== src/Installer/Kept.antt =====
-- The steps of msm/installation.c that neither disable nor enable an adapter.
use tap_windows.Base.{
  ℕ, suc, ◌≡◌, refl, arith, Bool, true, false, ◌&&◌, ◌||◌, List, [], ◌∷◌, Option, none, some,
  if◌then◌else◌, Bool-cases, and-eq-true, inl, inr,
}
use tap_windows.Installer.{Call, DriverInfo, World, Windows, ask, is_our_driver}
use tap_windows.Installer.Package.{
  ask_all, add_certificates, install_driver_certificate, update_drivers, cleanup_delete,
  copy_resources, setup_driver, fill_directory, combine_paths, use_directory, install_driver,
  make_directory, remove_drivers, remove_driver, remove_listed,
}
use tap_windows.Installer.Counts.{
  Keeps, Keeps-refl, Keeps-trans, ask-Keeps, branch-Keeps, disabled_by, disablings, enabled_by,
  enablings, is_other, total,
}

all_other : List Call → Bool
all_other [] = true
all_other (c ∷ calls) = is_other c && all_other calls

ask_all-Keeps :
    (env : Windows) (dev : ℕ) (calls : List Call) (w : World)
    → all_other calls ≡ true
    → Keeps dev w (ask_all env calls w).1
unfolding ask_all all_other
ask_all-Keeps env dev [] w h = Keeps-refl dev w
ask_all-Keeps env dev (c ∷ calls) w h =
    let (other, others) = (and-eq-true (is_other c) (all_other calls)).0 h in
    let v = (ask env c w).1 in
    let first = ask-Keeps env c dev w other in
    let all = Keeps-trans dev w v _ first (ask_all-Keeps env dev calls v others) in
    branch-Keeps dev w (env.succeeds w.calls c) (ask_all env calls v) (false, v) all first

certificates-Keeps :
    (env : Windows) (dev : ℕ) (leaves : List Bool) (i : ℕ) (ret : Bool) (w : World)
    → Keeps dev w (add_certificates env leaves i ret w).1
unfolding add_certificates is_other
certificates-Keeps env dev [] i ret w = Keeps-refl dev w
certificates-Keeps env dev (true ∷ leaves) i ret w =
    let (ok, v) = ask env (Call.add_certificate i) w in
    Keeps-trans dev w v _ (ask-Keeps env (Call.add_certificate i) dev w refl)
      (certificates-Keeps env dev leaves (suc i) (ret && ok) v)
certificates-Keeps env dev (false ∷ leaves) i ret w =
    certificates-Keeps env dev leaves (suc i) (ret && true) w

certificate-Keeps :
    (env : Windows) (dev : ℕ) (w : World) → Keeps dev w (install_driver_certificate env w).1
unfolding install_driver_certificate is_other
certificate-Keeps env dev w =
    let (found, u) = ask env Call.find_certificates w in
    let (opened, v) = ask env Call.open_trusted u in
    let first = ask-Keeps env Call.find_certificates dev w refl in
    let second = Keeps-trans dev w u v first (ask-Keeps env Call.open_trusted dev u refl) in
    let third =
      Keeps-trans dev w v _ second (certificates-Keeps env dev env.certificates 0 true v) in
    ground (arith, first, second, third)

update-Keeps :
    (env : Windows) (dev : ℕ) (update_existing : Bool) (ids : List ℕ) (w : World)
    → Keeps dev w (update_drivers env update_existing ids w)
unfolding update_drivers disablings enablings is_other
update-Keeps env dev e [] w = Keeps-refl dev w
update-Keeps env dev true (i ∷ ids) w =
    let v = (ask env (Call.update_driver i) w).1 in
    let first = ask-Keeps env (Call.update_driver i) dev w refl in
    let u = record v { reboot = v.reboot || env.needs_reboot v.calls } in
    let marked : Keeps dev w u = record {
      no_disabling = first.no_disabling;
      no_enabling = first.no_enabling;
      same_nodes = refl;
    } in
    Keeps-trans dev w u _ marked (update-Keeps env dev true ids u)
update-Keeps env dev false (i ∷ ids) w =
    let u = record w { reboot = w.reboot || false } in
    let marked : Keeps dev w u = record {
      no_disabling = refl;
      no_enabling = refl;
      same_nodes = refl;
    } in
    Keeps-trans dev w u _ marked (update-Keeps env dev false ids u)

cleanup-Keeps : (env : Windows) (dev : ℕ) (w : World) → Keeps dev w (cleanup_delete env w)
unfolding cleanup_delete disablings enablings total disabled_by enabled_by
cleanup-Keeps env dev w = record {
  no_disabling = omega arith;
  no_enabling = omega arith;
  same_nodes = refl;
}

setup-Keeps :
    (env : Windows) (dev : ℕ) (e : Bool) (w : World) → Keeps dev w (setup_driver env e w).1
unfolding setup_driver is_other
setup-Keeps env dev e w =
    let v = (ask env Call.copy_oem_inf w).1 in
    let u = update_drivers env e (0 ∷ 1 ∷ []) v in
    Keeps-trans dev w v _ (ask-Keeps env Call.copy_oem_inf dev w refl)
      (Keeps-trans dev v u _ (update-Keeps env dev e (0 ∷ 1 ∷ []) v) (cleanup-Keeps env dev u))

copy-all_other : all_other copy_resources ≡ true
unfolding all_other is_other
copy-all_other = refl

fill-Keeps :
    (env : Windows) (dev : ℕ) (e : Bool) (w : World) → Keeps dev w (fill_directory env e w).1
unfolding fill_directory
fill-Keeps env dev e w = elim (Bool-cases env.use_whql) [
  | inl whql ↦ rw whql (filled w (Keeps-refl dev w))
  | inr own ↦ rw own (filled (install_driver_certificate env w).1 (certificate-Keeps env dev w))
]
  where
    filled :
        (u : World)
        → Keeps dev w u
        → Keeps dev w
            (let (ok, v) = ask_all env copy_resources u in
              if ok then setup_driver env e v else (false, cleanup_delete env v)).1
    filled u h =
        let (ok, v) = ask_all env copy_resources u in
        let copied =
          Keeps-trans dev w u v h (ask_all-Keeps env dev copy_resources u copy-all_other) in
        branch-Keeps dev w ok (setup_driver env e v) (false, cleanup_delete env v)
          (Keeps-trans dev w v _ copied (setup-Keeps env dev e v))
          (Keeps-trans dev w v _ copied (cleanup-Keeps env dev v))

use-Keeps : (env : Windows) (dev : ℕ) (e : Bool) (w : World) → Keeps dev w (use_directory env e w).1
unfolding use_directory all_other is_other
use-Keeps env dev e w =
    let (ok, v) = ask_all env combine_paths w in
    let asked = ask_all-Keeps env dev combine_paths w refl in
    branch-Keeps dev w ok (fill_directory env e v) (true, v)
      (Keeps-trans dev w v _ asked (fill-Keeps env dev e v)) asked

pub install-Keeps :
    (env : Windows) (dev : ℕ) (e : Bool) (w : World) → Keeps dev w (install_driver env e w).1
unfolding install_driver all_other is_other
install-Keeps env dev e w =
    let (ok, v) = ask_all env make_directory w in
    let asked = ask_all-Keeps env dev make_directory w refl in
    branch-Keeps dev w ok (use_directory env e v) (false, v)
      (Keeps-trans dev w v _ asked (use-Keeps env dev e v)) asked

removes-Keeps :
    (env : Windows) (dev : ℕ) (ds : List DriverInfo) (ret : Bool) (w : World)
    → Keeps dev w (remove_drivers env ds ret w).1
unfolding remove_drivers is_other
removes-Keeps env dev [] ret w = Keeps-refl dev w
removes-Keeps env dev (d ∷ ds) ret w =
    let r =
      if is_our_driver env d.hardware_id
      then ask env (Call.uninstall_inf d.inf_file_name) w
      else (true, w) in
    let first =
      branch-Keeps dev w (is_our_driver env d.hardware_id)
        (ask env (Call.uninstall_inf d.inf_file_name) w) (true, w)
        (ask-Keeps env (Call.uninstall_inf d.inf_file_name) dev w refl) (Keeps-refl dev w) in
    branch-Keeps dev w (d.enumerated && d.sized && d.allocated && d.detailed)
      (remove_drivers env ds (ret && r.0) r.1) (ret, w)
      (Keeps-trans dev w r.1 _ first (removes-Keeps env dev ds (ret && r.0) r.1)) (Keeps-refl dev w)

removed-Keeps :
    (env : Windows) (dev : ℕ) (listed : Option (List DriverInfo)) (w : World)
    → Keeps dev w (remove_listed env listed w).1
unfolding remove_listed
removed-Keeps env dev none w = Keeps-refl dev w
removed-Keeps env dev (some ds) w =
    branch-Keeps dev w env.builds_class_list (remove_drivers env ds true w) (false, w)
      (removes-Keeps env dev ds true w) (Keeps-refl dev w)

pub remove-Keeps : (env : Windows) (dev : ℕ) (w : World) → Keeps dev w (remove_driver env w).1
unfolding remove_driver
remove-Keeps env dev w = removed-Keeps env dev env.class_drivers w
