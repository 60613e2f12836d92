-- ===== src/Installer/Actions.antt =====
-- InstallOrUpdate and Uninstall of msm/installation.c.
use tap_windows.Base.{
  ℕ, ◌-◌, Bool, true, false, List, [], ◌∷◌, Option, none, some, if◌then◌else◌, length,
}
use tap_windows.Installer.{
  Device, World, Windows, is_driver_loaded, ensure_driver_unloaded, disable_our_adapters,
  enable_our_adapters, remove_our_adapters,
}
use tap_windows.Installer.Package.{install_driver, remove_driver}

unfoldable pub is_nonempty : List ℕ → Bool
is_nonempty [] = false
is_nonempty (dev ∷ devs) = true

unfoldable pub disable_and_wait : Windows → List (Option Device) → World → List ℕ × World
unfolding disable_our_adapters ensure_driver_unloaded
disable_and_wait env set w =
    let (ret, disabled, v) = disable_our_adapters env set true [] w in
    (disabled, (ensure_driver_unloaded env 300 v).1)

-- The part of InstallOrUpdate that gets the driver out of the kernel, with the list of the adapters
-- that it disabled
unfoldable pub unload_driver : Windows → List (Option Device) → World → List ℕ × World
unfolding is_driver_loaded disable_and_wait
unload_driver env set w =
    let (loaded, v) = is_driver_loaded env w in
    if loaded then disable_and_wait env set v else ([], v)

-- The label cleanupAdapters of InstallOrUpdate: the adapters are enabled, and the nodes of the list
-- are freed.
unfoldable pub cleanup_adapters : Windows → List ℕ → World → World
unfolding enable_our_adapters
cleanup_adapters env devs w =
    let v = (enable_our_adapters env devs true w).1 in record v { nodes = v.nodes - length devs }

unfoldable pub replace_driver : Windows → Option (List (Option Device)) → World → Bool × World
unfolding unload_driver remove_driver install_driver cleanup_adapters is_nonempty
replace_driver env none w = (false, w)
replace_driver env (some set) w =
    let (existing, v) = unload_driver env set w in
    let removed = (remove_driver env v).1 in
    let (ret, u) = install_driver env (is_nonempty existing) removed in
    (ret, cleanup_adapters env existing u)

-- InstallOrUpdate
unfoldable pub install_or_update : Windows → World → Bool × World
unfolding replace_driver
install_or_update env w = replace_driver env env.device_info_set w

unfoldable pub remove_all : Windows → Option (List (Option Device)) → World → Bool × World
unfolding remove_our_adapters remove_driver
remove_all env none w = (false, w)
remove_all env (some set) w = remove_driver env (remove_our_adapters env set true w).1

-- Uninstall
unfoldable pub uninstall : Windows → World → Bool × World
unfolding remove_all
uninstall env w = remove_all env env.device_info_set w
