-- ===== src/Installer.antt =====
-- The installer's custom actions: what they ask of Windows, and the adapters of the machine, of
-- msm/installation.c. Windows is an environment whose answers may depend on all that was asked
-- before.
pub mod Package
pub mod Actions
pub mod Counts
pub mod Kept
pub mod Restored
use tap_windows.Base.{
  ℕ, zero, suc, ◌+◌, ◌-◌, Bool, true, false, not, ◌&&◌, ◌||◌, List, [], ◌∷◌, ◌++◌, Option, none,
  some, ◌==◌, if◌then◌else◌, ltb, leb, bytes_eq, map,
}

-- DICS_DISABLE, DICS_ENABLE and DIF_REMOVE
pub data Change : Type 0 where
  disable enable remove : Change

-- The files that are unpacked.
pub data File : Type 0 where
  cat sys inf : File

-- What is asked of Windows: the install parameters of a device, the class installer, the driver list
-- of the kernel, a pause, the steps with files, certificates and drivers, and the registry.
pub data Call : Type 0 where
  malloc_node : Call
  set_install_params call_class_installer : Change → ℕ → Call
  query_drivers sleep : Call
  get_windows_directory combine_temp random_bytes combine_directory security_descriptor : Call
  create_directory remove_directory : Call
  combine_path : File → Call
  open_resource create_file write_file delete_file : File → Call
  find_certificates open_trusted : Call
  add_certificate : ℕ → Call
  copy_oem_inf : Call
  update_driver : ℕ → Call
  uninstall_inf : List ℕ → Call
  create_key : Call
  set_value : ℕ → Call
  delete_key : Call

-- A driver of a driver list: whether it is enumerated, whether the size of its details and then the
-- details are answered, and whether there is memory for them.
pub record DriverInfo : Type 0 where
  pub enumerated : Bool
  pub sized : Bool
  pub allocated : Bool
  pub detailed : Bool
  pub hardware_id : List ℕ
  pub inf_file_name : List ℕ

-- A network device: its list of compatible drivers, if that is built, and what
-- CM_Get_DevNode_Status says.
pub record Device : Type 0 where
  pub dev_inst : ℕ
  pub compat_drivers : Option (List DriverInfo)
  pub status_known : Bool
  pub has_problem : Bool
  pub problem_disabled : Bool

-- The values under the registry key of the product, where they are texts.
pub record RegKey : Type 0 where
  pub installer_hash : Option (List ℕ)
  pub installer_buildtime : Option (List ℕ)
  pub installer_version : Option (List ℕ)

-- What was asked and whether it succeeded, the latest first; the nodes of the list of adapters that
-- are allocated; the registry key; and whether a reboot was asked for.
pub record World : Type 0 where
  pub calls : List (Call × Bool)
  pub nodes : ℕ
  pub reg_key : Option RegKey
  pub reboot : Bool

-- Windows. `device_info_set` is the set of the present network devices, where none stands for an
-- element whose enumeration fails; `base_names` are those of the drivers in the kernel; the rest is
-- the list of class drivers, the certificates of the package with whether each may be trusted, its
-- version, the reboots that driver updates ask for, and the last error.
pub record Windows : Type 0 where
  pub succeeds : List (Call × Bool) → Call → Bool
  pub device_info_set : Option (List (Option Device))
  pub base_names : List (Call × Bool) → List (List ℕ)
  pub class_drivers : Option (List DriverInfo)
  pub builds_class_list : Bool
  pub certificates : List Bool
  pub use_whql : Bool
  pub needs_reboot : List (Call × Bool) → Bool
  pub last_error : List (Call × Bool) → ℕ
  pub component_id : List ℕ

-- A call, and whether it succeeds.
unfoldable pub ask : Windows → Call → World → Bool × World
ask env c w = let ok = env.succeeds w.calls c in (ok, record w { calls = (c, ok) ∷ w.calls })

-- The letters without case, for _tcsicmp.
abbrev pub to_lower : ℕ → ℕ
to_lower c = if leb b'A' c && leb c b'Z' then c + 32 else c

abbrev pub icase_eq : List ℕ → List ℕ → Bool
icase_eq a b = bytes_eq (map to_lower a) (map to_lower b)

-- "root\" and ".sys"
abbrev pub root_prefix : List ℕ
root_prefix = b'r' ∷ b'o' ∷ b'o' ∷ b't' ∷ 0x5c ∷ []

abbrev pub sys_suffix : List ℕ
sys_suffix = 0x2e ∷ b's' ∷ b'y' ∷ b's' ∷ []

-- IsOurDriver
unfoldable pub is_our_driver : Windows → List ℕ → Bool
is_our_driver env hardware_id =
    icase_eq hardware_id (root_prefix ++ env.component_id) || icase_eq hardware_id env.component_id

-- The loop of IsDriverLoaded over the names
unfoldable pub has_name : List ℕ → List (List ℕ) → Bool
has_name name [] = false
has_name name (base ∷ rest) = icase_eq base name || has_name name rest

-- IsDriverLoaded
unfoldable pub is_driver_loaded : Windows → World → Bool × World
unfolding ask has_name
is_driver_loaded env w =
    let (ok, v) = ask env Call.query_drivers w in
    (ok && has_name (env.component_id ++ sys_suffix) (env.base_names v.calls), v)

-- EnsureDriverUnloaded, with so many pauses left
unfoldable pub ensure_driver_unloaded : Windows → ℕ → World → Bool × World
unfolding ask is_driver_loaded
ensure_driver_unloaded env zero w = let (loaded, v) = is_driver_loaded env w in (not loaded, v)
ensure_driver_unloaded env (suc n) w =
    let (loaded, v) = is_driver_loaded env w in
    let rest = ensure_driver_unloaded env n (ask env Call.sleep v).1 in
    if loaded then rest else (true, v)

-- The loop of IsOurAdapter over the compatible drivers
unfoldable pub any_our_driver : Windows → List DriverInfo → Bool
unfolding is_our_driver
any_our_driver env [] = false
any_our_driver env (d ∷ ds) =
    (d.enumerated && d.sized && d.allocated && d.detailed && is_our_driver env d.hardware_id)
    || any_our_driver env ds

-- IsOurAdapter
unfoldable pub is_our_adapter : Windows → Device → Bool
unfolding any_our_driver
is_our_adapter env d = elim d.compat_drivers [ none ↦ false | some ds ↦ any_our_driver env ds ]

-- SetupDiSetClassInstallParams and then SetupDiCallClassInstaller
unfoldable pub change_device : Windows → Change → ℕ → World → Bool × World
unfolding ask
change_device env change dev w =
    let (ok, v) = ask env (Call.set_install_params change dev) w in
    if ok then ask env (Call.call_class_installer change dev) v else (false, v)

-- Whether DisableOurAdapters leaves a device as it is.
unfoldable pub is_left : Windows → Device → Bool
unfolding is_our_adapter
is_left env d =
    not (is_our_adapter env d) || not d.status_known || (d.has_problem && d.problem_disabled)

unfoldable pub drop_node : World → World
drop_node w = record w { nodes = w.nodes - 1 }

-- What DisableOurAdapters does with an element of the set.
pub data Visit : Type 0 where
  no_memory skipped failed : Visit
  changed : ℕ → Visit

unfoldable pub visit_node : Windows → Option Device → World → Visit × World
unfolding change_device is_left drop_node
visit_node env none w = (Visit.skipped, drop_node w)
visit_node env (some d) w =
    if is_left env d
    then (Visit.skipped, drop_node w)
    else let (ok, v) = change_device env Change.disable d.dev_inst w in
      if ok then (Visit.changed d.dev_inst, v) else (Visit.failed, drop_node v)

unfoldable pub visit : Windows → Option Device → World → Visit × World
unfolding ask visit_node
visit env e w =
    let (ok, v) = ask env Call.malloc_node w in
    if ok then visit_node env e (record v { nodes = v.nodes + 1 }) else (Visit.no_memory, v)

-- DisableOurAdapters, from an element of the set on, with the result so far and the list of those
-- that it disabled, the latest first
unfoldable pub disable_our_adapters :
    Windows → List (Option Device) → Bool → List ℕ → World → Bool × List ℕ × World
unfolding ask visit
disable_our_adapters env [] ret disabled w =
    let (ok, v) = ask env Call.malloc_node w in (ret && ok, disabled, v)
disable_our_adapters env (e ∷ set) ret disabled w =
    let (r, v) = visit env e w in
    elim r [
      | no_memory ↦ (false, disabled, v)
      | skipped ↦ disable_our_adapters env set ret disabled v
      | failed ↦ disable_our_adapters env set false disabled v
      | changed dev ↦ disable_our_adapters env set ret (dev ∷ disabled) v
    ]

-- EnableOurAdapters
unfoldable pub enable_our_adapters : Windows → List ℕ → Bool → World → Bool × World
unfolding change_device
enable_our_adapters env [] ret w = (ret, w)
enable_our_adapters env (dev ∷ devs) ret w =
    let (ok, v) = change_device env Change.enable dev w in
    enable_our_adapters env devs (ret && ok) v

-- RemoveOurAdapters
unfoldable pub remove_our_adapters : Windows → List (Option Device) → Bool → World → Bool × World
unfolding change_device is_our_adapter
remove_our_adapters env [] ret w = (ret, w)
remove_our_adapters env (none ∷ set) ret w = remove_our_adapters env set ret w
remove_our_adapters env (some d ∷ set) ret w =
    let (ok, v) =
      if is_our_adapter env d then change_device env Change.remove d.dev_inst w else (true, w) in
    remove_our_adapters env set (ret && ok) v
