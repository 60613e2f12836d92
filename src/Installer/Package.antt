-- ===== src/Installer/Package.antt =====
-- The driver package: CopyResource, InstallDriverCertificate, InstallDriver and RemoveDriver of
-- msm/installation.c.
use tap_windows.Base.{
  ℕ, suc, Bool, true, false, not, ◌&&◌, ◌||◌, List, [], ◌∷◌, ◌++◌, Option, none, some,
  if◌then◌else◌,
}
use tap_windows.Installer.{File, Call, DriverInfo, World, Windows, ask, is_our_driver}

-- A call whose result is not looked at.
unfoldable pub tell : Windows → Call → World → World
unfolding ask
tell env c w = (ask env c w).1

-- One call after another, as long as they succeed
unfoldable pub ask_all : Windows → List Call → World → Bool × World
unfolding ask
ask_all env [] w = (true, w)
ask_all env (c ∷ calls) w =
    let (ok, v) = ask env c w in let rest = ask_all env calls v in if ok then rest else (false, v)

-- CopyResource: the four steps that reach the resource are one call.
abbrev pub copy_resource : File → List Call
copy_resource f = Call.open_resource f ∷ Call.create_file f ∷ Call.write_file f ∷ []

-- The loop of InstallDriverCertificate over the certificates of the package, where true stands for
-- one that is not of an authority
unfoldable pub add_certificates : Windows → List Bool → ℕ → Bool → World → Bool × World
unfolding ask
add_certificates env [] i ret w = (ret, w)
add_certificates env (leaf ∷ rest) i ret w =
    let (ok, v) = if leaf then ask env (Call.add_certificate i) w else (true, w) in
    add_certificates env rest (suc i) (ret && ok) v

-- InstallDriverCertificate. If the store cannot be opened, the result is TRUE.
unfoldable pub install_driver_certificate : Windows → World → Bool × World
unfolding ask add_certificates
install_driver_certificate env w =
    let (found, u) = ask env Call.find_certificates w in
    let (opened, v) = ask env Call.open_trusted u in
    if not found
    then (false, u)
    else if opened
    then add_certificates env env.certificates 0 true v
    else (true, v)

-- The loop of InstallDriver over the hardware IDs
unfoldable pub update_drivers : Windows → Bool → List ℕ → World → World
unfolding ask
update_drivers env update_existing [] w = w
update_drivers env update_existing (i ∷ ids) w =
    let v = if update_existing then (ask env (Call.update_driver i) w).1 else w in
    let reboot = update_existing && env.needs_reboot v.calls in
    update_drivers env update_existing ids (record v { reboot = v.reboot || reboot })

-- The label cleanupDelete of InstallDriver
unfoldable pub cleanup_delete : Windows → World → World
unfolding tell
cleanup_delete env w = tell env Call.remove_directory (
    tell env (Call.delete_file File.inf)
      (tell env (Call.delete_file File.sys) (tell env (Call.delete_file File.cat) w)))

abbrev pub copy_resources : List Call
copy_resources = copy_resource File.cat ++ (copy_resource File.sys ++ copy_resource File.inf)

-- InstallDriver from SetupCopyOEMInf to its end
unfoldable pub setup_driver : Windows → Bool → World → Bool × World
unfolding ask update_drivers cleanup_delete
setup_driver env update_existing w =
    let (ok, v) = ask env Call.copy_oem_inf w in
    (ok, cleanup_delete env (update_drivers env update_existing (0 ∷ 1 ∷ []) v))

-- InstallDriver from the certificate to its end
unfoldable pub fill_directory : Windows → Bool → World → Bool × World
unfolding install_driver_certificate ask_all setup_driver cleanup_delete
fill_directory env update_existing w =
    let trusted = if env.use_whql then w else (install_driver_certificate env w).1 in
    let (ok, v) = ask_all env copy_resources trusted in
    if ok then setup_driver env update_existing v else (false, cleanup_delete env v)

-- The three paths in the directory; a failure goes to cleanupFree with the result of
-- CreateDirectory, which is TRUE.
abbrev pub combine_paths : List Call
combine_paths =
    Call.combine_path File.cat ∷ Call.combine_path File.sys ∷ Call.combine_path File.inf ∷ []

unfoldable pub use_directory : Windows → Bool → World → Bool × World
unfolding ask_all fill_directory
use_directory env update_existing w =
    let (ok, v) = ask_all env combine_paths w in
    if ok then fill_directory env update_existing v else (true, v)

-- The steps of InstallDriver up to its directory
abbrev pub make_directory : List Call
make_directory =
    Call.get_windows_directory ∷ Call.combine_temp ∷ Call.random_bytes ∷ Call.combine_directory
    ∷ Call.security_descriptor ∷ Call.create_directory ∷ []

-- InstallDriver
unfoldable pub install_driver : Windows → Bool → World → Bool × World
unfolding ask_all use_directory
install_driver env update_existing w =
    let (ok, v) = ask_all env make_directory w in
    if ok then use_directory env update_existing v else (false, v)

-- The loop of RemoveDriver; an element whose enumeration or details fail ends it with the result so
-- far.
unfoldable pub remove_drivers : Windows → List DriverInfo → Bool → World → Bool × World
unfolding ask is_our_driver
remove_drivers env [] ret w = (ret, w)
remove_drivers env (d ∷ ds) ret w =
    let (ok, v) =
      if is_our_driver env d.hardware_id
      then ask env (Call.uninstall_inf d.inf_file_name) w
      else (true, w) in
    let rest = remove_drivers env ds (ret && ok) v in
    if d.enumerated && d.sized && d.allocated && d.detailed then rest else (ret, w)

unfoldable pub remove_listed : Windows → Option (List DriverInfo) → World → Bool × World
unfolding remove_drivers
remove_listed env none w = (false, w)
remove_listed env (some ds) w =
    if env.builds_class_list then remove_drivers env ds true w else (false, w)

-- RemoveDriver
unfoldable pub remove_driver : Windows → World → Bool × World
unfolding remove_listed
remove_driver env w = remove_listed env env.class_drivers w
