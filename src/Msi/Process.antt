-- ===== src/Msi/Process.antt =====
-- MsiProcess and WriteRegKeys of msm/msi.c.
use tap_windows.Base.{
  ℕ, Bool, true, false, not, List, [], ◌∷◌, Option, none, some, ◌==◌, if◌then◌else◌, bytes_eq,
}
use tap_windows.Installer.{Call, RegKey, World, Windows, ask}
use tap_windows.Installer.Actions.{install_or_update, uninstall}
use tap_windows.Msi.{action_install, action_uninstall, separator}

-- _tcschr for the separator, with the text before it and what follows it
unfoldable pub split_separator : List ℕ → List ℕ × Option (List ℕ)
split_separator [] = ([], none)
split_separator (c ∷ text) =
    let (before, after) = split_separator text in
    if c == separator then ([], some text) else (c ∷ before, after)

-- RegCreateKeyEx: a key that is there is opened.
unfoldable pub opened_key : Option RegKey → RegKey
opened_key none = record {
  installer_hash = none;
  installer_buildtime = none;
  installer_version = none;
}
opened_key (some key) = key

unfoldable pub set_hash : List ℕ → RegKey → RegKey
set_hash text key = record key { installer_hash = some text }

unfoldable pub set_time : List ℕ → RegKey → RegKey
set_time text key = record key { installer_buildtime = some text }

unfoldable pub set_version : List ℕ → RegKey → RegKey
set_version text key = record key { installer_version = some text }

-- One RegSetValueEx, unless an earlier one failed
unfoldable pub set_value : Windows → ℕ → (RegKey → RegKey) → Bool × World → Bool × World
unfolding ask
set_value env i change (earlier, w) =
    let (ok, v) = ask env (Call.set_value i) w in
    if not earlier
    then (false, w)
    else if ok
    then (true, record v { reg_key = some (change (opened_key v.reg_key)) })
    else (false, v)

unfoldable pub write_values : Windows → List ℕ → List ℕ → List ℕ → World → Bool × World
unfolding ask opened_key set_value set_hash set_time set_version
write_values env hash time version w =
    let (ok, v) = ask env Call.create_key w in
    let opened = record v { reg_key = some (opened_key v.reg_key) } in
    if ok
    then set_value env 2 (set_version version)
        (set_value env 1 (set_time time) (set_value env 0 (set_hash hash) (true, opened)))
    else (false, v)

-- WriteRegKeys after the first separator, and after the second
unfoldable pub write_second : Windows → List ℕ → List ℕ × Option (List ℕ) → World → Bool × World
unfolding write_values
write_second env hash (text, none) w = (false, w)
write_second env hash (time, some version) w = write_values env hash time version w

unfoldable pub write_first : Windows → List ℕ × Option (List ℕ) → World → Bool × World
unfolding split_separator write_second
write_first env (values, none) w = (false, w)
write_first env (hash, some text) w = write_second env hash (split_separator text) w

-- WriteRegKeys
unfoldable pub write_reg_keys : Windows → List ℕ → World → Bool × World
unfolding split_separator write_first
write_reg_keys env values w = write_first env (split_separator values) w

unfoldable pub register_package : Windows → Option (List ℕ) → Bool × World → Bool × World
unfolding write_reg_keys
register_package env none r = r
register_package env (some values) (ret, w) =
    if ret then write_reg_keys env values w else (false, w)

-- Uninstall, and then the registry key is deleted
unfoldable pub remove_product : Windows → World → Bool × World
unfolding uninstall ask
remove_product env w =
    let (ret, v) = uninstall env w in
    let (ok, u) = ask env Call.delete_key v in
    if ret then (true, if ok then record u { reg_key = none } else u) else (false, v)

-- What MsiProcess does for a command, with the values for the registry
unfoldable pub run_command : Windows → List ℕ × Option (List ℕ) → World → Bool × World
unfolding register_package install_or_update remove_product
run_command env (command, reg_values) w =
    if bytes_eq command action_install
    then register_package env reg_values (install_or_update env w)
    else if bytes_eq command action_uninstall
    then remove_product env w
    else (true, w)

unfoldable pub process_action : Windows → List ℕ → World → Bool × World
unfolding split_separator run_command
process_action env value w = run_command env (split_separator value) w

-- ERROR_INSTALL_FAILED
abbrev pub error_install_failed : ℕ
error_install_failed = 15609

abbrev pub error_of : ℕ → ℕ
error_of last_error = if last_error == 0 then error_install_failed else last_error

-- MsiProcess, where MsiGetProperty gives a code and the value
unfoldable pub msi_process : Windows → ℕ → List ℕ → World → ℕ × World
unfolding process_action
msi_process env code value w =
    let (ret, v) = process_action env value w in
    if code == 0 then (if ret then 0 else error_of (env.last_error v.calls), v) else (code, w)
