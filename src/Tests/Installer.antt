-- ===== src/Tests/Installer.antt =====
-- An installation over an adapter that is in use, and the package that it installs.
use tap_windows.Base.{ℕ, ◌+◌, ◌≡◌, refl, arith, true, false, List, [], ◌∷◌, ◌++◌, none, some, leb}
use tap_windows.Installer.{DriverInfo, Device, World, Windows, root_prefix, sys_suffix}
use tap_windows.Installer.Actions.{install_or_update}
use tap_windows.Installer.Counts.{disablings, enablings, total, disabled_by}
use tap_windows.Installer.Restored.{install_or_update-restores}
use tap_windows.Msi.{Runtime, parse_version, install_action, is_newer}
use tap_windows.Msi.Process.{msi_process}
use tap_windows.Msi.Versions.{lex_le, parse_version-lex_le}
use tap_windows.Msi.Upgrade.{Writes, key_of, installed-is_newer}

-- "tap"
abbrev tap : List ℕ
tap = b't' ∷ b'a' ∷ b'p' ∷ []

abbrev tap_driver : DriverInfo
tap_driver = record {
  enumerated = true;
  sized = true;
  allocated = true;
  detailed = true;
  hardware_id = root_prefix ++ tap;
  inf_file_name = b'o' ∷ [];
}

abbrev tap_device : Device
tap_device = record {
  dev_inst = 5;
  compat_drivers = some (tap_driver ∷ []);
  status_known = true;
  has_problem = false;
  problem_disabled = false;
}

-- Windows where each call succeeds, and the driver stays in the kernel
abbrev machine : Windows
machine = record {
  succeeds = λ calls c. true;
  device_info_set = some (some tap_device ∷ none ∷ []);
  base_names = λ calls. (tap ++ sys_suffix) ∷ [];
  class_drivers = some (tap_driver ∷ []);
  builds_class_list = true;
  certificates = true ∷ false ∷ [];
  use_whql = false;
  needs_reboot = λ calls. false;
  last_error = λ calls. 0;
  component_id = tap;
}

abbrev before : World
before = record { calls = []; nodes = 0; reg_key = none; reboot = false }

install_or_update-restores_example :
    let v = (install_or_update machine before).1 in
    (enablings 5 v + disablings 5 before ≡ disablings 5 v + enablings 5 before)
    × (v.nodes ≡ before.nodes)
install_or_update-restores_example = install_or_update-restores machine 5 before

-- It disables the device once.
disabled_once : disablings 5 (install_or_update machine before).1 ≡ 1
unfolding install_or_update disablings total disabled_by
disabled_once = refl

-- A runtime that reads one digit and "9.x.y" as the version 9.x.y.0
abbrev runtime : Runtime
runtime = record {
  scan_version = λ text. record { major = digit text; minor = 24; revision = 0; build = 0 };
  to_int64 = digit;
}
  where
    digit : List ℕ → ℕ
    digit [] = 0
    digit (c ∷ text) = c

parse_version-lex_le_example :
    leb (parse_version runtime (9 ∷ [])) (parse_version runtime (10 ∷ []))
    ≡ lex_le (runtime.scan_version (9 ∷ [])) (runtime.scan_version (10 ∷ []))
parse_version-lex_le_example =
    parse_version-lex_le runtime (9 ∷ []) (10 ∷ [])
      (record {
        major_fits = omega arith;
        minor_fits = omega arith;
        revision_fits = omega arith;
        build_fits = omega arith;
      })
      (record {
        major_fits = omega arith;
        minor_fits = omega arith;
        revision_fits = omega arith;
        build_fits = omega arith;
      })

machine-Writes : Writes machine
machine-Writes = record { creates = λ calls. refl; sets = λ calls i. refl }

installs : (install_or_update machine before).0 ≡ true
unfolding install_or_update
installs = refl

older : leb (parse_version runtime (10 ∷ [])) (parse_version runtime (9 ∷ [])) ≡ false
unfolding parse_version
older = refl

-- "a" of the time 1 in the version 10.24, over which 9.24 is not installed
installed-is_newer_example :
    let (code, v) = msi_process machine 0 (install_action (b'a' ∷ []) (1 ∷ []) (10 ∷ [])) before in
    (code ≡ 0)
    × (v.reg_key ≡ some (key_of (b'a' ∷ []) (1 ∷ []) (10 ∷ [])))
    × (is_newer runtime false (b'a' ∷ []) (1 ∷ []) (10 ∷ []) v.reg_key ≡ false)
    × (is_newer runtime true (b'a' ∷ []) (1 ∷ []) (10 ∷ []) v.reg_key ≡ true)
    × (is_newer runtime true (b'b' ∷ []) (2 ∷ []) (9 ∷ []) v.reg_key ≡ false)
installed-is_newer_example =
    installed-is_newer machine runtime (b'a' ∷ []) (1 ∷ []) (10 ∷ []) before true (b'b' ∷ [])
      (2 ∷ []) (9 ∷ []) (omega arith, tt) (omega arith, tt) machine-Writes installs older
