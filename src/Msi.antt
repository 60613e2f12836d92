-- ===== src/Msi.antt =====
-- The custom actions that the installer package calls: msm/msi.c. MsiEvaluate decides what is to be
-- done and puts it into a property, and MsiProcess does what that property says.
pub mod Process
pub mod Versions
pub mod Upgrade
use tap_windows.Base.{
  ℕ, zero, suc, ◌*◌, ◌%◌, ◌+◌, ◌^◌, Bool, true, false, not, ◌&&◌, ◌||◌, List, [], ◌∷◌, ◌++◌, Option,
  none, some, ◌==◌, if◌then◌else◌, leb, bit_or, bytes_eq,
}
use tap_windows.Installer.{Call, RegKey, World, Windows, ask}
use tap_windows.Installer.Actions.{install_or_update, uninstall}

-- INSTALLSTATE; the other values are not asked for.
pub data InstallState : Type 0 where
  local source default absent removed unknown : InstallState

abbrev pub is_present : InstallState → Bool
is_present InstallState.local = true
is_present InstallState.source = true
is_present _ = false

abbrev pub is_default : InstallState → Bool
is_default InstallState.default = true
is_default _ = false

abbrev pub is_gone : InstallState → Bool
is_gone InstallState.absent = true
is_gone InstallState.removed = true
is_gone _ = false

-- IsInstalling, IsReInstalling and IsUninstalling
unfoldable pub is_installing : InstallState → InstallState → Bool
is_installing install_state action_state =
    is_present action_state || (is_default action_state && is_present install_state)

unfoldable pub is_re_installing : InstallState → InstallState → Bool
is_re_installing install_state action_state =
    (is_present action_state || is_default action_state) && is_present install_state

unfoldable pub is_uninstalling : InstallState → InstallState → Bool
is_uninstalling install_state action_state = is_gone action_state && is_present install_state

-- The four numbers of a version, 0 where the text has none.
pub record VersionNumber : Type 0 where
  pub major : ℕ
  pub minor : ℕ
  pub revision : ℕ
  pub build : ℕ

-- The C runtime: _stscanf_s for "%u.%u.%u.%u", and _tstoll as the 64 bits that it gives.
pub record Runtime : Type 0 where
  pub scan_version : List ℕ → VersionNumber
  pub to_int64 : List ℕ → ℕ

abbrev pub shift_left : ℕ → ℕ → ℕ
shift_left x k = x * 2 ^ k % 2 ^ 64

-- What ParseVersion makes of the four numbers.
unfoldable pub pack_version : VersionNumber → ℕ
pack_version v =
    bit_or
      (bit_or (bit_or (shift_left v.major 48) (shift_left v.minor 32)) (shift_left v.revision 16))
      (shift_left v.build 0)

-- ParseVersion
unfoldable pub parse_version : Runtime → List ℕ → ℕ
unfolding pack_version
parse_version rt text = pack_version (rt.scan_version text)

-- a >= b for INT64
abbrev pub ge_int64 : ℕ → ℕ → Bool
ge_int64 a b = leb ((b + 2 ^ 63) % 2 ^ 64) ((a + 2 ^ 63) % 2 ^ 64)

-- "/Action=Install" and "/Action=Uninstall"
abbrev pub action : List ℕ
action = 0x2f ∷ b'A' ∷ b'c' ∷ b't' ∷ b'i' ∷ b'o' ∷ b'n' ∷ 0x3d ∷ []

abbrev pub action_install : List ℕ
action_install = action ++ (b'I' ∷ b'n' ∷ b's' ∷ b't' ∷ b'a' ∷ b'l' ∷ b'l' ∷ [])

abbrev pub action_uninstall : List ℕ
action_uninstall = action ++ (b'U' ∷ b'n' ∷ b'i' ∷ b'n' ∷ b's' ∷ b't' ∷ b'a' ∷ b'l' ∷ b'l' ∷ [])

abbrev pub separator : ℕ
separator = 0x2d

-- The text that Newer prints for a hash, a build time and a version
unfoldable pub install_action : List ℕ → List ℕ → List ℕ → List ℕ
install_action hash time version =
    action_install ++ (separator ∷ hash ++ (separator ∷ time ++ (separator ∷ version)))

-- Newer, from the registry on: whether the package goes over what the registry names
unfoldable pub is_newer : Runtime → Bool → List ℕ → List ℕ → List ℕ → Option RegKey → Bool
unfolding parse_version
is_newer rt skip_hash hash time version none = true
is_newer rt skip_hash hash time version (some key) = elim key.installer_hash [
  | none ↦ true
  | some old_hash ↦ elim key.installer_buildtime [
    | none ↦ true
    | some old_time ↦ elim key.installer_version [
      | none ↦ true
      | some old_version ↦
          leb (parse_version rt old_version) (parse_version rt version)
          && ge_int64 (rt.to_int64 time) (rt.to_int64 old_time)
          && (skip_hash || not (bytes_eq hash old_hash))
    ]
  ]
]

-- The properties of the package: its hash, its build time and its version, as far as they can be
-- read.
pub record Package : Type 0 where
  pub new_hash : Option (List ℕ)
  pub new_time : Option (List ℕ)
  pub new_version : Option (List ℕ)

-- Newer, with the text for the property
unfoldable pub newer : Runtime → Bool → Package → Option RegKey → Bool × List ℕ
unfolding is_newer install_action
newer rt skip_hash p key = elim p.new_hash [
  | none ↦ (false, [])
  | some hash ↦ elim p.new_time [
    | none ↦ (false, [])
    | some time ↦ elim p.new_version [
      | none ↦ (false, [])
      | some version ↦
          (is_newer rt skip_hash hash time version key, install_action hash time version)
    ]
  ]
]

-- What Windows Installer answers to MsiEvaluate: whether there is a database; the codes of the five
-- calls up to the state of the component; that state; the package; and the codes of MsiSetProperty
-- and MsiDoAction.
pub record Session : Type 0 where
  pub has_database : Bool
  pub query_codes : List ℕ
  pub install_state : InstallState
  pub action_state : InstallState
  pub product : Package
  pub set_property : List ℕ → ℕ
  pub do_action : ℕ

abbrev pub error_install_failure : ℕ
error_install_failure = 1603

-- The first code that is not ERROR_SUCCESS
unfoldable pub first_error : List ℕ → ℕ
first_error [] = 0
first_error (c ∷ codes) = if c == 0 then first_error codes else c

-- What MsiEvaluate sets the property of the process action to, if it does
unfoldable pub chosen_action : Runtime → Session → Option RegKey → Option (List ℕ)
unfolding newer is_installing is_re_installing is_uninstalling
chosen_action rt s key =
    let re = is_re_installing s.install_state s.action_state in
    let (go, text) = newer rt re s.product key in
    if (re || is_installing s.install_state s.action_state) && go
    then some text
    else if is_uninstalling s.install_state s.action_state
    then some action_uninstall
    else none

unfoldable pub set_action : Session → Option (List ℕ) → ℕ
set_action s none = 0
set_action s (some text) = s.set_property text

-- MsiEvaluate: its result, the text of the property, and whether it asks for no rollback
unfoldable pub msi_evaluate : Runtime → Session → Option RegKey → ℕ × Option (List ℕ) × Bool
unfolding first_error chosen_action set_action
msi_evaluate rt s key =
    let failed = first_error s.query_codes in
    let text = chosen_action rt s key in
    let code = set_action s text in
    if not s.has_database
    then (error_install_failure, none, false)
    else if failed == 0
    then if code == 0 then (s.do_action, text, true) else (code, text, false)
    else (failed, none, false)
