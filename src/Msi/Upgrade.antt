-- ===== src/Msi/Upgrade.antt =====
-- What MsiProcess of msm/msi.c writes to the registry is what MsiEvaluate reads there.
use tap_windows.Base.{
  ℕ, ◌≡◌, ◌≢◌, ◌∙◌, subst, refl, sym, ap, arith, Bool, true, false, List, [], ◌∷◌, ◌++◌, Option,
  some, if◌then◌else◌, leb, bytes_eq_refl,
}
use tap_windows.Installer.{Call, RegKey, World, Windows, ask}
use tap_windows.Installer.Actions.{install_or_update}
use tap_windows.Msi.{Runtime, parse_version, ge_int64, separator, install_action, is_newer}
use tap_windows.Msi.Process.{
  split_separator, opened_key, set_hash, set_time, set_version, set_value, write_values,
  write_reg_keys, register_package, process_action, run_command, write_first, write_second,
  msi_process,
}

-- A text without the separator
abbrev pub NoSeparator : List ℕ → Type 0
NoSeparator [] = Unit {0}
NoSeparator (c ∷ text) = (c ≢ separator) × NoSeparator text

-- The calls of the registry that write succeed.
pub record Writes (env : Windows) : Type 0 where
  pub creates : (calls : List (Call × Bool)) → env.succeeds calls Call.create_key ≡ true
  pub sets : (calls : List (Call × Bool)) (i : ℕ) → env.succeeds calls (Call.set_value i) ≡ true

split-append :
    (before after : List ℕ)
    → NoSeparator before
    → split_separator (before ++ (separator ∷ after)) ≡ (before, some after)
unfolding split_separator
split-append [] after h = refl
split-append (c ∷ before) after (other, h) = ground (arith, split-append before after h)

-- The registry key for a package
abbrev pub key_of : List ℕ → List ℕ → List ℕ → RegKey
key_of hash time version = record {
  installer_hash = some hash;
  installer_buildtime = some time;
  installer_version = some version;
}

-- A result that succeeded and left this key
IsKey : RegKey → Bool × World → Type 0
IsKey key (ok, w) = (ok ≡ true) × (w.reg_key ≡ some key)

created : (env : Windows) (w : World) → Writes env → (ask env Call.create_key w).0 ≡ true
unfolding ask
created env w writes = writes.creates w.calls

set_value-IsKey :
    (env : Windows) (i : ℕ) (change : RegKey → RegKey) (key : RegKey) (r : Bool × World)
    → Writes env
    → IsKey key r
    → IsKey (change key) (set_value env i change r)
unfolding set_value ask opened_key IsKey
set_value-IsKey env i change key (ok, w) writes (done, kept) =
    let set = writes.sets w.calls i in ground (arith, done, set, kept)

IsKey-branch :
    (key : RegKey) (b : Bool) (r s : Bool × World)
    → b ≡ true
    → IsKey key r
    → IsKey key (if b then r else s)
unfolding IsKey
IsKey-branch key true r s e h = h
IsKey-branch key false r s e h = cc

write_values-IsKey :
    (env : Windows) (hash time version : List ℕ) (w : World)
    → Writes env
    → IsKey (key_of hash time version) (write_values env hash time version w)
unfolding write_values set_hash set_time set_version IsKey
write_values-IsKey env hash time version w writes =
    let (ok, v) = ask env Call.create_key w in
    let key = opened_key v.reg_key in
    let opened : Bool × World = (true, record v { reg_key = some key }) in
    let one = set_value env 0 (set_hash hash) opened in
    let two = set_value env 1 (set_time time) one in
    let first = set_value-IsKey env 0 (set_hash hash) key opened writes (refl, refl) in
    let second = set_value-IsKey env 1 (set_time time) (set_hash hash key) one writes first in
    let third =
      set_value-IsKey env 2 (set_version version) (set_time time (set_hash hash key)) two writes
        second in
    IsKey-branch (key_of hash time version) ok (set_value env 2 (set_version version) two)
      (false, v) (created env w writes) third

register-IsKey :
    (env : Windows) (hash time version : List ℕ) (r : Bool × World)
    → NoSeparator hash
    → NoSeparator time
    → Writes env
    → r.0 ≡ true
    → IsKey
        (key_of hash time version)
        (register_package env (some (hash ++ (separator ∷ time ++ (separator ∷ version)))) r)
unfolding register_package write_reg_keys write_first write_second
register-IsKey env hash time version (ok, w) a b writes done =
    let written = write_values-IsKey env hash time version w writes in
    let second =
      subst
        (λ (p : List ℕ × Option (List ℕ)).
          IsKey (key_of hash time version) (write_second env hash p w))
        (sym (split-append time version b)) written in
    let first =
      subst
        (λ (p : List ℕ × Option (List ℕ)). IsKey (key_of hash time version) (write_first env p w))
        (sym (split-append hash (time ++ (separator ∷ version)) a)) second in
    rw done first

process-IsKey :
    (env : Windows) (hash time version : List ℕ) (w : World)
    → NoSeparator hash
    → NoSeparator time
    → Writes env
    → (install_or_update env w).0 ≡ true
    → IsKey (key_of hash time version) (process_action env (install_action hash time version) w)
unfolding process_action run_command install_action split_separator
process-IsKey env hash time version w a b writes installed =
    register-IsKey env hash time version (install_or_update env w) a b writes installed

ge_int64_refl : (a : ℕ) → ge_int64 a a ≡ true
ge_int64_refl a = ground arith

newer_same :
    (rt : Runtime) (hash time version : List ℕ) (skip_hash : Bool)
    → is_newer rt skip_hash hash time version (some (key_of hash time version)) ≡ skip_hash
unfolding is_newer
newer_same rt hash time version skip_hash =
    ground (arith, bytes_eq_refl hash, ge_int64_refl (rt.to_int64 time))

newer_lower :
    (rt : Runtime) (skip_hash : Bool)
    (hash time version other_hash other_time other_version : List ℕ)
    → leb (parse_version rt version) (parse_version rt other_version) ≡ false
    → is_newer rt skip_hash other_hash other_time other_version (some (key_of hash time version))
      ≡ false
unfolding is_newer
newer_lower rt skip_hash hash time version other_hash other_time other_version older = rw older

-- The property that Newer prints is processed: its hash and its build time have no separator, the
-- calls that write the registry succeed, and so does InstallOrUpdate. Then MsiProcess returns
-- ERROR_SUCCESS and the registry names the hash, the build time and the version that were printed.
-- For what the registry then names the same package is not newer, unless the hash is not compared
-- (it is installed again), and each package whose version is a lower number is not newer.
pub installed-is_newer :
    (env : Windows) (rt : Runtime) (hash time version : List ℕ) (w : World) (skip_hash : Bool)
    (other_hash other_time other_version : List ℕ)
    → NoSeparator hash
    → NoSeparator time
    → Writes env
    → (install_or_update env w).0 ≡ true
    → leb (parse_version rt version) (parse_version rt other_version) ≡ false
    → let (code, v) = msi_process env 0 (install_action hash time version) w in
      (code ≡ 0)
      × (v.reg_key ≡ some (key_of hash time version))
      × (is_newer rt false hash time version v.reg_key ≡ false)
      × (is_newer rt true hash time version v.reg_key ≡ true)
      × (is_newer rt skip_hash other_hash other_time other_version v.reg_key ≡ false)
unfolding msi_process IsKey
installed-is_newer env rt hash time version w skip_hash other_hash other_time other_version a b
      writes installed older =
    let (ok, kept) = process-IsKey env hash time version w a b writes installed in
    let same : is_newer rt false hash time version (some (key_of hash time version)) ≡ false =
      newer_same rt hash time version false in
    let again = newer_same rt hash time version true in
    let lower : is_newer rt skip_hash other_hash other_time other_version
          (some (key_of hash time version))
        ≡ false =
      newer_lower rt skip_hash hash time version other_hash other_time other_version older in
    let v = (process_action env (install_action hash time version) w).1 in
    (
      rw ok,
      kept,
      ap (is_newer rt false hash time version) kept ∙ same,
      ap (is_newer rt true hash time version) kept ∙ again,
      ap (is_newer rt skip_hash other_hash other_time other_version) kept ∙ lower,
    )
