-- ===== src/Msi/Versions.antt =====
-- ParseVersion of msm/msi.c orders versions by their numbers.
use tap_windows.Base.{
  ℕ, ◌+◌, ◌*◌, ◌^◌, ◌<◌, ◌≡◌, ◌∙◌, ap₂, arith, Bool, true, false, if◌then◌else◌, ltb, leb, bit_or,
  bit_or-add, List,
}
use tap_windows.Msi.{VersionNumber, Runtime, shift_left, pack_version, parse_version}

-- Each number fits into its 16 bits.
pub record Fits (v : VersionNumber) : Type 0 where
  pub major_fits : v.major < 2 ^ 16
  pub minor_fits : v.minor < 2 ^ 16
  pub revision_fits : v.revision < 2 ^ 16
  pub build_fits : v.build < 2 ^ 16

-- Versions in order: by the first number in which they differ
abbrev pub lex_le : VersionNumber → VersionNumber → Bool
lex_le u v =
    if ltb u.major v.major
    then true
    else if ltb v.major u.major
    then false
    else if ltb u.minor v.minor
    then true
    else if ltb v.minor u.minor
    then false
    else if ltb u.revision v.revision
    then true
    else if ltb v.revision u.revision
    then false
    else leb u.build v.build

-- A number in 16 bits is put below one that is shifted, where `x` is that one.
or_below : (q k r x y : ℕ) → x ≡ q * 2 ^ k → y ≡ r → r < 2 ^ k → bit_or x y ≡ q * 2 ^ k + r
or_below q k r x y e f h = ap₂ bit_or e f ∙ bit_or-add k q r h

pack_value :
    (v : VersionNumber)
    → Fits v
    → pack_version v ≡ ((v.major * 2 ^ 16 + v.minor) * 2 ^ 16 + v.revision) * 2 ^ 16 + v.build
unfolding pack_version
pack_value v f =
    let a =
      or_below v.major 48 (v.minor * 2 ^ 32) (shift_left v.major 48) (shift_left v.minor 32)
        (omega arith) (omega arith) (omega arith) in
    let b =
      or_below (v.major * 2 ^ 16 + v.minor) 32 (v.revision * 2 ^ 16) _ (shift_left v.revision 16)
        (a ∙ omega arith) (omega arith) (omega arith) in
    let c =
      or_below ((v.major * 2 ^ 16 + v.minor) * 2 ^ 16 + v.revision) 16 v.build _
        (shift_left v.build 0) (b ∙ omega arith) (omega arith) (omega arith) in
    c

-- Of two texts whose numbers fit into 16 bits each, the comparison of what ParseVersion gives is the
-- comparison of the versions by their major numbers, then by their minor numbers, then by the
-- revisions and then by the builds.
pub parse_version-lex_le :
    (rt : Runtime) (old new : List ℕ)
    → Fits (rt.scan_version old)
    → Fits (rt.scan_version new)
    → leb (parse_version rt old) (parse_version rt new)
      ≡ lex_le (rt.scan_version old) (rt.scan_version new)
unfolding parse_version
parse_version-lex_le rt old new f g =
    ground (arith, pack_value (rt.scan_version old) f, pack_value (rt.scan_version new) g)
