-- ===== src/Checksum/Fold.antt =====
-- The carry loop of the checksums against the ones' complement sum.
use tap_windows.Base.{
  ℕ, zero, suc, ◌+◌, ◌-◌, ◌*◌, ◌/◌, ◌%◌, ◌^◌, ◌≤◌, ◌<◌, ◌≡◌, arith, ◌==◌, if◌then◌else◌,
}
use native.Mathlib.Decide.{dec_lt}
use tap_windows.Checksum.{fold_carries, fold_fuel, complement, finish}

-- The ones' complement residue of a sum of 16-bit words: 0 for the empty sum alone.
abbrev pub residue : ℕ → ℕ
residue s = if s == 0 then 0 else 1 + (s - 1) % 65535

fold_done : (k s : ℕ) → s < 2 ^ 16 → fold_carries k s ≡ s
unfolding fold_carries
fold_done zero s h = ground arith
fold_done (suc k) s h = ground arith

fold_step :
    (k s : ℕ)
    → 2 ^ 16 ≤ s
    → s < 2 ^ 32
    → fold_carries (suc k) s ≡ fold_carries k (s % 2 ^ 16 + s / 2 ^ 16)
unfolding fold_carries
fold_step k s lo hi = ground arith

-- One round brings a 32-bit sum below 2 * 65535, and the next one brings that below 2 ^ 16.
fold_twice : (k s : ℕ) → s ≤ 2 * 65535 → fold_carries (suc k) s ≡ residue s
fold_twice k s h = elim (dec_lt s (2 ^ 16)) [
  | yes small ↦ ground (arith, fold_done (suc k) s small)
  | no big ↦ ground (
    arith,
    fold_step k s (omega arith) (omega arith),
    fold_done k (s % 2 ^ 16 + s / 2 ^ 16) (omega arith),
  )
]

-- For every 32-bit sum the carry loop ends within three rounds: more fuel changes nothing, and the
-- result is the ones' complement residue of the sum, a 16-bit word.
pub fold_carries_lem : (k s : ℕ) → s < 2 ^ 32 → fold_carries (suc (suc k)) s ≡ residue s
fold_carries_lem k s h = elim (dec_lt s (2 ^ 16)) [
  | yes small ↦ ground (arith, fold_done (suc (suc k)) s small)
  | no big ↦ ground (
    arith,
    fold_step (suc k) s (omega arith) h,
    fold_twice k (s % 2 ^ 16 + s / 2 ^ 16) (omega arith),
  )
]

-- A checksum, added to the sum that it was computed from, makes the checksum 0.
pub finish-add_finish : (s : ℕ) → s + 2 ^ 16 ≤ 2 ^ 32 → finish (s + finish s) ≡ 0
unfolding finish
finish-add_finish s h =
    let e : fold_carries fold_fuel s ≡ residue s = fold_carries_lem 1 s (omega arith) in
    rw e (ground (arith, fold_carries_lem 1 (s + complement (residue s))))
