-- ===== src/Base/Bits.antt =====
-- The bitwise or of a shifted number and one that fits below it is their sum.
use Prim.Native.Nat.{
  ℕ, zero, suc, ◌+◌, ◌*◌, ◌/◌, ◌%◌, ◌^◌, ◌≤◌, ◌<◌, max, bit_or, digits, bit_or-bitwise,
}
use mathlib.Core.Path.{◌≡◌, ◌∙◌, refl, ap}
use native.Mathlib.Omega.{arith}

-- The digits of a number, with enough of them to go.
or_zero : (n a : ℕ) → a ≤ n → digits (λ y. y) max n a 0 ≡ a
or_zero zero zero h = refl
or_zero zero (suc a) h = absurd (omega arith)
or_zero (suc n) zero h = refl
or_zero (suc n) (suc a) h = omega (arith, or_zero n (suc a / 2) (omega arith))

double : (k : ℕ) → 2 ^ suc k ≡ 2 * 2 ^ k
double k = omega arith

half_of_shifted : (k q x : ℕ) → x ≡ q * 2 ^ suc k → (x / 2 ≡ q * 2 ^ k) × (x % 2 ≡ 0)
half_of_shifted k q x e =
    let twice : 2 ^ suc k ≡ 2 * 2 ^ k = double k in
    let scaled = ap (λ (t : ℕ). q * t) twice in
    let moved : q * (2 * 2 ^ k) ≡ 2 * (q * 2 ^ k) = grind arith in
    (omega (arith, e, scaled, moved), omega (arith, e, scaled, moved))

or_shifted : (k n x q r : ℕ) → x ≡ q * 2 ^ k → x ≤ n → r < 2 ^ k → digits (λ y. y) max n x r ≡ x + r
or_shifted k zero zero q r e h fits = omega arith
or_shifted k zero (suc x) q r e h fits = absurd (omega arith)
or_shifted k (suc n) zero q r e h fits = omega arith
or_shifted zero (suc n) (suc x) q r e h fits =
    let none_left : r ≡ 0 = omega arith in rw none_left (or_zero (suc n) (suc x) h ∙ omega arith)
or_shifted (suc k) (suc n) (suc x) q r e h fits =
    let (half, even) = half_of_shifted k q (suc x) e in
    let rest =
      or_shifted k n (suc x / 2) q (r / 2) half (omega arith) (omega (arith, double k, fits)) in
    omega (arith, rest, even)

pub bit_or-add : (k q r : ℕ) → r < 2 ^ k → bit_or (q * 2 ^ k) r ≡ q * 2 ^ k + r
bit_or-add k q r h =
    let x = q * 2 ^ k in bit_or-bitwise x r ∙ or_shifted k x x q r refl (omega arith) h
