-- ===== src/Base/Memory.antt =====
-- Writes to memory at an offset.
use tap_windows.Base.Lists.{length, take, drop, get_or}
use Prim.Native.Nat.{ℕ, zero, suc, ◌+◌, ◌≤◌}
use mathlib.Core.Path.{◌≡◌, refl, ap}
use mathlib.Core.List.{List, [], ◌∷◌, ◌++◌}
use native.Mathlib.Omega.{arith}

-- NdisMoveMemory (memory + offset, bytes, n). Bytes past the end of the memory are dropped: the
-- callers stay inside of it, and where that is to be shown a theorem says so.
abbrev pub write_at : List ℕ → ℕ → List ℕ → List ℕ
write_at [] o bytes = []
write_at (m ∷ memory) (suc o) bytes = m ∷ write_at memory o bytes
write_at (m ∷ memory) zero [] = m ∷ memory
write_at (m ∷ memory) zero (b ∷ bytes) = b ∷ write_at memory zero bytes

pub length-write_at : (m : List ℕ) (o : ℕ) (bs : List ℕ) → length (write_at m o bs) ≡ length m
length-write_at [] o bs = refl
length-write_at (x ∷ m) (suc o) bs = ap suc (length-write_at m o bs)
length-write_at (x ∷ m) zero [] = refl
length-write_at (x ∷ m) zero (b ∷ bs) = ap suc (length-write_at m zero bs)

pub take-write_at :
    (m : List ℕ) (o n : ℕ) (bs : List ℕ)
    → n ≡ o + length bs
    → n ≤ length m
    → take n (write_at m o bs) ≡ take o m ++ bs
take-write_at [] zero n [] e h = let q : n ≡ 0 = omega arith in rw q
take-write_at [] zero n (b ∷ bs) e h = absurd (omega arith)
take-write_at [] (suc o) n bs e h = absurd (omega arith)
take-write_at (x ∷ m) (suc o) zero bs e h = absurd (omega arith)
take-write_at (x ∷ m) (suc o) (suc n) bs e h =
    ap (λ r. x ∷ r) (take-write_at m o n bs (omega arith) (omega arith))
take-write_at (x ∷ m) zero n [] e h = let q : n ≡ 0 = omega arith in rw q
take-write_at (x ∷ m) zero zero (b ∷ bs) e h = absurd (omega arith)
take-write_at (x ∷ m) zero (suc n) (b ∷ bs) e h =
    ap (λ r. b ∷ r) (take-write_at m zero n bs (omega arith) (omega arith))

-- A list with its first `n` elements written out, so that an operation at fixed offsets computes.
abbrev pub cells : ℕ → List ℕ → List ℕ
cells zero xs = xs
cells (suc n) xs = get_or xs 0 0 ∷ cells n (drop 1 xs)

pub cells_lem : (n : ℕ) (xs : List ℕ) → n ≤ length xs → xs ≡ cells n xs
cells_lem zero xs h = refl
cells_lem (suc n) [] h = absurd (omega arith)
cells_lem (suc n) (x ∷ xs) h = ap (λ r. x ∷ r) (cells_lem n xs (omega arith))

-- A list of `n` elements, with all of them written out.
abbrev pub row : ℕ → List ℕ → List ℕ
row zero xs = []
row (suc n) xs = get_or xs 0 0 ∷ row n (drop 1 xs)

pub row_lem : (n : ℕ) (xs : List ℕ) → length xs ≡ n → xs ≡ row n xs
row_lem zero [] h = refl
row_lem zero (x ∷ xs) h = absurd (omega arith)
row_lem (suc n) [] h = absurd (omega arith)
row_lem (suc n) (x ∷ xs) h = ap (λ r. x ∷ r) (row_lem n xs (omega arith))

pub drop-later : (m n k : ℕ) (xs : List ℕ) → k ≡ m + n → drop k xs ≡ drop n (drop m xs)
drop-later zero n k xs e = let q : k ≡ n = omega (arith, e) in rw q
drop-later (suc m) n zero xs e = absurd (omega (arith, e))
drop-later (suc m) zero (suc k) [] e = refl
drop-later (suc m) (suc n) (suc k) [] e = refl
drop-later (suc m) n (suc k) (x ∷ xs) e = drop-later m n k xs (omega (arith, e))

pub drop-into : (n : ℕ) (xs ys : List ℕ) → n ≤ length xs → drop n (xs ++ ys) ≡ drop n xs ++ ys
drop-into zero xs ys h = refl
drop-into (suc n) [] ys h = absurd (omega arith)
drop-into (suc n) (x ∷ xs) ys h = drop-into n xs ys (omega arith)

pub take-write_prefix :
    (m : List ℕ) (o n : ℕ) (bs more : List ℕ)
    → n ≡ o + length bs
    → n ≤ length m
    → take n (write_at m o (bs ++ more)) ≡ take o m ++ bs
take-write_prefix [] zero n [] more e h = let q : n ≡ 0 = omega arith in rw q
take-write_prefix [] zero n (b ∷ bs) more e h = absurd (omega arith)
take-write_prefix [] (suc o) n bs more e h = absurd (omega arith)
take-write_prefix (x ∷ m) (suc o) zero bs more e h = absurd (omega arith)
take-write_prefix (x ∷ m) (suc o) (suc n) bs more e h =
    ap (λ r. x ∷ r) (take-write_prefix m o n bs more (omega arith) (omega arith))
take-write_prefix (x ∷ m) zero n [] more e h = let q : n ≡ 0 = omega arith in rw q
take-write_prefix (x ∷ m) zero zero (b ∷ bs) more e h = absurd (omega arith)
take-write_prefix (x ∷ m) zero (suc n) (b ∷ bs) more e h =
    ap (λ r. b ∷ r) (take-write_prefix m zero n bs more (omega arith) (omega arith))
