-- ===== src/Base/Words.antt =====
-- Bytes in memory, 16- and 32-bit words on a little-endian machine, and endian.h.
use Prim.Native.Nat.{ℕ, ◌+◌, ◌*◌, ◌/◌, ◌%◌, ◌^◌, ◌<◌}
use mathlib.Core.Path.{◌≡◌, refl}
use mathlib.Core.Bool.{Bool, true, false, ◌&&◌}
use mathlib.Core.List.{List, [], ◌∷◌}
use native.Mathlib.Omega.{arith}
use tap_windows.Base.Tests.{◌==◌}
use tap_windows.Base.Lists.{get_or, take, drop}

abbrev pub u8 : ℕ → ℕ
u8 x = x % 2 ^ 8

abbrev pub u16 : ℕ → ℕ
u16 x = x % 2 ^ 16

abbrev pub u32 : ℕ → ℕ
u32 x = x % 2 ^ 32

-- `(unsigned 32-bit) a + b`
abbrev pub add32 : ℕ → ℕ → ℕ
add32 a b = u32 (a + b)

-- RtlUshortByteSwap, which `htons` and `ntohs` are under TAP_LITTLE_ENDIAN.
abbrev pub htons : ℕ → ℕ
htons x = x % 256 * 256 + x / 256 % 256

abbrev pub ntohs : ℕ → ℕ
ntohs x = htons x

-- RtlUlongByteSwap
abbrev pub htonl : ℕ → ℕ
htonl x = x % 256 * 2 ^ 24 + x / 2 ^ 8 % 256 * 2 ^ 16 + x / 2 ^ 16 % 256 * 2 ^ 8 + x / 2 ^ 24 % 256

abbrev pub ntohl : ℕ → ℕ
ntohl x = htonl x

-- `p[i]`; a read past the end of the memory that a list stands for gives 0.
abbrev pub byte_at : List ℕ → ℕ → ℕ
byte_at p i = get_or p i 0

-- A USHORT and a ULONG read from memory, and as they lie in memory.
abbrev pub u16_at : List ℕ → ℕ → ℕ
u16_at p i = byte_at p i + 256 * byte_at p (i + 1)

abbrev pub u32_at : List ℕ → ℕ → ℕ
u32_at p i = u16_at p i + 2 ^ 16 * u16_at p (i + 2)

abbrev pub u16_bytes : ℕ → List ℕ
u16_bytes x = (x % 256) ∷ (x / 256 % 256) ∷ []

abbrev pub u32_bytes : ℕ → List ℕ
u32_bytes x = (x % 256) ∷ (x / 2 ^ 8 % 256) ∷ (x / 2 ^ 16 % 256) ∷ (x / 2 ^ 24 % 256) ∷ []

-- `n` bytes from `p + i` on.
abbrev pub slice : List ℕ → ℕ → ℕ → List ℕ
slice p i n = take n (drop i p)

-- `memcmp (a, b, n) == 0` over memory of the same size.
abbrev pub bytes_eq : List ℕ → List ℕ → Bool
bytes_eq [] [] = true
bytes_eq (a ∷ xs) (b ∷ ys) = a == b && bytes_eq xs ys
bytes_eq _ _ = false

pub bytes_eq_refl : (xs : List ℕ) → bytes_eq xs xs ≡ true
bytes_eq_refl [] = refl
bytes_eq_refl (x ∷ xs) = ground (arith, bytes_eq_refl xs)

pub bytes_eq→eq : (xs ys : List ℕ) → bytes_eq xs ys ≡ true → xs ≡ ys
bytes_eq→eq [] [] h = refl
bytes_eq→eq [] (y ∷ ys) h = ground arith
bytes_eq→eq (x ∷ xs) [] h = ground arith
bytes_eq→eq (x ∷ xs) (y ∷ ys) h = ground (arith, bytes_eq→eq xs ys)

abbrev pub IsBytes : List ℕ → Type 0
IsBytes [] = Unit {0}
IsBytes (x ∷ xs) = (x < 256) × IsBytes xs
