-- ===== src/Checksum/Sums.antt =====
-- The summing loops against plain sums of 16-bit words, and the receiver's check of a checksum.
use tap_windows.Base.{
  ℕ, zero, suc, ◌+◌, ◌*◌, ◌%◌, ◌^◌, ◌≤◌, ◌<◌, ◌≡◌, arith, List, [], ◌∷◌, ◌++◌, length, take_all,
  htons, u16_bytes, ap, ◌∙◌,
}
use tap_windows.Checksum.{
  word16, add_pairs, add_words, ip_checksum, udp_sum, icmpv6_sum, finish, ipproto_udp,
  ipproto_icmpv6,
}

-- The sum of the big-endian 16-bit words of a buffer, a last odd byte left out.
pub pair_sum : List ℕ → ℕ
pair_sum (a ∷ b ∷ rest) = word16 a b + pair_sum rest
pair_sum _ = 0

-- The same, a last odd byte padded by 0.
pub word_sum : List ℕ → ℕ
word_sum (a ∷ b ∷ rest) = word16 a b + word_sum rest
word_sum (a ∷ []) = word16 a 0
word_sum [] = 0

pub pair_sum-le : (xs : List ℕ) → 2 * pair_sum xs ≤ 65535 * length xs
unfolding pair_sum
pair_sum-le (a ∷ b ∷ rest) = omega (arith, pair_sum-le rest)
pair_sum-le (a ∷ []) = omega arith
pair_sum-le [] = omega arith

pub word_sum-le : (xs : List ℕ) → 2 * word_sum xs ≤ 65535 * (length xs + 1)
unfolding word_sum
word_sum-le (a ∷ b ∷ rest) = omega (arith, word_sum-le rest)
word_sum-le (a ∷ []) = omega arith
word_sum-le [] = omega arith

-- The loops are these sums, as long as the 32-bit accumulator does not wrap.
pub add_pairs_lem :
    (xs : List ℕ) (s : ℕ) → s + pair_sum xs < 2 ^ 32 → add_pairs xs s ≡ s + pair_sum xs
unfolding add_pairs pair_sum
add_pairs_lem (a ∷ b ∷ rest) s h =
    let e : (s + word16 a b) % 2 ^ 32 ≡ s + word16 a b = omega arith in
    rw e (omega (arith, add_pairs_lem rest (s + word16 a b)))
add_pairs_lem (a ∷ []) s h = omega arith
add_pairs_lem [] s h = omega arith

pub add_words_lem :
    (xs : List ℕ) (s : ℕ) → s + word_sum xs < 2 ^ 32 → add_words xs s ≡ s + word_sum xs
unfolding add_words word_sum
add_words_lem (a ∷ b ∷ rest) s h =
    let e : (s + word16 a b) % 2 ^ 32 ≡ s + word16 a b = omega arith in
    rw e (omega (arith, add_words_lem rest (s + word16 a b)))
add_words_lem (a ∷ []) s h = omega arith
add_words_lem [] s h = omega arith

pub pair_sum-append :
    (n : ℕ) (xs ys : List ℕ) → length xs ≡ 2 * n → pair_sum (xs ++ ys) ≡ pair_sum xs + pair_sum ys
unfolding pair_sum
pair_sum-append zero [] ys e = omega arith
pair_sum-append zero (a ∷ xs) ys e = absurd (omega arith)
pair_sum-append (suc n) [] ys e = absurd (omega arith)
pair_sum-append (suc n) (a ∷ []) ys e = absurd (omega arith)
pair_sum-append (suc n) (a ∷ b ∷ xs) ys e = omega (arith, pair_sum-append n xs ys)

pub word_sum-append :
    (n : ℕ) (xs ys : List ℕ) → length xs ≡ 2 * n → word_sum (xs ++ ys) ≡ word_sum xs + word_sum ys
unfolding word_sum
word_sum-append zero [] ys e = omega arith
word_sum-append zero (a ∷ xs) ys e = absurd (omega arith)
word_sum-append (suc n) [] ys e = absurd (omega arith)
word_sum-append (suc n) (a ∷ []) ys e = absurd (omega arith)
word_sum-append (suc n) (a ∷ b ∷ xs) ys e = omega (arith, word_sum-append n xs ys)

pub finish-lt : (s : ℕ) → finish s < 2 ^ 16
unfolding finish
finish-lt s = omega arith

-- A checksum stored in network order adds itself to the sum of the words.
module _ (n c : ℕ) (xs ys : List ℕ) (even : length xs ≡ 2 * n) (fits : c < 2 ^ 16) where
  pub pair_sum-stored :
      pair_sum (xs ++ (u16_bytes (htons c) ++ ys)) ≡ pair_sum (xs ++ (0 ∷ 0 ∷ ys)) + c
  unfolding pair_sum
  pair_sum-stored = omega (
    arith,
    pair_sum-append n xs (u16_bytes (htons c) ++ ys) even,
    pair_sum-append n xs (0 ∷ 0 ∷ ys) even,
  )

  pub word_sum-stored :
      word_sum (xs ++ (u16_bytes (htons c) ++ ys)) ≡ word_sum (xs ++ (0 ∷ 0 ∷ ys)) + c
  unfolding word_sum
  word_sum-stored = omega (
    arith,
    word_sum-append n xs (u16_bytes (htons c) ++ ys) even,
    word_sum-append n xs (0 ∷ 0 ∷ ys) even,
  )

pub ip_checksum_lem :
    (buf : List ℕ) (len : ℕ)
    → length buf ≡ len
    → len ≤ 2 ^ 16
    → ip_checksum buf len ≡ finish (pair_sum buf)
unfolding ip_checksum
ip_checksum_lem buf len e h =
    rw (take_all len buf (omega arith))
      (ap finish (add_pairs_lem buf 0 (omega (arith, pair_sum-le buf)) ∙ omega arith))

-- What udp_checksum sums up: the datagram, both addresses of the pseudo header, 17 and the length.
pub udp_sum_lem :
    (buf src dest : List ℕ) (len : ℕ)
    → length buf ≡ len
    → len < 2 ^ 16
    → length src ≡ 4
    → length dest ≡ 4
    → udp_sum buf len src dest ≡ word_sum buf + (pair_sum src + pair_sum dest + ipproto_udp + len)
unfolding udp_sum
udp_sum_lem buf src dest len e h hs hd =
    rw
      (
        take_all len buf (omega arith),
        take_all 4 src (omega arith),
        take_all 4 dest (omega arith),
        add_words_lem buf 0 (omega (arith, word_sum-le buf)),
        add_pairs_lem src (0 + word_sum buf) (omega (arith, word_sum-le buf, pair_sum-le src)),
        add_pairs_lem dest (0 + word_sum buf + pair_sum src)
            (omega (arith, word_sum-le buf, pair_sum-le src, pair_sum-le dest)),
      )
      (omega (arith, word_sum-le buf, pair_sum-le src, pair_sum-le dest))

pub icmpv6_sum_lem :
    (buf src dest : List ℕ) (len : ℕ)
    → length buf ≡ len
    → len < 2 ^ 16
    → length src ≡ 16
    → length dest ≡ 16
    → icmpv6_sum buf len src dest
      ≡ word_sum buf + (pair_sum src + pair_sum dest + ipproto_icmpv6 + len)
unfolding icmpv6_sum
icmpv6_sum_lem buf src dest len e h hs hd =
    rw
      (
        take_all len buf (omega arith),
        take_all 16 src (omega arith),
        take_all 16 dest (omega arith),
        add_words_lem buf 0 (omega (arith, word_sum-le buf)),
        add_pairs_lem src (0 + word_sum buf) (omega (arith, word_sum-le buf, pair_sum-le src)),
        add_pairs_lem dest (0 + word_sum buf + pair_sum src)
            (omega (arith, word_sum-le buf, pair_sum-le src, pair_sum-le dest)),
      )
      (omega (arith, word_sum-le buf, pair_sum-le src, pair_sum-le dest))
