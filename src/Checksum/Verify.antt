-- ===== src/Checksum/Verify.antt =====
-- The receiver's check: with the checksum field filled in, the checksum is 0.
use tap_windows.Base.{
  ℕ, ◌+◌, ◌*◌, ◌^◌, ◌≤◌, ◌<◌, ◌≡◌, arith, List, [], ◌∷◌, ◌++◌, length, length-append, htons,
  u16_bytes, ap, ◌∙◌,
}
use tap_windows.Checksum.{ip_checksum, udp_checksum, udp_sum, icmpv6_checksum, icmpv6_sum, finish}
use tap_windows.Checksum.Fold.{finish-add_finish}
use tap_windows.Checksum.Sums.{
  pair_sum, pair_sum-le, word_sum-le, pair_sum-stored, word_sum-stored, finish-lt, ip_checksum_lem,
  udp_sum_lem, icmpv6_sum_lem,
}

-- A header with the two bytes of its checksum field, which stand after `xs`.
abbrev pub with_field : List ℕ → List ℕ → List ℕ → List ℕ
with_field xs field ys = xs ++ (field ++ ys)

abbrev pub zeros : List ℕ
zeros = 0 ∷ 0 ∷ []

length-with_field :
    (xs ys : List ℕ) (a b : ℕ) → length (with_field xs (a ∷ b ∷ []) ys) ≡ length xs + length ys + 2
length-with_field xs ys a b = omega (arith, length-append {0} xs (a ∷ b ∷ ys))

module _ (n : ℕ) (xs ys : List ℕ) (even : length xs ≡ 2 * n) where
  -- If ip_checksum of a header with a zero checksum field, at an even offset, is stored there in
  -- network order, then ip_checksum of the header is 0. The header has at most 2 ^ 16 bytes.
  pub ip_checksum_verifies :
      length xs + length ys + 2 ≤ 2 ^ 16
      → let len = length xs + length ys + 2 in
        let c = ip_checksum (with_field xs zeros ys) len in
        ip_checksum (with_field xs (u16_bytes (htons c)) ys) len ≡ 0
  ip_checksum_verifies h =
      let len = length xs + length ys + 2 in
      let s = pair_sum (with_field xs zeros ys) in
      rw
        (
          ip_checksum_lem (with_field xs zeros ys) len (length-with_field xs ys 0 0) h,
          ip_checksum_lem (with_field xs (u16_bytes (htons (finish s))) ys) len
              (length-with_field xs ys _ _) h,
          pair_sum-stored n (finish s) xs ys even (finish-lt s),
        )
        (finish-add_finish s
          (omega (arith, pair_sum-le (with_field xs zeros ys), length-with_field xs ys 0 0)))

module _ (n : ℕ) (xs ys src dest : List ℕ) (even : length xs ≡ 2 * n) (hs : length src ≡ 4)
    (hd : length dest ≡ 4) (h : length xs + length ys + 2 < 2 ^ 16) where
  udp_sum-stored :
      (c : ℕ)
      → c < 2 ^ 16
      → udp_sum (with_field xs (u16_bytes (htons c)) ys) (length xs + length ys + 2) src dest
        ≡ udp_sum (with_field xs zeros ys) (length xs + length ys + 2) src dest + c
  udp_sum-stored c fits = omega (
    arith,
    udp_sum_lem (with_field xs zeros ys) src dest _ (length-with_field xs ys 0 0) h hs hd,
    udp_sum_lem (with_field xs (u16_bytes (htons c)) ys) src dest _ (length-with_field xs ys _ _) h
        hs hd,
    word_sum-stored n c xs ys even fits,
  )

  udp_sum-le :
      udp_sum (with_field xs zeros ys) (length xs + length ys + 2) src dest + 2 ^ 16 ≤ 2 ^ 32
  udp_sum-le = omega (
    arith,
    udp_sum_lem (with_field xs zeros ys) src dest _ (length-with_field xs ys 0 0) h hs hd,
    word_sum-le (with_field xs zeros ys),
    length-with_field xs ys 0 0,
    pair_sum-le src,
    pair_sum-le dest,
  )

  -- If udp_checksum of a datagram with a zero checksum field, at an even offset, is stored
  -- there in network order, then udp_checksum over the same addresses is 0. The datagram is
  -- shorter than 2 ^ 16 bytes.
  pub udp_checksum_verifies :
      let len = length xs + length ys + 2 in
      let c = udp_checksum (with_field xs zeros ys) len src dest in
      udp_checksum (with_field xs (u16_bytes (htons c)) ys) len src dest ≡ 0
  unfolding udp_checksum
  udp_checksum_verifies =
      let s = udp_sum (with_field xs zeros ys) (length xs + length ys + 2) src dest in
      ap finish (udp_sum-stored (finish s) (finish-lt s)) ∙ finish-add_finish s udp_sum-le

module _ (n : ℕ) (xs ys src dest : List ℕ) (even : length xs ≡ 2 * n) (hs : length src ≡ 16)
    (hd : length dest ≡ 16) (h : length xs + length ys + 2 < 2 ^ 16) where
  icmpv6_sum-stored :
      (c : ℕ)
      → c < 2 ^ 16
      → icmpv6_sum (with_field xs (u16_bytes (htons c)) ys) (length xs + length ys + 2) src dest
        ≡ icmpv6_sum (with_field xs zeros ys) (length xs + length ys + 2) src dest + c
  icmpv6_sum-stored c fits = omega (
    arith,
    icmpv6_sum_lem (with_field xs zeros ys) src dest _ (length-with_field xs ys 0 0) h hs hd,
    icmpv6_sum_lem (with_field xs (u16_bytes (htons c)) ys) src dest _ (length-with_field xs ys _ _)
        h hs hd,
    word_sum-stored n c xs ys even fits,
  )

  icmpv6_sum-le :
      icmpv6_sum (with_field xs zeros ys) (length xs + length ys + 2) src dest + 2 ^ 16 ≤ 2 ^ 32
  icmpv6_sum-le = omega (
    arith,
    icmpv6_sum_lem (with_field xs zeros ys) src dest _ (length-with_field xs ys 0 0) h hs hd,
    word_sum-le (with_field xs zeros ys),
    length-with_field xs ys 0 0,
    pair_sum-le src,
    pair_sum-le dest,
  )

  -- If icmpv6_checksum of a message with a zero checksum field, at an even offset, is stored
  -- there in network order, then icmpv6_checksum over the same addresses is 0. The message is
  -- shorter than 2 ^ 16 bytes.
  pub icmpv6_checksum_verifies :
      let len = length xs + length ys + 2 in
      let c = icmpv6_checksum (with_field xs zeros ys) len src dest in
      icmpv6_checksum (with_field xs (u16_bytes (htons c)) ys) len src dest ≡ 0
  unfolding icmpv6_checksum
  icmpv6_checksum_verifies =
      let s = icmpv6_sum (with_field xs zeros ys) (length xs + length ys + 2) src dest in
      ap finish (icmpv6_sum-stored (finish s) (finish-lt s)) ∙ finish-add_finish s icmpv6_sum-le
