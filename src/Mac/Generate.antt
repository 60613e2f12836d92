-- ===== src/Mac/Generate.antt =====
-- The addresses that the driver makes up: from the adapter's GUID, and from another address.
use tap_windows.Base.{
  ℕ, zero, suc, ◌+◌, ◌*◌, ◌≤◌, ◌<◌, ◌≡◌, refl, arith, Bool, true, false, List, [], ◌∷◌, ◌++◌, leb,
  ◌==◌, if◌then◌else◌, length, set, take, get_or, ap, ◌∙◌, u8, inl, inr, ◌≢◌, sym, ◌&&◌, ◌||◌,
  Bool-cases,
}
use tap_windows.Mac.{
  Mac, IsMac, generate_related_mac, generate_random_mac, random_loop, random_char, random_digit,
  Generator, is_hex_digit, hex_string_to_decimal_int, mac_size,
}
use tap_windows.Mac.Parse.{set-IsMac}

get_or-set_self : (xs : List ℕ) (i v : ℕ) → i < length xs → get_or (set xs i v) i 0 ≡ v
get_or-set_self [] i v h = absurd (omega arith)
get_or-set_self (x ∷ xs) zero v h = refl
get_or-set_self (x ∷ xs) (suc i) v h = get_or-set_self xs i v (omega arith)

-- From a MAC address GenerateRelatedMAC makes a MAC address, and different offsets below 256 make
-- different ones: the peer of point-to-point mode (offset 1) and the DHCP server (offset 2) never
-- share one.
pub generate_related_mac_distinct :
    (src : Mac) (d e : ℕ)
    → IsMac src
    → d < 256
    → e < 256
    → d ≢ e
    → IsMac (generate_related_mac src d) × (generate_related_mac src d ≢ generate_related_mac src e)
unfolding generate_related_mac
generate_related_mac_distinct src d e v hd he ne = (
  set-IsMac src 2 (u8 (get_or src 2 0 + u8 d)) (omega arith) v,
  λ same. ne (
      omega (
        arith,
        ap (λ (m : Mac). get_or m 2 0) same,
        get_or-set_self src 2 (u8 (get_or src 2 0 + u8 d)) (omega (arith, v.0)),
        get_or-set_self src 2 (u8 (get_or src 2 0 + u8 e)) (omega (arith, v.0)),
      )),
)

-- The values of the hexadecimal digits of a name, up to its end, from the first brace on.
abbrev pub digits_from : Bool → List ℕ → List ℕ
digits_from brace [] = []
digits_from brace (c ∷ name) =
    let b = brace || c == b'{' in
    let rest = digits_from b name in
    if c == 0 then [] else if is_hex_digit c && b then hex_string_to_decimal_int c ∷ rest else rest

-- Bytes from pairs of digits, written into an address from a place on, as long as there is room.
abbrev fill : Mac → ℕ → List ℕ → Mac
fill mac i [] = mac
fill mac i (high ∷ []) = mac
fill mac i (high ∷ low ∷ digits) =
    if leb mac_size i then mac else fill (set mac i (u8 (high * 16 + low))) (i + 1) digits

abbrev pending : Generator → List ℕ
pending g = if g.state then g.byte ∷ [] else []

fill_full : (mac : Mac) (i : ℕ) (digits : List ℕ) → mac_size ≤ i → fill mac i digits ≡ mac
fill_full mac i [] h = refl
fill_full mac i (high ∷ []) h = refl
fill_full mac i (high ∷ low ∷ digits) h = ground arith

fill_none : (g : Generator) → fill g.mac g.i (pending g ++ []) ≡ g.mac
fill_none g = ground arith

random_digit_lem :
    (digit : ℕ) (rest : List ℕ) (g : Generator)
    → g.i < mac_size
    → let g' = random_digit digit g in
      fill g'.mac g'.i (pending g' ++ rest) ≡ fill g.mac g.i (pending g ++ digit ∷ rest)
unfolding random_digit
random_digit_lem digit rest g k = elim (Bool-cases g.state) [
  | inl s ↦ rw s (ground arith)
  | inr s ↦ rw s
]

random_digit-brace : (digit : ℕ) (g : Generator) → (random_digit digit g).brace ≡ g.brace
unfolding random_digit
random_digit-brace digit g = ground arith

random_char_lem :
    (c : ℕ) (name : List ℕ) (g : Generator)
    → (c == 0) ≡ false
    → g.i < mac_size
    → let g' = random_char c g in
      fill g'.mac g'.i (pending g' ++ digits_from g'.brace name)
      ≡ fill g.mac g.i (pending g ++ digits_from g.brace (c ∷ name))
unfolding random_char
random_char_lem c name g h k =
    let brace : (if c == b'{' then true else g.brace) ≡ (g.brace || c == b'{') = ground arith in
    elim (Bool-cases (g.brace || c == b'{')) [
      | inl b ↦ elim (Bool-cases (is_hex_digit c)) [
        | inl d ↦
            let g' : Generator = record g { brace = true } in
            rw (brace, b, d, h, random_digit-brace (hex_string_to_decimal_int c) g')
              (random_digit_lem (hex_string_to_decimal_int c) (digits_from true name) g' k)
        | inr d ↦ rw (brace, b, d, h)
      ]
      | inr b ↦
          let shut : (is_hex_digit c && false) ≡ false = ground arith in rw (brace, b, h, shut)
    ]

random_loop_lem :
    (name : List ℕ) (g : Generator)
    → random_loop name g ≡ fill g.mac g.i (pending g ++ digits_from g.brace name)
unfolding random_loop
random_loop_lem [] g = sym (fill_none g)
random_loop_lem (c ∷ name) g = ground (
  arith,
  random_loop_lem name (random_char c g),
  random_char_lem c name g,
  fill_none g,
  fill_full g.mac g.i (pending g ++ digits_from g.brace (c ∷ name)),
)

-- Whole bytes from pairs of digits; a last odd digit is dropped.
abbrev pub digit_pairs : List ℕ → List ℕ
digit_pairs [] = []
digit_pairs (high ∷ []) = []
digit_pairs (high ∷ low ∷ digits) = u8 (high * 16 + low) ∷ digit_pairs digits

fill_two :
    (ds : List ℕ)
    → fill (0x00 ∷ 0xff ∷ 0 ∷ 0 ∷ 0 ∷ 0 ∷ []) 2 ds
      ≡ 0x00 ∷ 0xff ∷ take 4 (digit_pairs ds ++ 0 ∷ 0 ∷ 0 ∷ 0 ∷ [])
fill_two [] = refl
fill_two (a ∷ []) = refl
fill_two (a ∷ b ∷ []) = refl
fill_two (a ∷ b ∷ c ∷ []) = refl
fill_two (a ∷ b ∷ c ∷ d ∷ []) = refl
fill_two (a ∷ b ∷ c ∷ d ∷ e ∷ []) = refl
fill_two (a ∷ b ∷ c ∷ d ∷ e ∷ f ∷ []) = refl
fill_two (a ∷ b ∷ c ∷ d ∷ e ∷ f ∷ g ∷ []) = refl
fill_two (a ∷ b ∷ c ∷ d ∷ e ∷ f ∷ g ∷ h ∷ []) = refl
fill_two (a ∷ b ∷ c ∷ d ∷ e ∷ f ∷ g ∷ h ∷ i ∷ []) = refl
fill_two (a ∷ b ∷ c ∷ d ∷ e ∷ f ∷ g ∷ h ∷ i ∷ j ∷ digits) = refl

-- GenerateRandomMac makes 00:FF and then four bytes, two hexadecimal digits each, from the digits
-- of the name that come after its first brace and before its end; where the digits run out the
-- bytes are 0. A name without a brace gives 00:FF:00:00:00:00.
pub generate_random_mac-digits :
    (name : List ℕ)
    → generate_random_mac name
      ≡ 0x00 ∷ 0xff ∷ take 4 (digit_pairs (digits_from false name) ++ 0 ∷ 0 ∷ 0 ∷ 0 ∷ [])
unfolding generate_random_mac
generate_random_mac-digits name = random_loop_lem name _ ∙ fill_two (digits_from false name)
