-- ===== src/Mac/Parse.antt =====
-- What ParseMAC accepts, and what it leaves in its destination.
use tap_windows.Base.{
  ℕ, zero, suc, refl, ap, Option, none, ◌++◌, ◌&&◌, drop, length, ◌+◌, ◌-◌, ◌*◌, ◌<◌, ◌≡◌, arith,
  Bool, true, false, List, [], ◌∷◌, some, ltb, ◌==◌, if◌then◌else◌, length-set, set, IsBytes,
  get_or, Option-cases, Bool-cases, ◌∙◌, u8, inl, inr,
}
use tap_windows.Mac.{
  Mac, IsMac, Parser, start, parse_digit, parse_char, parse_loop, parse_mac, parse_mac_into,
  is_hex_digit, is_mac_delimiter, hex_string_to_decimal_int,
}

set-IsBytes : (xs : List ℕ) (i v : ℕ) → v < 256 → IsBytes xs → IsBytes (set xs i v)
set-IsBytes [] i v h b = tt
set-IsBytes (x ∷ xs) zero v h b = (h, b.1)
set-IsBytes (x ∷ xs) (suc i) v h b = (b.0, set-IsBytes xs i v h b.1)

pub set-IsMac : (m : Mac) (i v : ℕ) → v < 256 → IsMac m → IsMac (set m i v)
set-IsMac m i v h b = (length-set m i v ∙ b.0, set-IsBytes m i v h b.1)

parse_digit-IsMac : (d : ℕ) (p : Parser) → IsMac p.dest → IsMac (parse_digit d p).dest
unfolding parse_digit
parse_digit-IsMac d p v = ground (
  arith,
  set-IsMac p.dest p.mac_index (u8 (get_or p.dest p.mac_index 0 * 16 + d)) (omega arith) v,
  set-IsMac p.dest p.mac_index (u8 d) (omega arith) v,
)

parse_char-IsMac :
    (c : ℕ) (p : Parser) {q : Parser} → IsMac p.dest → parse_char c p ≡ some q → IsMac q.dest
unfolding parse_char
parse_char-IsMac c p v e = ground (arith, parse_digit-IsMac (hex_string_to_decimal_int c) p v)

parse_loop-IsMac : (src : List ℕ) (p : Parser) → IsMac p.dest → IsMac (parse_loop src p).1
unfolding parse_loop
parse_loop-IsMac [] p v = v
parse_loop-IsMac (c ∷ src) p v = elim (Bool-cases (c == 0)) [
  | inl e ↦ rw e v
  | inr e ↦ rw e (elim (Option-cases (parse_char c p)) [
    | inl stop ↦ rw (stop, parse_loop) v
    | inr (q, next) ↦ rw (next, parse_loop) (parse_loop-IsMac src q (parse_char-IsMac c p v next))
  ])
]

-- The same with more memory behind the six bytes
abbrev and_behind : List ℕ → Parser → Parser
and_behind behind p = record p { dest = p.dest ++ behind }

abbrev behind_of : List ℕ → Option Parser → Option Parser
behind_of behind none = none
behind_of behind (some p) = some (and_behind behind p)

set-append : (xs ys : List ℕ) (i v : ℕ) → i < length xs → set (xs ++ ys) i v ≡ set xs i v ++ ys
set-append [] ys i v h = absurd (omega arith)
set-append (x ∷ xs) ys zero v h = refl
set-append (x ∷ xs) ys (suc i) v h = ap (λ (l : List ℕ). x ∷ l) (set-append xs ys i v (omega arith))

get_or-append : (xs ys : List ℕ) (i v : ℕ) → i < length xs → get_or (xs ++ ys) i v ≡ get_or xs i v
get_or-append [] ys i v h = absurd (omega arith)
get_or-append (x ∷ xs) ys zero v h = refl
get_or-append (x ∷ xs) ys (suc i) v h = get_or-append xs ys i v (omega arith)

parse_digit-behind :
    (behind : List ℕ) (d : ℕ) (p : Parser)
    → p.mac_index < length p.dest
    → parse_digit d (and_behind behind p) ≡ and_behind behind (parse_digit d p)
unfolding parse_digit
parse_digit-behind behind d p h = elim (Bool-cases p.high_digit) [
  | inl low ↦
      rw
        (
          low,
          get_or-append p.dest behind p.mac_index 0 h,
          set-append p.dest behind p.mac_index (u8 (get_or p.dest p.mac_index 0 * 16 + d)) h,
        )
        refl
  | inr high ↦ rw (high, set-append p.dest behind p.mac_index (u8 d) h) refl
]

parse_char-behind :
    (behind : List ℕ) (c : ℕ) (p : Parser)
    → length p.dest ≡ 6
    → parse_char c (and_behind behind p) ≡ behind_of behind (parse_char c p)
unfolding parse_char
parse_char-behind behind c p e =
    let digit : p.mac_index < 6
        → parse_digit (hex_string_to_decimal_int c) (and_behind behind p)
          ≡ and_behind behind (parse_digit (hex_string_to_decimal_int c) p) =
      λ h. parse_digit-behind behind (hex_string_to_decimal_int c) p (omega (arith, e, h)) in
    elim (Bool-cases (is_mac_delimiter c)) [
      | inl delim ↦ rw delim refl
      | inr other ↦ elim (Bool-cases (is_hex_digit c && ltb p.mac_index 6)) [
        | inl fits ↦ rw (other, fits) (ap some (digit (ground (arith, fits))))
        | inr stop ↦ rw (other, stop) refl
      ]
    ]

parse_loop-behind :
    (behind src : List ℕ) (p : Parser)
    → IsMac p.dest
    → parse_loop src (and_behind behind p) ≡ ((parse_loop src p).0, (parse_loop src p).1 ++ behind)
unfolding parse_loop
parse_loop-behind behind [] p v = refl
parse_loop-behind behind (c ∷ src) p v = elim (Bool-cases (c == 0)) [
  | inl ends ↦ rw ends refl
  | inr goes ↦ elim (Option-cases (parse_char c p)) [
    | inl stop ↦
        let both = parse_char-behind behind c p v.0 ∙ ap (behind_of behind) stop in
        rw (parse_loop, goes, both, stop) refl
    | inr (q, next) ↦
        let both = parse_char-behind behind c p v.0 ∙ ap (behind_of behind) next in
        rw (parse_loop, goes, both, next)
          (parse_loop-behind behind src q (parse_char-IsMac c p v next))
  ]
]

-- Whatever the text, and whatever memory lies behind the six bytes of the destination: ParseMAC
-- leaves six bytes in the destination and that memory as it was, so that no write falls outside; and
-- neither its result nor the six bytes depend on it.
pub parse_mac-IsMac :
    (memory src : List ℕ)
    → let (ok, mac) = parse_mac src in
      IsMac mac × (parse_mac_into memory src ≡ (ok, mac ++ drop 6 memory))
unfolding parse_mac parse_mac_into
parse_mac-IsMac memory src =
    let v : IsMac start.dest = omega arith in
    (parse_loop-IsMac src start v, parse_loop-behind (drop 6 memory) src start v)

-- A hexadecimal digit as it is printed, in either case.
pub hex_char : Bool → ℕ → ℕ
hex_char upper d = if ltb d 10 then d + b'0' else if upper then d - 10 + b'A' else d - 10 + b'a'

pub hex_char_lem :
    (u : Bool) (d : ℕ)
    → d < 16
    → (is_hex_digit (hex_char u d) ≡ true)
      × (is_mac_delimiter (hex_char u d) ≡ false)
      × ((hex_char u d == 0) ≡ false)
      × (hex_string_to_decimal_int (hex_char u d) ≡ d)
unfolding hex_char is_hex_digit is_mac_delimiter hex_string_to_decimal_int
hex_char_lem true d h = ground arith
hex_char_lem false d h = ground arith
