-- ===== src/Mac/Text.antt =====
-- ParseMAC reads back every MAC address that is printed as six pairs of hexadecimal digits.
use tap_windows.Base.{
  ℕ, suc, ◌+◌, ◌/◌, ◌%◌, ◌^◌, ◌<◌, ◌≡◌, refl, arith, Bool, true, false, List, [], ◌∷◌, ◌++◌, ◌==◌,
  length, length-append, set, IsBytes, get_or, ◌∙◌, ap, replicate, append_assoc,
}
use tap_windows.Mac.{
  Mac, IsMac, Parser, parse_digit, parse_char, parse_loop, parse_mac, is_mac_delimiter,
}
use tap_windows.Mac.Parse.{hex_char, hex_char_lem}

-- Between two bytes stands one delimiter, or nothing.
pub data Separator : Type 0 where
  nothing : Separator
  delimiter : (d : ℕ) → is_mac_delimiter d ≡ true → Separator

abbrev pub sep_text : Separator → List ℕ → List ℕ
sep_text nothing rest = rest
sep_text (delimiter d h) rest = d ∷ rest

abbrev pub mac_text : Bool → Separator → Mac → List ℕ
mac_text u sep [] = []
mac_text u sep (b ∷ []) = hex_char u (b / 16) ∷ hex_char u (b % 16) ∷ []
mac_text u sep (b ∷ c ∷ rest) =
    hex_char u (b / 16) ∷ hex_char u (b % 16) ∷ sep_text sep (mac_text u sep (c ∷ rest))

abbrev parser_at : Mac → ℕ → Bool → ℕ → Parser
parser_at m i high da = record { dest = m; mac_index = i; high_digit = high; delim_action = da }

delimiter_ne_zero : (d : ℕ) → is_mac_delimiter d ≡ true → (d == 0) ≡ false
unfolding is_mac_delimiter
delimiter_ne_zero d h = ground arith

delimiter_step :
    (d : ℕ) (rest : List ℕ) (m : Mac) (i da : ℕ)
    → is_mac_delimiter d ≡ true
    → parse_loop (d ∷ rest) (parser_at m i false da)
      ≡ parse_loop rest (parser_at m (i + da) false 1)
unfolding parse_loop parse_char
delimiter_step d rest m i da h = rw (delimiter_ne_zero d h, h)

digit_step :
    (u : Bool) (x : ℕ) (rest : List ℕ) (p : Parser)
    → x < 16
    → p.mac_index < 6
    → parse_loop (hex_char u x ∷ rest) p ≡ parse_loop rest (parse_digit x p)
unfolding parse_loop parse_char
digit_step u x rest p h k = ground (arith, hex_char_lem u x h)

set-append :
    (pre post : List ℕ) (x y : ℕ) → set (pre ++ (x ∷ post)) (length pre) y ≡ pre ++ (y ∷ post)
set-append [] post x y = refl
set-append (z ∷ pre) post x y = ap (λ r. z ∷ r) (set-append pre post x y)

get_or-append : (pre post : List ℕ) (x : ℕ) → get_or (pre ++ (x ∷ post)) (length pre) 0 ≡ x
get_or-append [] post x = refl
get_or-append (z ∷ pre) post x = get_or-append pre post x

pair_step :
    (u : Bool) (b : ℕ) (rest pre post : List ℕ) (da : ℕ)
    → b < 256
    → length pre < 6
    → parse_loop
        (hex_char u (b / 16) ∷ hex_char u (b % 16) ∷ rest)
        (parser_at (pre ++ (0 ∷ post)) (length pre) false da)
      ≡ parse_loop rest (parser_at (pre ++ (b ∷ post)) (length pre + 1) false 0)
unfolding parse_digit
pair_step u b rest pre post da h k =
    digit_step u (b / 16) (hex_char u (b % 16) ∷ rest) _ (omega arith) k
    ∙ digit_step u (b % 16) rest _ (omega arith) k
    ∙ rw
        (
          set-append pre post 0 ((b / 16) % 2 ^ 8),
          set-append pre post ((b / 16) % 2 ^ 8),
          get_or-append pre post ((b / 16) % 2 ^ 8),
        )
        (ap (λ x. parse_loop rest (parser_at (pre ++ (x ∷ post)) (length pre + 1) false 0))
          (omega arith))

between :
    (sep : Separator) (text : List ℕ) (m : Mac) (i : ℕ) (r : Bool × Mac)
    → ((da : ℕ) → parse_loop text (parser_at m i false da) ≡ r)
    → parse_loop (sep_text sep text) (parser_at m i false 0) ≡ r
between nothing text m i r next = next 0
between (delimiter d h) text m i r next =
    delimiter_step d text m i 0 h ∙ let e : i + 0 ≡ i = omega arith in rw e (next 1)

text_loop :
    (u : Bool) (sep : Separator) (rest pre : List ℕ) (da : ℕ)
    → length pre + length rest ≡ 6
    → 0 < length rest
    → IsBytes rest
    → parse_loop
        (mac_text u sep rest)
        (parser_at (pre ++ replicate (length rest) 0) (length pre) false da)
      ≡ (true, pre ++ rest)
text_loop u sep [] pre da e pos v = absurd (omega arith)
text_loop u sep (b ∷ []) pre da e pos v =
    pair_step u b [] pre [] da v.0 (omega arith) ∙ unfold parse_loop in ground arith
text_loop u sep (b ∷ c ∷ rest) pre da e pos v =
    let zeros : List ℕ = replicate (suc (length rest)) 0 in
    let text = mac_text u sep (c ∷ rest) in
    pair_step u b (sep_text sep text) pre zeros da v.0 (omega arith)
    ∙ between sep text (pre ++ (b ∷ zeros)) (length pre + 1) (true, pre ++ (b ∷ c ∷ rest))
        (λ da'.
          rw (append_assoc, length-append, append_assoc) at
            (text_loop u sep (c ∷ rest) (pre ++ (b ∷ [])) da'
              (omega (arith, length-append {0} pre (b ∷ []))) (omega arith) v.1))

-- ParseMAC of the text of a MAC address, in capital or small hexadecimal digits, with the same
-- delimiter `:`, `-` or `.` between all bytes or with none, returns TRUE and the address.
pub parse_mac-mac_text :
    (u : Bool) (sep : Separator) (m : Mac) → IsMac m → parse_mac (mac_text u sep m) ≡ (true, m)
unfolding parse_mac
parse_mac-mac_text u sep m v =
    rw v.0 at (text_loop u sep m [] 1 (omega (arith, v.0)) (omega (arith, v.0)) v.1)
