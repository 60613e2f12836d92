-- ===== src/Tests/Units.antt =====
-- The theorems on checksums and MAC addresses at concrete bytes.
use tap_windows.Base.{ℕ, ◌≡◌, refl, arith, true, List, [], ◌++◌, drop, replicate, ◌∷◌}
use tap_windows.Mac.{IsMac, is_mac_delimiter, parse_mac, parse_mac_into}
use tap_windows.Mac.Parse.{parse_mac-IsMac}
use tap_windows.Mac.Text.{delimiter, mac_text, parse_mac-mac_text}
use tap_windows.Tests.Fixtures.{host_mac}

abbrev front : List ℕ
front = 0x45 ∷ 0 ∷ 1 ∷ 16 ∷ []

abbrev back : List ℕ
back = 10 ∷ 8 ∷ 0 ∷ 254 ∷ 255 ∷ []

abbrev two_digits : List ℕ
two_digits = b'1' ∷ b'2' ∷ b':' ∷ b'x' ∷ []

parse_mac-IsMac_example :
    IsMac (parse_mac two_digits).1
    × (parse_mac_into (replicate 9 7) two_digits
        ≡ ((parse_mac two_digits).0, (parse_mac two_digits).1 ++ drop 6 (replicate 9 7)))
parse_mac-IsMac_example = parse_mac-IsMac (replicate 9 7) two_digits

parse_mac-mac_text_example :
    parse_mac (mac_text true (delimiter b'-' (unfold is_mac_delimiter in refl)) host_mac)
    ≡ (true, host_mac)
parse_mac-mac_text_example =
    parse_mac-mac_text true (delimiter b'-' (unfold is_mac_delimiter in refl)) host_mac
      (refl, omega arith)

abbrev guid : List ℕ
guid = b'{' ∷ b'A' ∷ b'1' ∷ b'-' ∷ b'2' ∷ b'f' ∷ b'3' ∷ b'}' ∷ []
