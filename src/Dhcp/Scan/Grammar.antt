-- ===== src/Dhcp/Scan/Grammar.antt =====
-- GetDHCPMessageType against the grammar of RFC 2132: a list of options, each with its length.
use tap_windows.Base.{
  ℕ, zero, suc, ◌+◌, ◌≤◌, ◌<◌, ◌≡◌, ◌≢◌, refl, ap, arith, List, [], ◌∷◌, ◌++◌, append_assoc, ◌==◌,
  ==_of_ne, if◌then◌else◌, ℕ_discrete, get_elem?, length, length-append, ◌∙◌,
}
use tap_windows.Dhcp.Scan.{
  Found, found, minus_one, return, next, scan_round, scan_loop, get_dhcp_message_type,
  dhcp_msg_type, dhcp_pad, dhcp_end,
}

pub data DhcpOption : Type 0 where
  pad : DhcpOption
  tagged : ℕ → List ℕ → DhcpOption

-- A tag is neither the pad nor the end octet, and a length is one octet.
abbrev pub IsOption : DhcpOption → Type 0
IsOption pad = Unit
IsOption (tagged t value) = (t ≢ dhcp_pad) × (t ≢ dhcp_end) × (length value < 256)

abbrev pub AreOptions : List DhcpOption → Type 0
AreOptions [] = Unit
AreOptions (o ∷ os) = IsOption o × AreOptions os

abbrev pub option_bytes : DhcpOption → List ℕ
option_bytes pad = dhcp_pad ∷ []
option_bytes (tagged t value) = t ∷ length value ∷ value

-- The options end with the bytes, or with an end octet and anything after it.
pub data Tail : Type 0 where
  nothing : Tail
  ended : List ℕ → Tail

abbrev pub tail_bytes : Tail → List ℕ
tail_bytes nothing = []
tail_bytes (ended rest) = dhcp_end ∷ rest

abbrev pub options_bytes : List DhcpOption → Tail → List ℕ
options_bytes [] t = tail_bytes t
options_bytes (o ∷ os) t = option_bytes o ++ options_bytes os t

-- The first message type option decides, if its value is one octet.
abbrev pub value_type : List ℕ → Found
value_type (x ∷ []) = found x
value_type _ = minus_one

abbrev pub message_type : List DhcpOption → Found
message_type [] = minus_one
message_type (pad ∷ os) = message_type os
message_type (tagged t value ∷ os) =
    let rest = message_type os in if t == dhcp_msg_type then value_type value else rest

get_elem?-append :
    (pre xs : List ℕ) (i k : ℕ) → i ≡ length pre + k → get_elem? (pre ++ xs) i ≡ get_elem? xs k
get_elem?-append [] xs i k e = ap (get_elem? xs) (omega (arith, e))
get_elem?-append (x ∷ pre) xs zero k e = absurd (omega (arith, e))
get_elem?-append (x ∷ pre) xs (suc i) k e = get_elem?-append pre xs i k (omega (arith, e))

-- One round at the start of an option, of the end octet, or past the end.
module _ (pre : List ℕ) (n i : ℕ) (here : i ≡ length pre) where
  round-pad : (xs : List ℕ) → scan_round (pre ++ (dhcp_pad ∷ xs)) n i ≡ next (i + 1)
  unfolding scan_round
  round-pad xs = ground (arith, get_elem?-append pre (dhcp_pad ∷ xs) i 0)

  round-end : (xs : List ℕ) → scan_round (pre ++ (dhcp_end ∷ xs)) n i ≡ return minus_one
  unfolding scan_round
  round-end xs = ground (arith, get_elem?-append pre (dhcp_end ∷ xs) i 0)

  round-type :
      (value xs : List ℕ)
      → n ≡ length pre + (length value + length xs + 2)
      → scan_round (pre ++ (dhcp_msg_type ∷ length value ∷ (value ++ xs))) n i
        ≡ return (value_type value)
  unfolding scan_round
  round-type [] xs e = ground (
    arith,
    get_elem?-append pre (dhcp_msg_type ∷ 0 ∷ xs) i 0,
    get_elem?-append pre (dhcp_msg_type ∷ 0 ∷ xs) (i + 1) 1,
    get_elem?-append pre (dhcp_msg_type ∷ 0 ∷ xs) (i + 2) 2,
  )
  round-type (x ∷ []) xs e = ground (
    arith,
    get_elem?-append pre (dhcp_msg_type ∷ 1 ∷ x ∷ xs) i 0,
    get_elem?-append pre (dhcp_msg_type ∷ 1 ∷ x ∷ xs) (i + 1) 1,
    get_elem?-append pre (dhcp_msg_type ∷ 1 ∷ x ∷ xs) (i + 2) 2,
  )
  round-type (x ∷ y ∷ value) xs e = ground (
    arith,
    get_elem?-append pre (dhcp_msg_type ∷ length (x ∷ y ∷ value) ∷ x ∷ y ∷ (value ++ xs)) i 0,
    get_elem?-append pre (dhcp_msg_type ∷ length (x ∷ y ∷ value) ∷ x ∷ y ∷ (value ++ xs)) (i + 1) 1,
    get_elem?-append pre (dhcp_msg_type ∷ length (x ∷ y ∷ value) ∷ x ∷ y ∷ (value ++ xs)) (i + 2) 2,
  )

  round-skip :
      (t : ℕ) (value xs : List ℕ)
      → t ≢ dhcp_pad
      → t ≢ dhcp_end
      → t ≢ dhcp_msg_type
      → n ≡ length pre + (length value + length xs + 2)
      → scan_round (pre ++ (t ∷ length value ∷ (value ++ xs))) n i
        ≡ next (i + (length value + 1) + 1)
  unfolding scan_round
  round-skip t value xs np ne nm e = ground (
    arith,
    get_elem?-append pre (t ∷ length value ∷ (value ++ xs)) i 0,
    get_elem?-append pre (t ∷ length value ∷ (value ++ xs)) (i + 1) 1,
  )

module _ (p : List ℕ) (n i : ℕ) where
  scan_past : (fuel : ℕ) → n ≤ i → scan_loop fuel p n i ≡ minus_one
  unfolding scan_loop
  scan_past zero h = ground arith
  scan_past (suc fuel) h = ground arith

  scan_stop :
      (fuel : ℕ) {r : Found} → i < n → scan_round p n i ≡ return r → scan_loop (suc fuel) p n i ≡ r
  unfolding scan_loop
  scan_stop fuel h e = ground arith

  scan_next :
      (fuel : ℕ) {j : ℕ}
      → i < n
      → scan_round p n i ≡ next j
      → scan_loop (suc fuel) p n i ≡ scan_loop fuel p n j
  unfolding scan_loop
  scan_next fuel h e = ground arith

-- The walk from the end of `pre` on finds the message type of the options that follow.
scan_loop-options :
    (os : List DhcpOption) (t : Tail) (fuel : ℕ) (pre : List ℕ) (n i : ℕ)
    → AreOptions os
    → i ≡ length pre
    → n ≡ length pre + length (options_bytes os t)
    → n ≤ i + fuel
    → scan_loop fuel (pre ++ options_bytes os t) n i ≡ message_type os
scan_loop-options [] nothing fuel pre n i v here e h = scan_past (pre ++ []) n i fuel (omega arith)
scan_loop-options [] (ended rest) zero pre n i v here e h = absurd (omega arith)
scan_loop-options [] (ended rest) (suc fuel) pre n i v here e h =
    scan_stop _ n i fuel (omega arith) (round-end pre n i here rest)
scan_loop-options (pad ∷ os) t zero pre n i v here e h = absurd (omega arith)
scan_loop-options (pad ∷ os) t (suc fuel) pre n i v here e h =
    scan_next _ n i fuel (omega arith) (round-pad pre n i here (options_bytes os t))
    ∙ rw append_assoc at (
        scan_loop-options os t fuel (pre ++ (dhcp_pad ∷ [])) n (i + 1) v.1
          (omega (arith, length-append {0} pre (dhcp_pad ∷ [])))
          (omega (arith, length-append {0} pre (dhcp_pad ∷ []))) (omega arith))
scan_loop-options (tagged c value ∷ os) t zero pre n i v here e h = absurd (omega arith)
scan_loop-options (tagged c value ∷ os) t (suc fuel) pre n i v here e h =
    let xs = options_bytes os t in
    let size = length-append {0} value xs in
    elim (ℕ_discrete c dhcp_msg_type) [
      | yes q ↦ rw q (
          scan_stop _ n i fuel (omega arith)
            (round-type pre n i here value xs (omega (arith, size))))
      | no q ↦
          scan_next _ n i fuel (omega arith)
            (round-skip pre n i here c value xs v.0.0 v.0.1 q (omega (arith, size)))
          ∙ rw (==_of_ne c dhcp_msg_type q) (
              rw append_assoc at (
                scan_loop-options os t fuel (pre ++ (c ∷ length value ∷ value)) n
                  (i + (length value + 1) + 1) v.1
                  (omega (arith, length-append {0} pre (c ∷ length value ∷ value)))
                  (omega (arith, size, length-append {0} pre (c ∷ length value ∷ value)))
                  (omega arith)))
    ]

-- On the bytes of a list of options, ended by an end octet or by the end of the bytes,
-- GetDHCPMessageType returns the value of the first message type option if that value is one octet,
-- and -1 if it is not or if there is no such option.
pub get_dhcp_message_type-options :
    (os : List DhcpOption) (t : Tail)
    → AreOptions os
    → get_dhcp_message_type (options_bytes os t) (length (options_bytes os t)) ≡ message_type os
unfolding get_dhcp_message_type
get_dhcp_message_type-options os t v =
    scan_loop-options os t (length (options_bytes os t)) [] _ 0 v refl (omega arith) (omega arith)
