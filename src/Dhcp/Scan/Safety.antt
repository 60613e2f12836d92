-- ===== src/Dhcp/Scan/Safety.antt =====
-- The walk through the options reads inside of them and ends.
use tap_windows.Base.{
  ℕ, zero, suc, ◌+◌, ◌≤◌, ◌<◌, ◌≡◌, ◌≢◌, arith, List, leb, length, get_elem?-eq-some, Bool-cases,
  inl, inr,
}
use tap_windows.Dhcp.Scan.{
  Found, bad_read, no_fuel, Round, return, next, scan_round, scan_loop, get_dhcp_message_type,
}

abbrev Fine : Found → Type 0
Fine r = (r ≢ bad_read) × (r ≢ no_fuel)

-- A round returns a proper result, or moves on.
abbrev Moves : ℕ → Round → Type 0
Moves i (return r) = Fine r
Moves i (next j) = i < j

scan_round-Moves :
    (p : List ℕ) (optlen i : ℕ) → length p ≡ optlen → i < optlen → Moves i (scan_round p optlen i)
unfolding scan_round
scan_round-Moves p optlen i e h =
    ground
      (arith, get_elem?-eq-some p i 0, get_elem?-eq-some p (i + 1) 0, get_elem?-eq-some p (i + 2) 0)

follow-Fine :
    (i : ℕ) (r : Round) (k : ℕ → Found)
    → Moves i r
    → ((j : ℕ) → i < j → Fine (k j))
    → Fine (elim r [ return x ↦ x | next j ↦ k j ])
follow-Fine i (return x) k m ih = m
follow-Fine i (next j) k m ih = ih j m

scan_loop-Fine :
    (fuel : ℕ) (p : List ℕ) (optlen i : ℕ)
    → length p ≡ optlen
    → optlen ≤ i + fuel
    → Fine (scan_loop fuel p optlen i)
unfolding scan_loop
scan_loop-Fine zero p optlen i e h = ground arith
scan_loop-Fine (suc fuel) p optlen i e h = elim (Bool-cases (leb optlen i)) [
  | inl done ↦ rw done (ground arith)
  | inr more ↦ rw more (
      follow-Fine i (scan_round p optlen i) (scan_loop fuel p optlen)
        (scan_round-Moves p optlen i e (ground arith))
        (λ j m. scan_loop-Fine fuel p optlen j e (omega arith)))
]

-- GetDHCPMessageType, called with the number of the option bytes, reads no byte outside of them,
-- and its loop ends within as many rounds: whatever the bytes, it returns a message type or -1.
pub get_dhcp_message_type_safe :
    (p : List ℕ) (optlen : ℕ)
    → length p ≡ optlen
    → (get_dhcp_message_type p optlen ≢ bad_read) × (get_dhcp_message_type p optlen ≢ no_fuel)
unfolding get_dhcp_message_type
get_dhcp_message_type_safe p optlen e = scan_loop-Fine optlen p optlen 0 e (omega arith)
