-- ===== src/Dhcp/Options/Append.antt =====
-- The options under construction as a bounded list that, once it overflows, takes nothing more.
use tap_windows.Base.{
  ℕ, ◌+◌, ◌≤◌, ◌<◌, ◌^◌, ◌≡◌, ◌⊎◌, zero, suc, [], ◌∷◌, refl, ◌∙◌, drop, write_at, add32, sym, ap,
  ◌==◌, Bool-cases, inl, inr, arith, Bool, true, false, List, ◌++◌, append-nil, leb, if◌then◌else◌,
  take, length, length-take, length-write_at, take-write_at,
}
use tap_windows.Dhcp.Options.{Options, set_dhcp_opt, dhcp_options_buffer_size}

-- The options so far lie inside of the buffer.
pub record IsMsg (m : Options) : Type 0 where
  pub size : length m.options ≡ dhcp_options_buffer_size
  pub within : m.optlen ≤ dhcp_options_buffer_size

-- The option bytes so far, and whether any were turned down.
pub record View : Type 0 where
  pub bytes : List ℕ
  pub overflow : Bool

abbrev pub view : Options → View
view m = record { bytes = take m.optlen m.options; overflow = m.overflow }

-- What SetDHCPOpt promises.
abbrev pub append_opt : View → List ℕ → View
append_opt v bs =
    if v.overflow
    then v
    else if leb (length v.bytes + length bs) dhcp_options_buffer_size
    then record v { bytes = v.bytes ++ bs }
    else record v { overflow = true }

-- What lies from `n` on stays where less than `n` bytes are written.
drop-write_at :
    (m : List ℕ) (o n : ℕ) (bs : List ℕ) → o + length bs ≤ n → drop n (write_at m o bs) ≡ drop n m
drop-write_at [] o n bs h = refl
drop-write_at (x ∷ m) (suc o) zero bs h = absurd (omega arith)
drop-write_at (x ∷ m) (suc o) (suc n) bs h = drop-write_at m o n bs (omega arith)
drop-write_at (x ∷ m) zero n [] h = refl
drop-write_at (x ∷ m) zero zero (b ∷ bs) h = absurd (omega arith)
drop-write_at (x ∷ m) zero (suc n) (b ∷ bs) h = drop-write_at m zero n bs (omega arith)

abbrev of_open : List ℕ → View
of_open bs = record { bytes = bs; overflow = false }

set_dhcp_opt-view :
    (m : Options) (bs : List ℕ) (len : ℕ)
    → dhcp_options_buffer_size ≤ length m.options
    → m.optlen ≤ dhcp_options_buffer_size
    → len ≤ length bs
    → len < 2 ^ 31
    → view (set_dhcp_opt m bs len) ≡ append_opt (view m) (take len bs)
unfolding set_dhcp_opt
set_dhcp_opt-view m bs len size within h k =
    let taken : length (take len bs) ≡ len = omega (arith, length-take len bs) in
    let so_far : length (take m.optlen m.options) ≡ m.optlen =
      omega (arith, length-take m.optlen m.options) in
    let sum : add32 m.optlen len ≡ m.optlen + len = omega arith in
    let o = m.optlen in
    elim (Bool-cases m.overflow) [
      | inl over ↦ rw over refl
      | inr going ↦ elim (Bool-cases (leb (o + len) dhcp_options_buffer_size)) [
        | inr full ↦ rw (going, sum, so_far, taken, full) refl
        | inl fits ↦ elim (Bool-cases (len == 0)) [
          | inl none_given ↦
              let zero_len : len ≡ 0 = ground (arith, none_given) in
              rw (going, sum, so_far, taken, fits, none_given)
                (ap of_open (
                  sym (append-nil (take o m.options))
                  ∙ ap (λ (n : ℕ). take o m.options ++ take n bs) (sym zero_len)))
          | inr some_given ↦
              let within_memory : o + len ≤ length m.options = ground (arith, fits, size) in
              rw (going, sum, so_far, taken, fits, some_given)
                (ap of_open (
                  take-write_at m.options o (o + len) (take len bs) (omega (arith, taken))
                    within_memory))
        ]
      ]
    ]

set_dhcp_opt-behind :
    (m : Options) (bs : List ℕ) (len : ℕ)
    → m.optlen ≤ dhcp_options_buffer_size
    → len ≤ length bs
    → len < 2 ^ 31
    → drop dhcp_options_buffer_size (set_dhcp_opt m bs len).options
      ≡ drop dhcp_options_buffer_size m.options
unfolding set_dhcp_opt
set_dhcp_opt-behind m bs len within h k =
    let taken : length (take len bs) ≡ len = omega (arith, length-take len bs) in
    let behind : m.optlen + len ≤ dhcp_options_buffer_size
        → drop dhcp_options_buffer_size (write_at m.options m.optlen (take len bs))
          ≡ drop dhcp_options_buffer_size m.options =
      λ fits.
        drop-write_at m.options m.optlen dhcp_options_buffer_size (take len bs)
          (omega (arith, taken, fits)) in
    elim (Bool-cases m.overflow) [
      | inl over ↦ rw (over, set_dhcp_opt) refl
      | inr going ↦ elim (Bool-cases (leb (add32 m.optlen len) dhcp_options_buffer_size)) [
        | inr full ↦ rw (set_dhcp_opt, going, full) refl
        | inl fits ↦ elim (Bool-cases (len == 0)) [
          | inl none_given ↦ rw (set_dhcp_opt, going, fits, none_given) refl
          | inr some_given ↦
              rw (set_dhcp_opt, going, fits, some_given) (behind (ground (arith, fits)))
        ]
      ]
    ]

-- SetDHCPOpt appends the given bytes if they fit into the rest of the 256 bytes; if not it sets
-- the overflow flag, and then nor does any later call append. A call after which the flag is set
-- writes no byte, and no call writes a byte behind the 256, whatever memory is there. The options so
-- far lie inside of the buffer, and they still do after it. The memory of the caller holds `len`
-- bytes, and `len` is below 2 ^ 31.
pub set_dhcp_opt_lem :
    (m : Options) (bs : List ℕ) (len : ℕ)
    → dhcp_options_buffer_size ≤ length m.options
    → m.optlen ≤ dhcp_options_buffer_size
    → len ≤ length bs
    → len < 2 ^ 31
    → let n = set_dhcp_opt m bs len in
      (n.optlen ≤ dhcp_options_buffer_size)
      × (view n ≡ append_opt (view m) (take len bs))
      × ((n.overflow ≡ false) ⊎ (n.options ≡ m.options))
      × (length n.options ≡ length m.options)
      × (drop dhcp_options_buffer_size n.options ≡ drop dhcp_options_buffer_size m.options)
unfolding set_dhcp_opt
set_dhcp_opt_lem m bs len size within h k =
    let taken = length-take len bs in
    let same = length-write_at m.options m.optlen (take len bs) in
    (
      ground (arith, within),
      set_dhcp_opt-view m bs len size within h k,
      ground arith,
      ground (arith, same),
      set_dhcp_opt-behind m bs len within h k,
    )

-- The same where there is no memory behind the buffer.
pub set_dhcp_opt-IsMsg :
    (m : Options) (bs : List ℕ) (len : ℕ)
    → IsMsg m
    → len ≤ length bs
    → len < 2 ^ 31
    → IsMsg (set_dhcp_opt m bs len)
      × (view (set_dhcp_opt m bs len) ≡ append_opt (view m) (take len bs))
set_dhcp_opt-IsMsg m bs len v h k =
    let kept = set_dhcp_opt_lem m bs len (omega (arith, v.size)) v.within h k in
    (record { size = omega (arith, kept.3, v.size); within = kept.0 }, kept.1)
