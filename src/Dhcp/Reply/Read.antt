-- ===== src/Dhcp/Reply/Read.antt =====
-- What a client reads in the frame of a reply: its message type, transaction and address.
use tap_windows.Base.{
  ℕ, ◌+◌, ◌-◌, ◌≡◌, ◌∙◌, refl, sym, ap, arith, Bool, true, false, ◌||◌, List, [], ◌∷◌, ◌++◌, ◌==◌,
  take, drop, drop-later, slice, length, u8, u32_bytes, replicate, Bool-cases, inl, inr, subst, leb,
  if◌then◌else◌,
}
use tap_windows.Proto.{EthHeader, DhcpHdr}
use tap_windows.Adapter.{Adapter}
use tap_windows.Receive.{padded}
use tap_windows.Dhcp.Options.{dhcp_options_buffer_size}
use tap_windows.Dhcp.Options.Append.{View, append_opt}
use tap_windows.Dhcp.Reply.{reply_options, reply_frame, build_dhcp_pre, dhcpoffer, dhcpack, dhcpnak}
use tap_windows.Dhcp.Reply.Content.{
  HasUserOptions, grant_view, of_bytes, fixed_bytes, user_bytes, nak-Adds, grant-Adds,
}
use tap_windows.Dhcp.Scan.{dhcp_end}
use tap_windows.Dhcp.Reply.Wire.{message_at, options_at}

-- The first option of the DHCP message in a frame, which is behind 14, 20, 8 and 240 bytes of headers,
-- says the message type.
abbrev pub IsTyped : ℕ → List ℕ → Type 0
IsTyped type frame = slice frame 282 3 ≡ 53 ∷ 1 ∷ type ∷ []

append-first :
    (v : View) (bs : List ℕ) (x y z : ℕ) (rest : List ℕ)
    → v.bytes ≡ x ∷ y ∷ z ∷ rest
    → (more : List ℕ) × ((append_opt v bs).bytes ≡ x ∷ y ∷ z ∷ more)
append-first v bs x y z rest e = elim (Bool-cases v.overflow) [
  | inl over ↦ (rest, rw over e)
  | inr going ↦ elim (Bool-cases (leb (length v.bytes + length bs) dhcp_options_buffer_size)) [
    | inl fits ↦ (rest ++ bs, rw (going, fits) (ap (λ (l : List ℕ). l ++ bs) e))
    | inr full ↦ (rest, rw (going, full) e)
  ]
]

grant-first :
    (a : Adapter) (type : ℕ)
    → (more : List ℕ) × ((grant_view a type).bytes ≡ 53 ∷ 1 ∷ u8 type ∷ more)
grant-first a type =
    let fixed = of_bytes (fixed_bytes a type) in
    let (m, e) =
      append-first fixed (user_bytes a) 53 1 (u8 type) (drop 3 (fixed_bytes a type)) refl in
    append-first (append_opt fixed (user_bytes a)) (dhcp_end ∷ []) 53 1 (u8 type) m e

module _ (a : Adapter) (type : ℕ) (eth : EthHeader) (dhcp : DhcpHdr) (h : HasUserOptions a)
    (server : length a.dhcp_server_mac ≡ 6) (client : length eth.src ≡ 6) where
  first_options :
      (type == dhcpoffer || type == dhcpack || type == dhcpnak) ≡ true
      → (more : List ℕ) × (take (reply_options a type).optlen (reply_options a type).options
          ≡ 53 ∷ 1 ∷ type ∷ more)
  first_options known = elim (Bool-cases (type == dhcpoffer || type == dhcpack)) [
    | inl granted ↦
        let (more, e) = grant-first a type in
        let small : u8 type ≡ type = ground (arith, granted) in
        (
          more,
          ap (λ (v : View). v.bytes) (grant-Adds a type h granted).1
              ∙ e
              ∙ ap (λ (n : ℕ). 53 ∷ 1 ∷ n ∷ more) small,
        )
    | inr refused ↦
        let is_nak : type ≡ dhcpnak = ground (arith, known, refused) in
        subst
          (λ (t : ℕ).
            (more : List ℕ) × (take (reply_options a t).optlen (reply_options a t).options
              ≡ 53 ∷ 1 ∷ t ∷ more))
          (sym is_nak) (_, ap (λ (v : View). v.bytes) (nak-Adds a).1)
  ]

  -- Every reply says its own type.
  pub reply_frame-IsTyped :
      (type == dhcpoffer || type == dhcpack || type == dhcpnak) ≡ true
      → IsTyped type (padded (reply_frame a type eth dhcp))
  reply_frame-IsTyped known =
      let (more, first) = first_options known in
      let f = reply_frame a type eth dhcp in
      let zeros : List ℕ = replicate (60 - length f) 0 in
      ap (take 3) (
        options_at a type eth dhcp h server client known zeros
        ∙ ap (λ (l : List ℕ). l ++ zeros) first)

  -- The transaction is that of the request, and the address, of an offer or an acknowledgement, the
  -- configured one.
  pub granted-reads :
      (type == dhcpoffer || type == dhcpack) ≡ true
      → let frame = padded (reply_frame a type eth dhcp) in
        (slice frame 46 4 ≡ u32_bytes dhcp.xid) × (slice frame 58 4 ≡ u32_bytes a.dhcp_addr)
  unfolding build_dhcp_pre
  granted-reads known =
      let f = reply_frame a type eth dhcp in
      let zeros : List ℕ = replicate (60 - length f) 0 in
      let sent : (type == dhcpoffer || type == dhcpack || type == dhcpnak) ≡ true =
        ground (arith, known) in
      let not_nak : (type == dhcpnak) ≡ false = ground (arith, known) in
      let message = message_at a type eth dhcp h server client sent zeros in
      (
        ap (take 4) (drop-later 42 4 46 (f ++ zeros) refl ∙ ap (drop 4) message),
        ap (take 4) (drop-later 42 16 58 (f ++ zeros) refl ∙ ap (drop 16) message)
            ∙ ap (λ (b : Bool). u32_bytes (if b then 0 else a.dhcp_addr)) not_nak,
      )
