-- ===== src/Create/Sound.antt =====
-- What holds of a new adapter.
use tap_windows.Base.{
  ℕ, zero, suc, ◌≤◌, ◌≡◌, ◌⊎◌, inl, inr, refl, ap, ◌∙◌, arith, Bool, true, false, not, ◌&&◌, ◌||◌,
  List, [], ◌∷◌, ◌++◌, Option, none, some, length, take, length-take, length-append, IsBytes,
  Bool-cases, Option-cases, replicate,
}
use tap_windows.Mac.{Mac, IsMac, generate_random_mac}
use tap_windows.Mac.Generate.{digit_pairs, digits_from, generate_random_mac-digits}
use tap_windows.Adapter.{
  Adapter, read_and_write_ready, send_and_receive_ready, is_success, paused, initializing,
}
use tap_windows.Adapter.Queue.{initialize}
use tap_windows.Adapter.Queue.Fifo.{IsQueue}
use tap_windows.Adapter.Irps.{irp_csq_initialize}
use tap_windows.Frames.{is_multicast}
use tap_windows.Device.Closed.{IsPending}
use tap_windows.Device.Configured.{IsConfigured}
use tap_windows.Oid.Sound.{IsSupported}
use tap_windows.Write.Answered.{IsCounted}
use tap_windows.Create.{
  Settings, Answers, allocated_adapter, checked_mtu, mtu_of, is_custom_address,
  read_current_address, read_settings, read_instance, read_configuration, create_tap_device,
  adapter_create, minimum_mtu, maximum_mtu,
}

-- The bytes that NdisReadNetworkAddress gives are bytes.
abbrev pub HasBytes : Option (List ℕ) → Type 0
HasBytes none = Unit
HasBytes (some address) = IsBytes address

IsBytes-append : (xs ys : List ℕ) → IsBytes xs → IsBytes ys → IsBytes (xs ++ ys)
IsBytes-append [] ys h v = v
IsBytes-append (x ∷ xs) ys h v = (h.0, IsBytes-append xs ys h.1 v)

IsBytes-take : (n : ℕ) (xs : List ℕ) → IsBytes xs → IsBytes (take n xs)
IsBytes-take zero xs h = tt
IsBytes-take (suc n) [] h = tt
IsBytes-take (suc n) (x ∷ xs) h = (h.0, IsBytes-take n xs h.1)

digit_pairs-IsBytes : (ds : List ℕ) → IsBytes (digit_pairs ds)
digit_pairs-IsBytes [] = tt
digit_pairs-IsBytes (a ∷ []) = tt
digit_pairs-IsBytes (a ∷ b ∷ ds) = (omega arith, digit_pairs-IsBytes ds)

-- GenerateRandomMac makes a MAC address, which is not one of a group.
random-IsMac :
    (name : List ℕ)
    → IsMac (generate_random_mac name) × (is_multicast (generate_random_mac name) ≡ false)
random-IsMac name =
    let ds = digits_from false name in
    let zeros : IsBytes (0 ∷ 0 ∷ 0 ∷ 0 ∷ []) =
      (omega arith, (omega arith, (omega arith, (omega arith, tt)))) in
    let four : IsBytes (take 4 (digit_pairs ds ++ 0 ∷ 0 ∷ 0 ∷ 0 ∷ [])) =
      IsBytes-take 4 _ (IsBytes-append (digit_pairs ds) _ (digit_pairs-IsBytes ds) zeros) in
    let size : length (take 4 (digit_pairs ds ++ 0 ∷ 0 ∷ 0 ∷ 0 ∷ [])) ≡ 4 = omega (
      arith,
      length-take 4 (digit_pairs ds ++ 0 ∷ 0 ∷ 0 ∷ 0 ∷ []),
      length-append (digit_pairs ds) (0 ∷ 0 ∷ 0 ∷ 0 ∷ []),
    ) in
    rw (generate_random_mac-digits name)
      ((omega (arith, size), (omega arith, (omega arith, four))), refl)

-- The address of the registry is taken only if it is one of a single adapter.
current-IsMac :
    (permanent : Mac) (address : Option (List ℕ))
    → IsMac permanent
    → is_multicast permanent ≡ false
    → HasBytes address
    → IsMac (read_current_address permanent address)
      × (is_multicast (read_current_address permanent address) ≡ false)
unfolding read_current_address is_custom_address
current-IsMac permanent none h v b = (h, v)
current-IsMac permanent (some address) h v b = elim (Bool-cases (is_custom_address address)) [
  | inl custom ↦ rw custom ((ground (arith, custom), b), ground (arith, custom))
  | inr other ↦ rw other (h, v)
]

checked_mtu_lem :
    (value : ℕ) → (minimum_mtu ≤ checked_mtu value) × (checked_mtu value ≤ maximum_mtu)
unfolding checked_mtu
checked_mtu_lem value = ground arith

mtu_of_lem : (mtu : Option ℕ) → (minimum_mtu ≤ mtu_of mtu) × (mtu_of mtu ≤ maximum_mtu)
unfolding mtu_of
mtu_of_lem none = (omega arith, omega arith)
mtu_of_lem (some value) = checked_mtu_lem value

-- What tapReadConfiguration may set
record Config : Type 0 where
  mtu : ℕ
  always : Bool
  logical : ℕ
  permanent : Mac
  current : Mac

record IsConfig (s : Config) : Type 0 where
  least : minimum_mtu ≤ s.mtu
  most : s.mtu ≤ maximum_mtu
  address : IsMac s.current
  single : is_multicast s.current ≡ false

abbrev with_config : Adapter → Config → Adapter
with_config a s = record a {
  mtu_size = s.mtu;
  media_state_always_connected = s.always;
  logical_media_state = s.logical;
  permanent_address = s.permanent;
  current_address = s.current;
}

-- An adapter that was created is paused, and no file has its device; every invariant holds of it
-- that the operations keep.
pub record IsNew (a : Adapter) : Type 0 where
  pub state : a.adapter_state ≡ paused
  pub silent : is_success (send_and_receive_ready a) ≡ false
  pub unready : read_and_write_ready a ≡ false
  pub packets : IsQueue a.send_packet_queue
  pub pending : IsPending a
  pub counted : IsCounted a
  pub idle :
      (a.completed_irps ≡ [])
      × (a.pending_read_irp_queue.queue ≡ [])
      × (a.in_flight ≡ [])
      × (a.completed_nbls ≡ [])
      × (a.flow_control_list ≡ [])
  pub configured : IsConfigured a
  pub supported : IsSupported a
  pub least_mtu : minimum_mtu ≤ a.mtu_size
  pub most_mtu : a.mtu_size ≤ maximum_mtu
  pub single : is_multicast a.current_address ≡ false

abbrev started : Config → Adapter
started s = record (with_config allocated_adapter s) {
  priority_behavior = 0;
  tap_device_created = true;
  adapter_state = paused;
}

started-IsNew : (s : Config) → IsConfig s → IsNew (started s)
unfolding allocated_adapter initialize irp_csq_initialize send_and_receive_ready
    read_and_write_ready
started-IsNew s h = record {
  state = refl;
  silent = ground arith;
  unready = refl;
  packets = record { count = refl; total = refl; bound = omega arith };
  pending = record { count = refl; bound = omega arith };
  counted = refl;
  idle = (refl, refl, refl, refl, refl);
  configured = record {
    address = h.address;
    buffer = refl;
    used = omega arith;
    peer = inl refl;
    server = inl refl;
    arp = refl;
  };
  supported = record {
    filter = refl;
    list = omega arith;
    least_state = omega arith;
    most_state = omega arith;
  };
  least_mtu = h.least;
  most_mtu = h.most;
  single = h.single;
}

abbrev default_config : Config
default_config = record {
  mtu = 1500;
  always = false;
  logical = 0;
  permanent = replicate 6 0;
  current = replicate 6 0;
}

default-IsConfig : IsConfig default_config
default-IsConfig = record {
  least = omega arith;
  most = omega arith;
  address = (refl, omega arith);
  single = refl;
}

-- The bytes of NetworkAddress, where there are any, are bytes.
abbrev pub RegistryBytes : Option Settings → Type 0
RegistryBytes none = Unit
RegistryBytes (some settings) = HasBytes settings.network_address

abbrev initial : Adapter
initial = record allocated_adapter { adapter_state = initializing }

read-IsConfig :
    (registry : Option Settings)
    → RegistryBytes registry
    → (s : Config) × (read_configuration initial registry ≡ with_config initial s) × IsConfig s
unfolding read_configuration read_instance read_settings allocated_adapter
read-IsConfig none b = (default_config, refl, default-IsConfig)
read-IsConfig (some settings) b = elim (Option-cases settings.instance_id) [
  | inl missing ↦ (default_config, ap (read_instance _ settings) missing, default-IsConfig)
  | inr (id, found) ↦
      let (mac, single) = random-IsMac id in
      let (address, alone) =
        current-IsMac (generate_random_mac id) settings.network_address mac single b in
      let (least, most) = mtu_of_lem settings.mtu in
      (
        _,
        ap (read_instance _ settings) found,
        record { least = least; most = most; address = address; single = alone },
      )
]

abbrev opened : Adapter → Adapter
opened b = record b { priority_behavior = 0; tap_device_created = true; adapter_state = paused }

-- Every call of the system succeeds.
abbrev pub all_succeed : Answers → Bool
all_succeed system =
    system.memory
    && system.registration_attributes
    && system.general_attributes
    && system.device
    && (not system.enable_tap_diag || system.diag_device)

create-cases :
    (system : Answers) (registry : Option Settings)
    → ((adapter_create system registry ≡ none) × (all_succeed system ≡ false))
      ⊎ ((adapter_create system registry ≡ some (opened (read_configuration initial registry)))
          × (all_succeed system ≡ true))
unfolding adapter_create create_tap_device
create-cases system registry = ground arith

-- Whatever the registry holds, AdapterCreate makes an adapter if every call of the system succeeds,
-- and only then. The adapter is paused and closed; the counters of its packet queue, of its pending
-- reads and of its frames in flight are true, it is well configured, and it has a supported packet
-- filter, multicast list and power state; its MTU lies between 576 and 65536, and its address is a
-- MAC address and not one of a group. The address that NDIS reads from the registry consists of
-- bytes.
pub adapter_create-IsNew :
    (system : Answers) (registry : Option Settings)
    → RegistryBytes registry
    → ((adapter_create system registry ≡ none) × (all_succeed system ≡ false))
      ⊎ ((a : Adapter) × (adapter_create system registry ≡ some a)
          × (all_succeed system ≡ true)
          × IsNew a)
adapter_create-IsNew system registry b =
    let (s, read, h) = read-IsConfig registry b in
    elim (create-cases system registry) [
      | inl failed ↦ inl failed
      | inr (made, all) ↦
          inr (started s, made ∙ ap (λ (c : Adapter). some (opened c)) read, all, started-IsNew s h)
    ]
