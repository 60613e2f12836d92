-- ===== src/Oid/Sound.antt =====
-- What an OID request may do to the adapter and to the memory of its buffer.
use tap_windows.Base.{
  ℕ, zero, suc, ◌/◌, ◌≤◌, ◌≡◌, ◌⊎◌, inl, inr, refl, ap, arith, List, length, length-write_at, take,
  drop,
}
use tap_windows.Adapter.{Adapter, success}
use tap_windows.Oid.{
  Oid, OidRequest, RequestType, Outcome, macs_at, set_multicast_list, set_packet_filter,
  set_power_state, set_lookahead, set_current_filter, set_oid, set_information_of, unsupported_bits,
  max_mcast_list, multicast_list, current_lookahead, current_packet_filter, set_power, xmit_ok,
  rcv_ok, set_information, query_information, query_statistics, method,
}
use tap_windows.Oid.Query.{System, Reply, query_oid, info, in_place, nothing, refused, too_small}
use tap_windows.Oid.Handler.{
  report_eight, answer_of, finish_query, query_information_of, oid_request_of, adapter_oid_request,
}

-- The members that OID requests set have values that the driver supports.
pub record IsSupported (a : Adapter) : Type 0 where
  pub filter : unsupported_bits a.packet_filter ≡ 0
  pub list : length a.mc_list ≤ max_mcast_list
  pub least_state : 1 ≤ a.current_power_state
  pub most_state : a.current_power_state ≤ 4

length-macs_at : (n : ℕ) (buffer : List ℕ) → length (macs_at n buffer) ≡ n
unfolding macs_at
length-macs_at zero buffer = refl
length-macs_at (suc n) buffer = ap suc (length-macs_at n (drop 6 buffer))

set_multicast_list-IsSupported :
    (a : Adapter) (r : OidRequest) → IsSupported a → IsSupported (set_multicast_list a r).2
unfolding set_multicast_list
set_multicast_list-IsSupported a r h =
    let size = length r.information_buffer in
    record {
      filter = ground (arith, h);
      list = ground (arith, h, length-macs_at (size / 6) r.information_buffer);
      least_state = ground (arith, h);
      most_state = ground (arith, h);
    }

-- A set request keeps the adapter supported, changes it only if it succeeds, and leaves the memory
-- of the buffer alone.
record IsAccepted (a : Adapter) (r : OidRequest) (o : Outcome) : Type 0 where
  supported : IsSupported o.2
  changed : (o.0 ≡ success) ⊎ (o.2 ≡ a)
  buffer : o.1.information_buffer ≡ r.information_buffer
  written : o.1.bytes_written ≡ r.bytes_written

multicast-IsAccepted :
    (a : Adapter) (r : OidRequest) → IsSupported a → IsAccepted a r (set_multicast_list a r)
unfolding set_multicast_list
multicast-IsAccepted a r h = record {
  supported = set_multicast_list-IsSupported a r h;
  changed = ground arith;
  buffer = ground arith;
  written = ground arith;
}

lookahead-IsAccepted :
    (a : Adapter) (r : OidRequest) → IsSupported a → IsAccepted a r (set_lookahead a r)
unfolding set_lookahead
lookahead-IsAccepted a r h = record {
  supported = record {
    filter = ground (arith, h);
    list = ground (arith, h);
    least_state = ground (arith, h);
    most_state = ground (arith, h);
  };
  changed = ground arith;
  buffer = ground arith;
  written = ground arith;
}

power-IsAccepted :
    (a : Adapter) (r : OidRequest) → IsSupported a → IsAccepted a r (set_power_state a r)
unfolding set_power_state
power-IsAccepted a r h = record {
  supported = record {
    filter = ground (arith, h);
    list = ground (arith, h);
    least_state = ground (arith, h);
    most_state = ground (arith, h);
  };
  changed = ground arith;
  buffer = ground arith;
  written = ground arith;
}

filter-IsAccepted :
    (a : Adapter) (r : OidRequest) → IsSupported a → IsAccepted a r (set_current_filter a r)
unfolding set_current_filter set_packet_filter
filter-IsAccepted a r h = record {
  supported = record {
    filter = ground (arith, h);
    list = ground (arith, h);
    least_state = ground (arith, h);
    most_state = ground (arith, h);
  };
  changed = ground arith;
  buffer = ground arith;
  written = ground arith;
}

set_oid-IsAccepted :
    (a : Adapter) (r : OidRequest) (o : Oid) → IsSupported a → IsAccepted a r (set_oid a r o)
unfolding set_oid
set_oid-IsAccepted a r multicast_list h = multicast-IsAccepted a r h
set_oid-IsAccepted a r current_lookahead h = lookahead-IsAccepted a r h
set_oid-IsAccepted a r current_packet_filter h = filter-IsAccepted a r h
set_oid-IsAccepted a r set_power h = power-IsAccepted a r h
set_oid-IsAccepted a r _ h = record {
  supported = h;
  changed = inr refl;
  buffer = refl;
  written = refl;
}

-- A query writes inside of the buffer.
record IsAnswer (r : OidRequest) (q : OidRequest) : Type 0 where
  memory : length q.information_buffer ≡ length r.information_buffer
  written : (q.bytes_written ≡ r.bytes_written) ⊎ (q.bytes_written ≤ length r.information_buffer)

finish-IsAnswer : (r : OidRequest) (reply : Reply) → IsAnswer r (finish_query r reply).1
unfolding finish_query answer_of
finish-IsAnswer r (info bytes len) =
    let same = length-write_at r.information_buffer 0 (take len bytes) in
    record { memory = ground (arith, same); written = ground (arith, same) }
finish-IsAnswer r (in_place bytes len) =
    let same = length-write_at r.information_buffer 0 bytes in
    record { memory = ground (arith, same); written = ground (arith, same) }
finish-IsAnswer r (nothing len) = record { memory = ground arith; written = ground arith }
finish-IsAnswer r (refused status) = record { memory = refl; written = inl refl }
finish-IsAnswer r (too_small needed) = record { memory = refl; written = inl refl }

report_eight-IsAnswer : (r q : OidRequest) (o : Oid) → IsAnswer (report_eight r o) q → IsAnswer r q
unfolding report_eight
report_eight-IsAnswer r q xmit_ok h = record { memory = h.memory; written = h.written }
report_eight-IsAnswer r q rcv_ok h = record { memory = h.memory; written = h.written }
report_eight-IsAnswer r q _ h = record { memory = h.memory; written = h.written }

query-IsAnswer :
    (system : System) (a : Adapter) (r : OidRequest)
    → IsAnswer r (query_information_of system a r).1
unfolding query_information_of
query-IsAnswer system a r =
    let asked = report_eight r r.oid in
    report_eight-IsAnswer r _ r.oid
      (finish-IsAnswer asked (query_oid system a (length r.information_buffer) r.oid))

IsSound : Adapter → OidRequest → RequestType → Outcome → Type 0
IsSound a r t o =
    IsSupported o.2
    × ((o.2 ≡ a) ⊎ ((t ≡ set_information) × (o.0 ≡ success)))
    × (length o.1.information_buffer ≡ length r.information_buffer)
    × ((o.1.bytes_written ≡ r.bytes_written) ⊎ (o.1.bytes_written ≤ length r.information_buffer))

IsAccepted-IsSound :
    (a : Adapter) (r : OidRequest) (o : Outcome) → IsAccepted a r o → IsSound a r set_information o
unfolding IsSound
IsAccepted-IsSound a r o h =
    let changed : (o.2 ≡ a) ⊎ ((set_information ≡ set_information) × (o.0 ≡ success)) =
      elim h.changed [ inl done ↦ inr (refl, done) | inr kept ↦ inl kept ] in
    (h.supported, changed, ap length h.buffer, inl h.written)

of-IsSound :
    (system : System) (a : Adapter) (r : OidRequest) (t : RequestType)
    → IsSupported a
    → IsSound a r t (oid_request_of system a r t)
unfolding oid_request_of set_information_of IsSound
of-IsSound system a r set_information h = IsAccepted-IsSound a r _ (set_oid-IsAccepted a r r.oid h)
of-IsSound system a r query_information h =
    let answer = query-IsAnswer system a r in (h, inl refl, answer.memory, answer.written)
of-IsSound system a r query_statistics h =
    let answer = query-IsAnswer system a r in (h, inl refl, answer.memory, answer.written)
of-IsSound system a r method h = (h, inl refl, refl, inl refl)

-- Whatever the OID request and whatever is in its buffer: afterwards the adapter has a supported
-- packet filter, at most 32 multicast addresses and a power state from D0 to D3, as it had before;
-- it is as it was unless the request sets something and succeeds; the buffer has the length that
-- it had; and the number of bytes that the driver says it wrote is the old one or at most that
-- length.
pub adapter_oid_request_sound :
    (system : System) (a : Adapter) (r : OidRequest)
    → IsSupported a
    → let (status, q, b) = adapter_oid_request system a r in
      IsSupported b
      × ((b ≡ a) ⊎ ((r.request_type ≡ set_information) × (status ≡ success)))
      × (length q.information_buffer ≡ length r.information_buffer)
      × ((q.bytes_written ≡ r.bytes_written) ⊎ (q.bytes_written ≤ length r.information_buffer))
unfolding adapter_oid_request IsSound
adapter_oid_request_sound system a r h = of-IsSound system a r r.request_type h
