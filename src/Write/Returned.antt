-- ===== src/Write/Returned.antt =====
-- The way back of a list to the driver: AdapterReturnNetBufferLists completes each write once.
use tap_windows.Base.{
  ℕ, zero, suc, ◌+◌, ◌≤◌, ◌≡◌, ◌∙◌, refl, ◌⊎◌, inl, inr, sym, ap, arith, true, List, [], ◌∷◌, ◌++◌,
  length, length-append, replicate, u32,
}
use tap_windows.Ndis.{RxNbl}
use tap_windows.Adapter.{Adapter}
use tap_windows.Transmit.Read.Pended.{reads}
use tap_windows.Write.{complete_receive_nbl, return_net_buffer_lists, pick, pick_all, host_returns}
use tap_windows.Write.Answered.{carried, flying, known, IsCounted}

-- The host returns a list: its request is completed once, and the count is one less.
complete-known :
    (a : Adapter) (nbl : RxNbl) (id : ℕ)
    → reads id (complete_receive_nbl a nbl).completed_irps
      ≡ reads id a.completed_irps + carried id nbl.rx_irp
unfolding complete_receive_nbl
complete-known a nbl id = ground arith

return-known :
    (a : Adapter) (nbls : List RxNbl) (id : ℕ)
    → reads id (return_net_buffer_lists a nbls).completed_irps
      ≡ reads id a.completed_irps + flying id nbls
unfolding return_net_buffer_lists
return-known a [] id = omega arith
return-known a (nbl ∷ nbls) id =
    omega (arith, complete-known a nbl id, return-known (complete_receive_nbl a nbl) nbls id)

pub return-in_flight :
    (a : Adapter) (nbls : List RxNbl) → (return_net_buffer_lists a nbls).in_flight ≡ a.in_flight
unfolding return_net_buffer_lists complete_receive_nbl
return-in_flight a [] = refl
return-in_flight a (nbl ∷ nbls) = return-in_flight (complete_receive_nbl a nbl) nbls

-- After any returns the count is that of the lists before less those that came back.
return-count :
    (a : Adapter) (nbls : List RxNbl) (n : ℕ)
    → a.receive_nbl_in_flight_count ≡ u32 (n + length nbls)
    → (return_net_buffer_lists a nbls).receive_nbl_in_flight_count ≡ u32 n
unfolding return_net_buffer_lists complete_receive_nbl
return-count a [] n h = omega (arith, h)
return-count a (nbl ∷ nbls) n h =
    return-count (complete_receive_nbl a nbl) nbls n (omega (arith, h))

-- A list that brings the count to 0 sets the event.
return-event :
    (a : Adapter) (nbl : RxNbl) (nbls : List RxNbl)
    → a.receive_nbl_in_flight_count ≡ u32 (length (nbl ∷ nbls))
    → (return_net_buffer_lists a (nbl ∷ nbls)).receive_nbl_zero_event ≡ true
unfolding return_net_buffer_lists complete_receive_nbl
return-event a nbl [] h = ground (arith, h)
return-event a nbl (next ∷ nbls) h =
    return-event (complete_receive_nbl a nbl) next nbls (omega (arith, h))

pick-flying :
    (i : ℕ) (nbls : List RxNbl) (id : ℕ)
    → flying id (pick i nbls).0 + flying id (pick i nbls).1 ≡ flying id nbls
unfolding pick
pick-flying i [] id = omega arith
pick-flying zero (nbl ∷ nbls) id = omega arith
pick-flying (suc i) (nbl ∷ nbls) id = omega (arith, pick-flying i nbls id)

pick-length :
    (i : ℕ) (nbls : List RxNbl) → length (pick i nbls).0 + length (pick i nbls).1 ≡ length nbls
unfolding pick
pick-length i [] = omega arith
pick-length zero (nbl ∷ nbls) = omega arith
pick-length (suc i) (nbl ∷ nbls) = omega (arith, pick-length i nbls)

flying-append : (id : ℕ) (xs ys : List RxNbl) → flying id (xs ++ ys) ≡ flying id xs + flying id ys
flying-append id [] ys = omega arith
flying-append id (x ∷ xs) ys = omega (arith, flying-append id xs ys)

pick_all-flying :
    (places : List ℕ) (nbls : List RxNbl) (id : ℕ)
    → flying id (pick_all places nbls).0 + flying id (pick_all places nbls).1 ≡ flying id nbls
unfolding pick_all
pick_all-flying [] nbls id = omega arith
pick_all-flying (i ∷ places) nbls id =
    let (chosen, rest) = pick i nbls in
    omega (
      arith,
      pick-flying i nbls id,
      pick_all-flying places rest id,
      flying-append id chosen (pick_all places rest).0,
    )

pub pick_all-length :
    (places : List ℕ) (nbls : List RxNbl)
    → length (pick_all places nbls).0 + length (pick_all places nbls).1 ≡ length nbls
unfolding pick_all
pick_all-length [] nbls = omega arith
pick_all-length (i ∷ places) nbls =
    let (chosen, rest) = pick i nbls in
    omega (
      arith,
      pick-length i nbls,
      pick_all-length places rest,
      length-append chosen (pick_all places rest).0,
    )

-- The host may return all lists, the latest first.
pub pick_all_firsts : (nbls : List RxNbl) → pick_all (replicate (length nbls) 0) nbls ≡ (nbls, [])
unfolding pick_all pick
pick_all_firsts [] = refl
pick_all_firsts (nbl ∷ nbls) = rw (pick_all_firsts nbls) refl

-- Whichever lists in flight the host returns, and in which order: every write whose list comes back
-- is completed, once, the others stay in flight, and the count of lists in flight, if it was true,
-- stays so.
pub host_returns-known :
    (a : Adapter) (places : List ℕ) (id : ℕ)
    → IsCounted a
    → (known id (host_returns a places) ≡ known id a) × IsCounted (host_returns a places)
unfolding host_returns
host_returns-known a places id counted =
    let (chosen, left) = pick_all places a.in_flight in
    let b = record a { in_flight = left } in
    let lengths = pick_all-length places a.in_flight in
    let lists = return-in_flight b chosen in
    (
      omega (
        arith,
        return-known b chosen id,
        ap (flying id) lists,
        pick_all-flying places a.in_flight id,
      ),
      return-count b chosen (length left) (counted ∙ ap u32 (omega (arith, lengths)))
          ∙ ap (λ (l : List RxNbl). u32 (length l)) (sym lists),
    )

return_nonempty-event :
    (a : Adapter) (nbls : List RxNbl)
    → a.receive_nbl_in_flight_count ≡ u32 (length nbls)
    → 1 ≤ length nbls
    → (return_net_buffer_lists a nbls).receive_nbl_zero_event ≡ true
return_nonempty-event a [] h some_flying = absurd (omega arith)
return_nonempty-event a (nbl ∷ nbls) h some_flying = return-event a nbl nbls h

-- The host returns lists in so many calls of AdapterReturnNetBufferLists, in any order.
abbrev pub host_returns_each : Adapter → List (List ℕ) → Adapter
host_returns_each a [] = a
host_returns_each a (places ∷ calls) = host_returns_each (host_returns a places) calls

empty-cases : (nbls : List RxNbl) → (nbls ≡ []) ⊎ (1 ≤ length nbls)
empty-cases [] = inl refl
empty-cases (nbl ∷ nbls) = inr (omega arith)

was_set :
    (a : Adapter)
    → a.in_flight ≡ []
    → (1 ≤ length a.in_flight) ⊎ (a.receive_nbl_zero_event ≡ true)
    → a.receive_nbl_zero_event ≡ true
was_set a idle (inl some_flying) = absurd (omega (arith, some_flying, ap length idle))
was_set a idle (inr set) = set

none_returned :
    (a : Adapter) (nbls : List RxNbl)
    → length nbls ≡ 0
    → (return_net_buffer_lists a nbls).receive_nbl_zero_event ≡ a.receive_nbl_zero_event
unfolding return_net_buffer_lists
none_returned a [] e = refl
none_returned a (nbl ∷ nbls) e = absurd (omega arith)

emptied-event :
    (a : Adapter) (places : List ℕ)
    → IsCounted a
    → 1 ≤ length a.in_flight
    → (host_returns a places).in_flight ≡ []
    → (host_returns a places).receive_nbl_zero_event ≡ true
unfolding host_returns
emptied-event a places counted some_flying empty =
    let (chosen, left) = pick_all places a.in_flight in
    let b = record a { in_flight = left } in
    let all_chosen : length chosen ≡ length a.in_flight = omega (
      arith,
      pick_all-length places a.in_flight,
      ap length (sym (return-in_flight b chosen) ∙ empty),
    ) in
    return_nonempty-event b chosen (counted ∙ ap u32 (sym all_chosen))
      (omega (arith, all_chosen, some_flying))

idle_event :
    (a : Adapter) (places : List ℕ)
    → a.in_flight ≡ []
    → (host_returns a places).receive_nbl_zero_event ≡ a.receive_nbl_zero_event
unfolding host_returns
idle_event a places empty =
    let (chosen, left) = pick_all places a.in_flight in
    none_returned (record a { in_flight = left }) chosen
      (omega (arith, pick_all-length places a.in_flight, ap length empty))

-- After one call the event is set or a list is in flight, if that was so before.
one-event :
    (a : Adapter) (places : List ℕ)
    → IsCounted a
    → (1 ≤ length a.in_flight) ⊎ (a.receive_nbl_zero_event ≡ true)
    → let b = host_returns a places in (1 ≤ length b.in_flight) ⊎ (b.receive_nbl_zero_event ≡ true)
one-event a places counted start = elim (empty-cases (host_returns a places).in_flight) [
  | inr left ↦ inl left
  | inl emptied ↦ elim (empty-cases a.in_flight) [
    | inr before ↦ inr (emptied-event a places counted before emptied)
    | inl idle ↦ inr (idle_event a places idle ∙ was_set a idle start)
  ]
]

each-known :
    (calls : List (List ℕ)) (a : Adapter) (id : ℕ)
    → IsCounted a
    → (known id (host_returns_each a calls) ≡ known id a) × IsCounted (host_returns_each a calls)
each-known [] a id counted = (refl, counted)
each-known (places ∷ calls) a id counted =
    let (first, counted') = host_returns-known a places id counted in
    let (later, counted'') = each-known calls (host_returns a places) id counted' in
    (later ∙ first, counted'')

each-event :
    (calls : List (List ℕ)) (a : Adapter)
    → IsCounted a
    → (1 ≤ length a.in_flight) ⊎ (a.receive_nbl_zero_event ≡ true)
    → (host_returns_each a calls).in_flight ≡ []
    → (host_returns_each a calls).receive_nbl_zero_event ≡ true
each-event [] a counted (inl some_flying) empty =
    absurd (omega (arith, some_flying, ap length empty))
each-event [] a counted (inr set) empty = set
each-event (places ∷ calls) a counted start empty =
    let b = host_returns a places in
    each-event calls b (host_returns-known a places 0 counted).1 (one-event a places counted start)
      empty

-- Once the host has returned every list that was in flight, in any number of calls of
-- AdapterReturnNetBufferLists and in any order, the count of lists in flight is 0, every write is
-- completed as often as it was known, and the event that AdapterPause waits for is set. There was a
-- list in flight, and the count was true.
pub host_returns-all :
    (a : Adapter) (calls : List (List ℕ)) (id : ℕ)
    → IsCounted a
    → 1 ≤ length a.in_flight
    → (host_returns_each a calls).in_flight ≡ []
    → let b = host_returns_each a calls in
      (b.receive_nbl_in_flight_count ≡ 0)
      × (reads id b.completed_irps ≡ known id a)
      × (b.receive_nbl_zero_event ≡ true)
host_returns-all a calls id counted some_flying empty =
    let (same, counted') = each-known calls a id counted in
    (
      counted' ∙ ap (λ (l : List RxNbl). u32 (length l)) empty,
      omega (arith, same, ap (flying id) empty),
      each-event calls a counted (inl some_flying) empty,
    )
