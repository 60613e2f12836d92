-- ===== src/History/Completed.antt =====
-- Once the application has closed the device and the host has returned its lists, every request and
-- every list of frames was completed.
use tap_windows.Base.{
  ℕ, ◌≡◌, ◌∙◌, ◌⊎◌, inl, inr, ap, arith, false, Option, none, some, List, [], length, replicate,
}
use tap_windows.Ndis.{Nbl, RxNbl}
use tap_windows.Adapter.{Adapter}
use tap_windows.Adapter.Irps.{IrpCsq}
use tap_windows.Transmit.Read.Pended.{reads}
use tap_windows.Transmit.Read.Flow.{accounted, times}
use tap_windows.Write.{host_returns, pick_all}
use tap_windows.Write.Answered.{flying}
use tap_windows.Write.Returned.{return-in_flight, pick_all_firsts}
use tap_windows.Device.Session.{tap_device_cleanup}
use tap_windows.Create.{Answers, Settings, adapter_create}
use tap_windows.Create.Sound.{all_succeed, RegistryBytes, adapter_create-IsNew}
use tap_windows.History.{Operation, run, submitted}
use tap_windows.History.Well.{IsWell}
use tap_windows.History.Writes.{return-pending, returns-IsWell}
use tap_windows.History.Cancelled.{flush_irps-empty}
use tap_windows.History.Lists.{sent, cleanup-books, returns-books, run-accounted}
use tap_windows.History.Requests.{cleanup-IsWell}
use tap_windows.History.Preserved.{run-IsWell, new-IsWell}

-- TapDeviceCleanup, and then the host returns the lists that it has, the latest first.
abbrev pub wind_down : Adapter → Adapter
wind_down a = let b = tap_device_cleanup a in host_returns b (replicate (length b.in_flight) 0)

cleanup-empty : (a : Adapter) → (tap_device_cleanup a).pending_read_irp_queue.queue ≡ []
unfolding tap_device_cleanup
cleanup-empty a = flush_irps-empty _

returned-pending :
    (a : Adapter) (places : List ℕ)
    → (host_returns a places).pending_read_irp_queue ≡ a.pending_read_irp_queue
unfolding host_returns
returned-pending a places =
    let (chosen, left) = pick_all places a.in_flight in
    return-pending chosen (record a { in_flight = left })

returned-in_flight :
    (a : Adapter) → (host_returns a (replicate (length a.in_flight) 0)).in_flight ≡ []
unfolding host_returns
returned-in_flight a =
    let (chosen, left) = pick_all (replicate (length a.in_flight) 0) a.in_flight in
    return-in_flight (record a { in_flight = left }) chosen
    ∙ ap (λ (r : List RxNbl × List RxNbl). r.1) (pick_all_firsts a.in_flight)

-- Nothing waits and nothing is in flight.
record IsDone (t : ℕ → ℕ) (a : Adapter) : Type 0 where
  pending : a.pending_read_irp_queue.queue ≡ []
  in_flight : a.in_flight ≡ []
  completed : (id : ℕ) → reads id a.completed_irps ≡ t id

wind_down-IsDone : {t : ℕ → ℕ} → (a : Adapter) → IsWell t a → IsDone t (wind_down a)
wind_down-IsDone a w =
    let b = tap_device_cleanup a in
    let places = replicate (length b.in_flight) 0 in
    let c = wind_down a in
    let v = returns-IsWell b places (cleanup-IsWell a w) in
    let pending = ap (λ (q : IrpCsq). q.queue) (returned-pending b places) ∙ cleanup-empty a in
    let in_flight = returned-in_flight b in
    record {
      pending = pending;
      in_flight = in_flight;
      completed =
          λ id. omega (arith, v.requests id, ap (reads id) pending, ap (flying id) in_flight);
    }

-- No list of frames is held.
record IsReleased (n : ℕ → ℕ) (a : Adapter) : Type 0 where
  held : a.flow_control_list ≡ []
  completed : (id : ℕ) → times id a.completed_nbls ≡ n id

wind_down-IsReleased : (a : Adapter) → IsReleased (λ id. accounted id a) (wind_down a)
wind_down-IsReleased a =
    let b = tap_device_cleanup a in
    let same = returns-books b (replicate (length b.in_flight) 0) in
    record {
      held = ap (λ (l : List Nbl × List Nbl). l.1) same ∙ (cleanup-books a 0).1;
      completed =
          λ id. ap (λ (l : List Nbl × List Nbl). times id l.0) same ∙ (cleanup-books a id).0;
    }

-- An adapter that AdapterCreate makes, then any history of calls of the driver, and then
-- TapDeviceCleanup and the return of the lists that the host has: no read is pending, no write is in
-- flight and no list of frames is held; every request number is that of as many completed requests
-- as reads and writes were submitted with it in the history, and every list number that of as many
-- completed lists as the host sent with it. So every request and every list is completed, and
-- exactly once: reads that failed at once, that got a packet, that were cancelled or flushed; writes
-- that failed, that were dropped, or whose list came back; lists that were refused, sent, or held
-- by flow control. The registry holds bytes; without an adapter, the system refused something.
pub requests_completed :
    (system : Answers) (registry : Option Settings) (ops : List Operation)
    → RegistryBytes registry
    → ((adapter_create system registry ≡ none) × (all_succeed system ≡ false))
      ⊎ ((a : Adapter) × (adapter_create system registry ≡ some a)
          × (let b = wind_down (run a ops) in
              (b.pending_read_irp_queue.queue ≡ [])
              × (b.in_flight ≡ [])
              × (b.flow_control_list ≡ [])
              × ((id : ℕ) → reads id b.completed_irps ≡ submitted ops id)
              × ((id : ℕ) → times id b.completed_nbls ≡ sent ops id)))
requests_completed system registry ops bytes = elim (adapter_create-IsNew system registry bytes) [
  | inl failed ↦ inl failed
  | inr (a, made, all, new) ↦
      let h = wind_down-IsDone (run a ops) (run-IsWell ops a (new-IsWell a new)) in
      let l = wind_down-IsReleased (run a ops) in
      inr (
        a,
        made,
        (
          h.pending,
          h.in_flight,
          l.held,
          (λ id. omega (arith, h.completed id)),
          (λ id. omega (
            arith,
            l.completed id,
            run-accounted ops a id,
            ap (times id) new.idle.3,
            ap (times id) new.idle.4,
          )),
        ),
      )
]
