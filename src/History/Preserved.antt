-- ===== src/History/Preserved.antt =====
-- Whatever happens to an adapter, it stays well and no request is lost.
use tap_windows.Base.{
  ℕ, ◌+◌, ◌≡◌, ◌∙◌, refl, ap, arith, true, false, Option, some, none, List, [], ◌∷◌, ◌⊎◌, inl, inr,
}
use tap_windows.Adapter.{Adapter}
use tap_windows.Device.{Request}
use tap_windows.Device.Session.{diag_device_control}
use tap_windows.Transmit.Read.Pended.{reads}
use tap_windows.Write.Answered.{flying}
use tap_windows.Lifecycle.{
  adapter_restart, adapter_reset, adapter_shutdown, adapter_halt, begin_pause,
}
use tap_windows.Create.{Answers, Settings, adapter_create}
use tap_windows.Create.Sound.{IsNew, all_succeed, RegistryBytes, adapter_create-IsNew}
use tap_windows.History.{Operation, perform, run, asks, submitted}
use tap_windows.History.Well.{IsWell, IsWell-of, if-Keeps}
use tap_windows.History.Reads.{send-IsWell, read-IsWell}
use tap_windows.History.Writes.{write-IsWell, returns-IsWell}
use tap_windows.History.Cancelled.{cancel-IsWell}
use tap_windows.History.Requests.{
  configure-IsWell, open-IsWell, cleanup-IsWell, close-IsWell, destroy-IsWell, state-IsWell,
  oid-IsWell,
}

module _ {t : ℕ → ℕ} (a : Adapter) where
  pub recount : {u : ℕ → ℕ} → ((id : ℕ) → t id ≡ u id) → IsWell t a → IsWell u a
  recount same w =
      IsWell-of a a w refl w.packets w.pending w.counted (λ id. w.requests id ∙ same id)

  as_before : IsWell t a → IsWell (λ id. t id + 0) a
  as_before w = recount (λ id. omega arith) w

  pause-IsWell : IsWell t a → IsWell t (begin_pause a)
  unfolding begin_pause
  pause-IsWell w =
      IsWell-of a (begin_pause a) w refl w.packets w.pending (omega (arith, w.counted)) w.requests

  diag-IsWell : (r : Request) → IsWell t a → IsWell t (diag_device_control a r).1
  unfolding diag_device_control
  diag-IsWell (Request.media_status input) w = configure-IsWell a (Request.media_status input) w
  diag-IsWell (Request.priority_behavior input) w =
      configure-IsWell a (Request.priority_behavior input) w
  diag-IsWell _ w = w

  reset-IsWell : IsWell t a → IsWell t (adapter_reset a).1
  unfolding adapter_reset
  reset-IsWell w = IsWell-of a _ w refl w.packets w.pending w.counted w.requests

perform-IsWell :
    {t : ℕ → ℕ}
    → (op : Operation) (a : Adapter) → IsWell t a
    → IsWell (λ id. t id + asks op id) (perform a op)
unfolding perform adapter_restart adapter_shutdown adapter_halt
perform-IsWell (Operation.send supply nbls) a w = as_before _ (send-IsWell supply a nbls w)
perform-IsWell (Operation.give_back places) a w = as_before _ (returns-IsWell a places w)
perform-IsWell (Operation.read irp len has_mdl mapped) a w = read-IsWell a irp len has_mdl mapped w
perform-IsWell (Operation.write pool irp has_mdl mapped) a w =
    write-IsWell _ irp pool a has_mdl mapped w
perform-IsWell (Operation.cancel i) a w = as_before _ (cancel-IsWell a i w)
perform-IsWell (Operation.control r) a w = as_before _ (configure-IsWell a r w)
perform-IsWell (Operation.diag r) a w = as_before _ (diag-IsWell a r w)
perform-IsWell (Operation.query_or_set system r) a w = as_before _ (oid-IsWell system a r w)
perform-IsWell (Operation.create_file file) a w = as_before _ (open-IsWell a file w)
perform-IsWell Operation.cleanup_file a w = as_before _ (cleanup-IsWell a w)
perform-IsWell Operation.close_file a w = as_before _ (close-IsWell a w)
perform-IsWell Operation.restart a w = as_before _ (state-IsWell a _ w)
perform-IsWell Operation.pause a w = as_before _ (pause-IsWell a w)
perform-IsWell Operation.paused a w = as_before _ (state-IsWell a _ w)
perform-IsWell Operation.reset a w = as_before _ (reset-IsWell a w)
perform-IsWell Operation.halt a w = as_before _ (destroy-IsWell _ (state-IsWell a _ w))
perform-IsWell (Operation.shut_down bug_check) a w =
    as_before _ (if-Keeps (IsWell _) bug_check _ _ w (state-IsWell a _ w))

pub run-IsWell :
    (ops : List Operation) {t : ℕ → ℕ} (a : Adapter)
    → IsWell t a
    → IsWell (λ id. t id + submitted ops id) (run a ops)
unfolding run
run-IsWell [] a w = as_before a w
run-IsWell (op ∷ ops) a w =
    recount _ (λ id. omega arith) (run-IsWell ops (perform a op) (perform-IsWell op a w))

pub new-IsWell : (a : Adapter) → IsNew a → IsWell (λ id. 0) a
new-IsWell a new = record {
  packets = record {
    count = omega (arith, new.packets.count, new.packets.bound);
    total = omega (arith, new.packets.total);
  };
  pending = omega (arith, new.pending.count, new.pending.bound);
  counted = new.counted;
  configured = new.configured;
  supported = new.supported;
  requests = λ id.
      omega (arith, ap (reads id) new.idle.0, ap (reads id) new.idle.1, ap (flying id) new.idle.2);
}

-- An adapter that AdapterCreate makes, whatever the system answers it and whatever bytes the
-- registry holds, and then any history of calls of the driver, one after the other: sends of the
-- host and lists that it returns, reads and writes of the application and cancelled reads, requests
-- of both devices, OID requests, the device opened, cleaned up and closed, and the miniport
-- restarted, paused, reset, shut down and halted. AdapterCreate fails exactly if the system refused
-- something. Otherwise, after the history: every request number is that of as many completed
-- requests, pending reads and writes in flight to the host, taken together, as reads and writes were
-- submitted with it, so none is lost or completed twice; the counters of the packet queue, of the
-- pending reads and of the lists in flight are true modulo 2 ^ 32; the adapter is well configured
-- and has a supported packet filter, multicast list and power state.
pub history-IsWell :
    (system : Answers) (registry : Option Settings) (ops : List Operation)
    → RegistryBytes registry
    → ((adapter_create system registry ≡ none) × (all_succeed system ≡ false))
      ⊎ ((a : Adapter) × (adapter_create system registry ≡ some a)
          × (all_succeed system ≡ true)
          × IsWell (submitted ops) (run a ops))
history-IsWell system registry ops bytes = elim (adapter_create-IsNew system registry bytes) [
  | inl failed ↦ inl failed
  | inr (a, made, all, new) ↦
      inr (
        a,
        made,
        all,
        recount (run a ops) (λ id. omega arith) (run-IsWell ops a (new-IsWell a new)),
      )
]
