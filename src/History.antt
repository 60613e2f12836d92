-- ===== src/History.antt =====
-- The adapter over any history of operations, whoever calls them: the host (sends, returns, OID
-- requests, the states of the miniport) and the application (reads, writes, requests, the device
-- opened and closed).
pub mod Counters
pub mod Well
pub mod Sends
pub mod Reads
pub mod Writes
pub mod Cancelled
pub mod Requests
pub mod Preserved
pub mod Lists
pub mod Completed
use tap_windows.Base.{ℕ, ◌+◌, Bool, List, [], ◌∷◌}
use tap_windows.Ndis.{Irp, Nbl}
use tap_windows.Adapter.{Adapter}
use tap_windows.Receive.{Pool}
use tap_windows.Transmit.Read.{tap_device_read}
use tap_windows.Transmit.Read.Pended.{one}
use tap_windows.Transmit.Send.{Supply, adapter_send_net_buffer_lists}
use tap_windows.Write.{tap_device_write, host_returns}
use tap_windows.Device.{Request, configure}
use tap_windows.Device.Session.{
  tap_device_create, cancel_read, tap_device_cleanup, tap_device_close, diag_device_control,
}
use tap_windows.Oid.{OidRequest}
use tap_windows.Oid.Query.{System}
use tap_windows.Oid.Handler.{adapter_oid_request}
use tap_windows.Lifecycle.{
  adapter_restart, adapter_reset, adapter_shutdown, adapter_halt, begin_pause, end_pause,
}

-- One call of the driver, with what it is given and what the system answers.
pub data Operation : Type 0 where
  send : (ℕ → Supply) → List Nbl → Operation
  give_back : List ℕ → Operation
  read : Irp → ℕ → Bool → Bool → Operation
  write : Pool → Irp → Bool → Bool → Operation
  cancel : ℕ → Operation
  control diag : Request → Operation
  query_or_set : System → OidRequest → Operation
  create_file : ℕ → Operation
  cleanup_file close_file : Operation
  restart pause paused reset halt : Operation
  shut_down : Bool → Operation

unfoldable pub perform : Adapter → Operation → Adapter
perform a (send supply nbls) = adapter_send_net_buffer_lists supply a nbls
perform a (give_back places) = host_returns a places
perform a (read irp len has_mdl mapped) = (tap_device_read a irp len has_mdl mapped).1
perform a (write pool irp has_mdl mapped) = (tap_device_write pool a irp has_mdl mapped).1
perform a (cancel i) = cancel_read a i
perform a (control r) = (configure a r).1
perform a (diag r) = (diag_device_control a r).1
perform a (query_or_set system r) = (adapter_oid_request system a r).2
perform a (create_file file) = (tap_device_create a file).1
perform a cleanup_file = tap_device_cleanup a
perform a close_file = tap_device_close a
perform a restart = (adapter_restart a).1
perform a pause = begin_pause a
perform a paused = end_pause a
perform a reset = (adapter_reset a).1
perform a halt = adapter_halt a
perform a (shut_down bug_check) = adapter_shutdown a bug_check

-- Operations that follow one another.
unfoldable pub run : Adapter → List Operation → Adapter
run a [] = a
run a (op ∷ ops) = run (perform a op) ops

-- How often an operation hands over a request of this number, and how often a history does.
abbrev pub asks : Operation → ℕ → ℕ
asks (read irp len has_mdl mapped) id = one id irp
asks (write pool irp has_mdl mapped) id = one id irp
asks _ id = 0

abbrev pub submitted : List Operation → ℕ → ℕ
submitted [] id = 0
submitted (op ∷ ops) id = asks op id + submitted ops id
