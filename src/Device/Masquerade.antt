-- ===== src/Device/Masquerade.antt =====
-- The masquerade of an adapter that was configured by any history of requests.
use tap_windows.Adapter.{Adapter}
