-- ===== src/Tests.antt =====
-- Concrete adapters, packets and requests, and the theorems at them.
mod Fixtures
mod Dhcp
mod Transmit
mod Units
mod Write
mod History
mod Create
mod Oid
mod Lifecycle
mod DebugLog
mod Driver
mod Installer
mod Device
