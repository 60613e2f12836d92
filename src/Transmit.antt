-- ===== src/Transmit.antt =====
-- src/txpath.c: what becomes of a frame that the host sends. The children hold its parts.
pub mod Vlan
pub mod Arp
pub mod Neighbor
pub mod Frame
pub mod Same
pub mod Queued
pub mod Send
pub mod Read
