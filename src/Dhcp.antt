-- ===== src/Dhcp.antt =====
-- The DHCP server masquerade of src/dhcp.c and src/dhcp.h. The replies that it builds are in
-- Dhcp/Reply.antt, the decisions on a received message in Dhcp/Process.antt.
pub mod Options
pub mod Scan
pub mod Reply
pub mod Process
