-- ===== src/Net.antt =====
-- The addresses and the event stream of the `net` directories.
pub mod Ipv4
pub mod Ipv6
pub mod Sse
