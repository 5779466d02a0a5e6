-- ===== src/Net.antt =====
-- The crate `net`: packet formats as pure transforms on byte slices, and the ARP cache.
pub mod Addr
pub mod Checksum
pub mod Ipv4
pub mod Udp
pub mod Arp
pub mod Ethernet
pub mod Dhcp
mod Examples
