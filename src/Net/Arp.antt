-- ===== src/Net/Arp.antt =====
-- net/src/arp.rs: the ARP packet and the ARP cache.
pub mod Packet
pub mod Cache
