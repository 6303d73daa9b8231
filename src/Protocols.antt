-- ===== src/Protocols.antt =====
-- The wire formats, src/net/protocols and include/net/protocols. The printers are not modelled.
pub mod Ethernet
pub mod Vlan
pub mod Ipv4
pub mod Ipv6
pub mod Ipv6Ext
pub mod Tcp
pub mod Udp
pub mod Arp
pub mod Icmp
pub mod Icmpv6
pub mod Bounds
pub mod Addresses
pub mod Dns
pub mod Http
