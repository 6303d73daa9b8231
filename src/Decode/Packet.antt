-- ===== src/Decode/Packet.antt =====
-- include/net/decode/packet.h and src/net/decode/packet.cpp: a decoded packet.
use pcap_analyzer.Prelude.{ℕ, Bool, true, false, ◌==◌, if◌then◌else◌, List, [], replicate}
use pcap_analyzer.Protocols.Ethernet
use pcap_analyzer.Protocols.Vlan
use pcap_analyzer.Protocols.Ipv4
use pcap_analyzer.Protocols.Ipv6
use pcap_analyzer.Protocols.Ipv6Ext
use pcap_analyzer.Protocols.Arp
use pcap_analyzer.Protocols.Tcp
use pcap_analyzer.Protocols.Udp
use pcap_analyzer.Protocols.Icmp
use pcap_analyzer.Protocols.Icmpv6

pub data DataLinkHeader : Type 0 where
  no_datalink : DataLinkHeader
  ethernet : Ethernet.Header → DataLinkHeader

pub data NetworkHeader : Type 0 where
  no_network : NetworkHeader
  ipv4 : Ipv4.Header → NetworkHeader
  ipv6 : Ipv6.Header → NetworkHeader
  arp : Arp.Header → NetworkHeader

pub data TransportHeader : Type 0 where
  no_transport : TransportHeader
  tcp : Tcp.Header → TransportHeader
  udp : Udp.Header → TransportHeader
  icmp : Icmp.Header → TransportHeader
  icmpv6 : Icmpv6.Header → TransportHeader

pub record Packet : Type 0 where
  pub datalink : DataLinkHeader
  pub vlan_tags : List Vlan.Header
  pub network : NetworkHeader
  pub ipv6_ext : List Ipv6Ext.Header
  pub transport : TransportHeader
  pub payload : List ℕ

-- The zero headers `Header{}`, with which a layer's alternative is chosen before it is parsed.
abbrev pub blank_ethernet : Ethernet.Header
blank_ethernet = record { dst_mac = replicate 6 0; src_mac = replicate 6 0; ethertype = 0 }

abbrev pub blank_ipv4 : Ipv4.Header
blank_ipv4 = record {
  version_ihl = 0;
  tos = 0;
  total_length = 0;
  identification = 0;
  flags_fragment = 0;
  ttl = 0;
  protocol = 0;
  checksum = 0;
  src_ip = 0;
  dst_ip = 0;
}

abbrev pub blank_ipv6 : Ipv6.Header
blank_ipv6 = record {
  version_tc_fl = 0;
  payload_length = 0;
  next_header = 0;
  hop_limit = 0;
  src_ip = replicate 16 0;
  dst_ip = replicate 16 0;
}

abbrev pub blank_arp : Arp.Header
blank_arp = record {
  htype = 0;
  ptype = 0;
  hlen = 0;
  plen = 0;
  oper = 0;
  sha = [];
  spa = [];
  tha = [];
  tpa = [];
}

abbrev pub blank_tcp : Tcp.Header
blank_tcp = record {
  src_port = 0;
  dst_port = 0;
  seq_number = 0;
  ack_number = 0;
  data_offset_reserved = 0;
  flags = 0;
  window_size = 0;
  checksum = 0;
  urgent_pointer = 0;
}

abbrev pub blank_udp : Udp.Header
blank_udp = record { src_port = 0; dst_port = 0; size = 0; checksum = 0 }

abbrev pub blank_icmp : Icmp.Header
blank_icmp = record { type = 0; code = 0; checksum = 0; body = Icmp.Body.echo 0 0 }

abbrev pub blank_icmpv6 : Icmpv6.Header
blank_icmpv6 = record { type = 0; code = 0; checksum = 0; body = Icmpv6.Body.other 0 }

abbrev pub linktype_ethernet : ℕ
linktype_ethernet = 1

unfoldable pub set_datatype_from_linktype : Packet → ℕ → Packet
set_datatype_from_linktype p linktype = record p {
  datalink = if linktype == linktype_ethernet then ethernet blank_ethernet else no_datalink;
}

unfoldable pub set_network_from_ethertype : Packet → ℕ → Packet
set_network_from_ethertype p ethertype = record p {
  network =
      if ethertype == Ethernet.ethertype_ipv4
      then ipv4 blank_ipv4
      else if ethertype == Ethernet.ethertype_ipv6
      then ipv6 blank_ipv6
      else if ethertype == Ethernet.ethertype_arp
      then arp blank_arp
      else no_network;
}

abbrev pub protocol_tcp : ℕ
protocol_tcp = 6

abbrev pub protocol_udp : ℕ
protocol_udp = 17

abbrev pub protocol_icmp : ℕ
protocol_icmp = 1

abbrev pub protocol_icmpv6 : ℕ
protocol_icmpv6 = 58

unfoldable pub set_transport_from_protocol : Packet → ℕ → Packet
set_transport_from_protocol p protocol = record p {
  transport =
      if protocol == protocol_tcp
      then tcp blank_tcp
      else if protocol == protocol_udp
      then udp blank_udp
      else if protocol == protocol_icmp
      then icmp blank_icmp
      else if protocol == protocol_icmpv6
      then icmpv6 blank_icmpv6
      else no_transport;
}

-- The payload and the link header are left as they are.
unfoldable pub reset : Packet → Packet
reset p = record p { vlan_tags = []; network = no_network; ipv6_ext = []; transport = no_transport }

abbrev pub is_arp : NetworkHeader → Bool
is_arp (arp h) = true
is_arp _ = false

abbrev pub is_tcp : TransportHeader → Bool
is_tcp (tcp h) = true
is_tcp _ = false

abbrev pub is_udp : TransportHeader → Bool
is_udp (udp h) = true
is_udp _ = false
