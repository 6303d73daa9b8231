-- ===== src/Witnesses/Frames.antt =====
-- Concrete headers, src/net/protocols and src/net/decode/packet_decoder.cpp.
use pcap_analyzer.Prelude.{
  ℕ, ◌+◌, ◌-◌, ◌*◌, ◌≤◌, ◌≡◌, refl, true, false, List, [], ◌∷◌, ◌++◌, length, take, drop, replicate,
  arith,
}
use pcap_analyzer.Util.ParseError.{ok, err, unsupported_linktype}
use pcap_analyzer.Util.Endian.{Endian, to_host16, to_host32, read16}
use pcap_analyzer.Protocols.Ipv4
use pcap_analyzer.Protocols.Ipv6
use pcap_analyzer.Protocols.Tcp
use pcap_analyzer.Protocols.Vlan
use pcap_analyzer.Protocols.Ipv6Ext
use pcap_analyzer.Protocols.Bounds.{Ipv4-parse_bounds, Tcp-parse_bounds}
use pcap_analyzer.Decode.Packet.{
  Packet, no_datalink, no_network, no_transport, set_datatype_from_linktype, reset,
}
use pcap_analyzer.Decode.PacketDecoder.{is_vlan, decode_tags, decode_exts, upper, decode_packet}
use pcap_analyzer.Decode.Limits.{decode_tags_bounds, decode_exts_bounds, linktype_with_fcs}
use pcap_analyzer.Capture.Pcap.{FileHeader, check_file_header}

-- A header of 20 bytes, a payload of 4 bytes, and 2 bytes behind it.
abbrev ipv4_span : List ℕ
ipv4_span =
    69 ∷ 0 ∷ 0 ∷ 24 ∷ 0 ∷ 1 ∷ 0 ∷ 0 ∷ 64 ∷ 17 ∷ 0 ∷ 0 ∷ 10 ∷ 0 ∷ 0 ∷ 1 ∷ 10 ∷ 0 ∷ 0 ∷ 2 ∷ 1 ∷ 2 ∷ 3
    ∷ 4 ∷ 0 ∷ 0 ∷ []

abbrev ipv4_header : Ipv4.Header
ipv4_header = record {
  version_ihl = 69;
  tos = 0;
  total_length = 24;
  identification = 1;
  flags_fragment = 0;
  ttl = 64;
  protocol = 17;
  checksum = 0;
  src_ip = 167772161;
  dst_ip = 167772162;
}

Ipv4-parse_bounds_example :
    (Ipv4.version ipv4_header ≡ 4)
    × (20 ≤ Ipv4.header_length ipv4_header)
    × (Ipv4.header_length ipv4_header ≤ 60)
    × (24 ≤ length ipv4_span)
    × (Ipv4.header_length ipv4_header + 4 ≡ ipv4_header.total_length)
    × (1 ∷ 2 ∷ 3 ∷ 4 ∷ []
        ≡ take
            (ipv4_header.total_length - Ipv4.header_length ipv4_header)
            (drop (Ipv4.header_length ipv4_header) ipv4_span))
unfolding Ipv4.parse to_host16 to_host32 read16
Ipv4-parse_bounds_example =
    Ipv4-parse_bounds ipv4_span Endian.big false {h = ipv4_header} {rest = 1 ∷ 2 ∷ 3 ∷ 4 ∷ []} refl

abbrev tcp_span : List ℕ
tcp_span =
    0 ∷ 80 ∷ 16 ∷ 0 ∷ 0 ∷ 0 ∷ 0 ∷ 5 ∷ 0 ∷ 0 ∷ 0 ∷ 6 ∷ 80 ∷ 16 ∷ 0 ∷ 9 ∷ 0 ∷ 0 ∷ 0 ∷ 0 ∷ 7 ∷ 8 ∷ []

abbrev tcp_header : Tcp.Header
tcp_header = record {
  src_port = 80;
  dst_port = 4096;
  seq_number = 5;
  ack_number = 6;
  data_offset_reserved = 80;
  flags = 16;
  window_size = 9;
  checksum = 0;
  urgent_pointer = 0;
}

Tcp-parse_bounds_example :
    (20 ≤ Tcp.header_length tcp_header)
    × (Tcp.header_length tcp_header ≤ 60)
    × (Tcp.header_length tcp_header ≤ 22)
    × (22 ≤ length tcp_span)
    × (7 ∷ 8 ∷ [] ≡ drop (Tcp.header_length tcp_header) tcp_span)
unfolding Tcp.parse_with to_host16 to_host32 read16
Tcp-parse_bounds_example =
    Tcp-parse_bounds tcp_span 22 0 Endian.big false {h = tcp_header} {rest = 7 ∷ 8 ∷ []} refl

abbrev ipv6_span : List ℕ
ipv6_span = 96 ∷ 0 ∷ 0 ∷ 0 ∷ 0 ∷ 1 ∷ 58 ∷ 64 ∷ replicate 32 1 ++ 9 ∷ 0 ∷ []

abbrev ipv6_header : Ipv6.Header
ipv6_header = record {
  version_tc_fl = 1610612736;
  payload_length = 1;
  next_header = 58;
  hop_limit = 64;
  src_ip = replicate 16 1;
  dst_ip = replicate 16 1;
}

-- One VLAN tag in front of an IPv4 packet.
decode_tags_bounds_example :
    (1 ≤ length {A = Vlan.Header} [] + 4) × (is_vlan 2048 ≡ false) × (2 + 4 * 1 ≡ 6 + 4 * 0)
unfolding decode_tags Vlan.parse to_host16 read16
decode_tags_bounds_example =
    decode_tags_bounds 4 (0 ∷ 5 ∷ 8 ∷ 0 ∷ 69 ∷ 0 ∷ []) 33024 [] {last = 2048}
      {all = record { tci = 5; ethertype = 2048 } ∷ []} {rest = 69 ∷ 0 ∷ []} refl

-- One extension header, destination options, in front of UDP.
abbrev options : Ipv6Ext.Header
options = Ipv6Ext.blank 60 17 8

decode_exts_bounds_example :
    (1 ≤ 0 + 8) × (1 + 8 * 1 ≤ 9 + 8 * 0) × (Ipv6Ext.is_extension 17 ≡ false)
unfolding decode_exts Ipv6Ext.parse Ipv6Ext.is_extension Ipv6Ext.is_fragment
decode_exts_bounds_example =
    decode_exts_bounds 8 (17 ∷ 0 ∷ 1 ∷ 4 ∷ 0 ∷ 0 ∷ 0 ∷ 0 ∷ 5 ∷ []) 60 []
      {chain = upper 17 (options ∷ []) (5 ∷ [])} refl

abbrev blank_packet : Packet
blank_packet = record {
  datalink = no_datalink;
  vlan_tags = [];
  network = no_network;
  ipv6_ext = [];
  transport = no_transport;
  payload = [];
}

-- Four bytes of frame check sequence: the top bits are 4 and the flag bit is set.
abbrev with_fcs : FileHeader
with_fcs = record {
  magic_number = 2712847316;
  major_version = 2;
  minor_version = 4;
  reserved1 = 0;
  reserved2 = 0;
  snaplen = 65535;
  linktype = 1342177281;
}

linktype_with_fcs_example :
    (check_file_header with_fcs ≡ ok tt)
    × (decode_packet ipv4_span
          (reset (set_datatype_from_linktype blank_packet with_fcs.linktype))
          true
        ≡ err unsupported_linktype)
linktype_with_fcs_example =
    linktype_with_fcs with_fcs blank_packet ipv4_span true refl refl (omega arith) refl
      (omega arith)
