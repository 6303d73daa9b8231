-- ===== src/Witnesses/Decoding.antt =====
-- Concrete frames through the decoder, src/net/decode/decoder.cpp.
use pcap_analyzer.Prelude.{ℕ, suc, ◌≡◌, refl, Bool, false, List, [], ◌∷◌, ◌++◌, replicate}
use pcap_analyzer.Util.ParseError.{ok, unsupported_linktype}
use pcap_analyzer.Decode.Packet.{
  Packet, no_datalink, ethernet, blank_ethernet, ipv4, udp, no_network, no_transport, reset,
}
use pcap_analyzer.Decode.PacketDecoder.{decode_packet}
use pcap_analyzer.Decode.Decoder.{Decoder, decode}
use pcap_analyzer.Decode.Outcomes.{decode_error}
use pcap_analyzer.Decode.Selection.{Outcome, decode-Outcome}
use pcap_analyzer.Util.Endian.{to_host16, to_host32, read16, read32}
use pcap_analyzer.Protocols.Ethernet
use pcap_analyzer.Protocols.Ipv4
use pcap_analyzer.Protocols.Udp
use pcap_analyzer.Flow.FlowKey.{FlowKey}
use pcap_analyzer.Flow.FlowTable.{Flow, blank_key}
use pcap_analyzer.Flow.FlowTable.Histories.{empty}

-- An application decoder that counts how often it is asked.
abbrev count_polls : FlowKey → Flow → Bool → Packet → ℕ → Flow × ℕ
count_polls key flow is_new pkt n = (flow, suc n)

abbrev idle : Decoder ℕ
idle = record {
  config = record { verify_checksum = false; filter = blank_key };
  flow_table = empty 0 30000000;
  app = 0;
  decoded = 0;
}

abbrev unset : Packet
unset = record {
  datalink = no_datalink;
  vlan_tags = [];
  network = no_network;
  ipv6_ext = [];
  transport = no_transport;
  payload = [];
}

decode_error_example : (decode count_polls idle (1 ∷ 2 ∷ []) unset 2 0).0 ≡ idle
unfolding decode decode_packet reset
decode_error_example =
    decode_error count_polls idle (1 ∷ 2 ∷ []) unset 2 0 {code = unsupported_linktype} refl

-- A UDP datagram of one byte in an IPv4 packet.
abbrev udp_frame : List ℕ
udp_frame =
    replicate 6 255
    ++ replicate 6 2
    ++ 8 ∷ 0 ∷ 69 ∷ 0 ∷ 0 ∷ 29 ∷ 0 ∷ 1 ∷ 0 ∷ 0 ∷ 64 ∷ 17 ∷ 0 ∷ 0 ∷ 10 ∷ 0 ∷ 0 ∷ 1 ∷ 10 ∷ 0 ∷ 0 ∷ 2
      ∷ []
    ++ 0 ∷ 53 ∷ 16 ∷ 0 ∷ 0 ∷ 9 ∷ 0 ∷ 0 ∷ 7 ∷ []

abbrev udp_packet : Packet
udp_packet = record unset {
  datalink =
      ethernet (record { dst_mac = replicate 6 255; src_mac = replicate 6 2; ethertype = 2048 });
  network = ipv4 (record {
    version_ihl = 69;
    tos = 0;
    total_length = 29;
    identification = 1;
    flags_fragment = 0;
    ttl = 64;
    protocol = 17;
    checksum = 0;
    src_ip = 167772161;
    dst_ip = 167772162;
  });
  transport = udp (record { src_port = 53; dst_port = 4096; size = 9; checksum = 0 });
  payload = 7 ∷ [];
}

abbrev on_ethernet : Packet
on_ethernet = record unset { datalink = ethernet blank_ethernet }

-- Only TCP is wanted.
abbrev tcp_only : Decoder ℕ
tcp_only = record idle {
  config = record { verify_checksum = false; filter = record blank_key { protocol = 6 } };
}

udp_decoded : decode_packet udp_frame (reset on_ethernet) false ≡ ok udp_packet
unfolding decode_packet reset Ethernet.parse Ipv4.parse Udp.parse_v4 Udp.parse_with to_host16
    to_host32 read16 read32
udp_decoded = refl

decode-Outcome_example :
    Outcome
      (record blank_key { protocol = 6 })
      udp_packet
      (decode count_polls tcp_only udp_frame on_ethernet 29 0).1
decode-Outcome_example =
    decode-Outcome count_polls tcp_only udp_frame on_ethernet 29 0 {out = udp_packet} udp_decoded
