-- ===== src/Witnesses/Files.antt =====
-- A capture file with one record, src/net/capture.
use pcap_analyzer.Prelude.{ℕ, suc, ◌≡◌, refl, false, List, [], ◌∷◌, ◌++◌, none, some, arith}
use pcap_analyzer.Util.ParseError.{Result, ok, err, unsupported_linktype}
use pcap_analyzer.Util.Endian.{Endian}
use pcap_analyzer.Decode.Packet.{Packet, no_datalink, no_network, no_transport}
use pcap_analyzer.Capture.Pcap.{PacketHeader, parse_packet_header}
use pcap_analyzer.Capture.Pcap.Records.{encode, IsRecord, parse_packet_header-encode}
use pcap_analyzer.Capture.Reader.{Reader, frame, next_frame, read_all}
use pcap_analyzer.Capture.Reader.Progress.{next_frame-encode, read_all-total}

abbrev header : PacketHeader
header = record { ts_sec = 1700000000; ts_usec = 7; incl_len = 3; orig_len = 60 }

header-IsRecord : IsRecord header
header-IsRecord = record {
  ts_sec32 = omega arith;
  ts_usec32 = omega arith;
  incl_len32 = omega arith;
  orig_len32 = omega arith;
  some_data = omega arith;
  not_longer = omega arith;
}

parse_packet_header-encode_example :
    parse_packet_header (encode header Endian.big ++ (1 ∷ 2 ∷ 3 ∷ [])) Endian.big
    ≡ ok (header, 1 ∷ 2 ∷ 3 ∷ [])
parse_packet_header-encode_example =
    parse_packet_header-encode header Endian.big (1 ∷ 2 ∷ 3 ∷ []) header-IsRecord

next_frame-encode_example :
    next_frame (encode header Endian.little ++ ((1 ∷ 2 ∷ 3 ∷ []) ++ (9 ∷ []))) Endian.little
    ≡ frame header (1 ∷ 2 ∷ 3 ∷ []) (9 ∷ [])
next_frame-encode_example =
    next_frame-encode header Endian.little (1 ∷ 2 ∷ 3 ∷ []) (9 ∷ []) header-IsRecord refl

abbrev blank_packet : Packet
blank_packet = record {
  datalink = no_datalink;
  vlan_tags = [];
  network = no_network;
  ipv6_ext = [];
  transport = no_transport;
  payload = [];
}

-- A decoder that counts the frames that it refuses.
abbrev refuse : ℕ → List ℕ → Packet → ℕ → ℕ → ℕ × Result Packet
refuse n bytes pkt incl_len ts_us = (suc n, err unsupported_linktype)

abbrev opened_file : Reader ℕ
opened_file = record {
  span = encode header Endian.little ++ (1 ∷ 2 ∷ 3 ∷ []);
  capture = record { ts_us = 0; header = header; pkt = blank_packet };
  linktype = 1;
  decoder = 0;
  is_nsec = false;
  endian = Endian.little;
  header_err = none;
  skipped = 0;
  last_skip_err = none;
}

read_all-total_example : (last : Reader ℕ) × (read_all refuse 20 opened_file ≡ some last)
read_all-total_example = read_all-total refuse 20 opened_file (omega arith)
