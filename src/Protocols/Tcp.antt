-- ===== src/Protocols/Tcp.antt =====
-- include/net/protocols/tcp.h and src/net/protocols/tcp.cpp.
use pcap_analyzer.Prelude.{
  ℕ, ◌-◌, ◌*◌, ◌/◌, ◌%◌, Bool, not, ◌&&◌, ◌||◌, ◌==◌, ltb, List, length, take, drop,
}
use pcap_analyzer.Util.ParseError.{
  Result, ok, ◌>>◌, fail_if, unexpected_eof, malformed_header, checksum_mismatch,
}
use pcap_analyzer.Util.Endian.{Endian, to_host16, to_host32, byte_at, read16, read32}
use pcap_analyzer.Util.Checksum.{verify_checksum}
use pcap_analyzer.Protocols.Ipv4 as V4
use pcap_analyzer.Protocols.Ipv6 as V6

abbrev pub min_header_len : ℕ
min_header_len = 20

abbrev pub max_header_len : ℕ
max_header_len = 60

pub record Header : Type 0 where
  pub src_port : ℕ
  pub dst_port : ℕ
  pub seq_number : ℕ
  pub ack_number : ℕ
  pub data_offset_reserved : ℕ
  pub flags : ℕ
  pub window_size : ℕ
  pub checksum : ℕ
  pub urgent_pointer : ℕ

-- `flags & 0x10` and the like: one bit of the byte.
unfoldable pub ack : Header → Bool
ack h = h.flags / 16 % 2 == 1

unfoldable pub rst : Header → Bool
rst h = h.flags / 4 % 2 == 1

unfoldable pub syn : Header → Bool
syn h = h.flags / 2 % 2 == 1

unfoldable pub fin : Header → Bool
fin h = h.flags % 2 == 1

unfoldable pub data_offset : Header → ℕ
data_offset h = h.data_offset_reserved / 16

unfoldable pub header_length : Header → ℕ
unfolding data_offset
header_length h = 4 * data_offset h

unfoldable pub wire : List ℕ → Header
unfolding read16 read32
wire span = record {
  src_port = read16 span 0;
  dst_port = read16 span 2;
  seq_number = read32 span 4;
  ack_number = read32 span 8;
  data_offset_reserved = byte_at span 12;
  flags = byte_at span 13;
  window_size = read16 span 14;
  checksum = read16 span 16;
  urgent_pointer = read16 span 18;
}

-- The checksum field is left in wire order, as in the source.
unfoldable pub to_host : Header → Endian → Header
to_host h endian = record h {
  src_port = to_host16 h.src_port endian;
  dst_port = to_host16 h.dst_port endian;
  seq_number = to_host32 h.seq_number endian;
  ack_number = to_host32 h.ack_number endian;
  window_size = to_host16 h.window_size endian;
  urgent_pointer = to_host16 h.urgent_pointer endian;
}

unfoldable pub parse_with : List ℕ → ℕ → ℕ → Endian → Bool → Result (Header × List ℕ)
unfolding wire to_host header_length
parse_with span size pseudo_header_sum endian verify = do
  fail_if (ltb (length span) min_header_len) unexpected_eof
  let raw : Header = wire span
  fail_if
      (ltb (header_length raw) min_header_len
        || ltb max_header_len (header_length raw)
        || ltb size (header_length raw)
        || ltb (length span) size)
      malformed_header
  fail_if (ltb (length span) (header_length raw)) unexpected_eof
  fail_if (verify && not (verify_checksum (take size span) pseudo_header_sum)) checksum_mismatch
  let header : Header = to_host raw endian
  ok (header, drop (header_length header) span)

unfoldable pub parse_v4 : List ℕ → V4.Header → Endian → Bool → Result (Header × List ℕ)
unfolding parse_with
parse_v4 span ip endian verify =
    parse_with span (ip.total_length - V4.header_length ip) (V4.compute_pseudo_header_sum ip) endian
      verify

unfoldable pub parse_v6 : List ℕ → V6.Header → Endian → Bool → Result (Header × List ℕ)
unfolding parse_with
parse_v6 span ip endian verify =
    parse_with span ip.payload_length (V6.compute_pseudo_header_sum ip) endian verify
