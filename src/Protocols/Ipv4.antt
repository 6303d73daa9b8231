-- ===== src/Protocols/Ipv4.antt =====
-- include/net/protocols/ipv4.h and src/net/protocols/ipv4.cpp.
use pcap_analyzer.Prelude.{
  ℕ, ◌+◌, ◌-◌, ◌*◌, ◌/◌, ◌%◌, Bool, not, ◌&&◌, ◌||◌, ◌==◌, ltb, List, length, take, drop,
}
use pcap_analyzer.Util.ParseError.{
  Result, ok, ◌>>◌, fail_if, unexpected_eof, malformed_header, invalid_field_value,
  checksum_mismatch,
}
use pcap_analyzer.Util.Endian.{Endian, to_host16, to_host32, byte_at, read16, read32}
use pcap_analyzer.Util.Checksum.{verify_checksum}

abbrev pub min_header_len : ℕ
min_header_len = 20

abbrev pub max_header_len : ℕ
max_header_len = 60

abbrev pub supported_version : ℕ
supported_version = 4

pub record Header : Type 0 where
  pub version_ihl : ℕ
  pub tos : ℕ
  pub total_length : ℕ
  pub identification : ℕ
  pub flags_fragment : ℕ
  pub ttl : ℕ
  pub protocol : ℕ
  pub checksum : ℕ
  pub src_ip : ℕ
  pub dst_ip : ℕ

unfoldable pub version : Header → ℕ
version h = h.version_ihl / 16

unfoldable pub ihl : Header → ℕ
ihl h = h.version_ihl % 16

unfoldable pub header_length : Header → ℕ
unfolding ihl
header_length h = 4 * ihl h

-- What `memcpy` puts into the struct, before any field is converted.
unfoldable pub wire : List ℕ → Header
unfolding read16 read32
wire span = record {
  version_ihl = byte_at span 0;
  tos = byte_at span 1;
  total_length = read16 span 2;
  identification = read16 span 4;
  flags_fragment = read16 span 6;
  ttl = byte_at span 8;
  protocol = byte_at span 9;
  checksum = read16 span 10;
  src_ip = read32 span 12;
  dst_ip = read32 span 16;
}

unfoldable pub to_host : Header → Endian → Header
to_host h endian = record h {
  total_length = to_host16 h.total_length endian;
  identification = to_host16 h.identification endian;
  flags_fragment = to_host16 h.flags_fragment endian;
  checksum = to_host16 h.checksum endian;
  src_ip = to_host32 h.src_ip endian;
  dst_ip = to_host32 h.dst_ip endian;
}

unfoldable pub parse : List ℕ → Endian → Bool → Result (Header × List ℕ)
unfolding wire to_host header_length version
parse span endian verify = do
  fail_if (ltb (length span) min_header_len) unexpected_eof
  let raw : Header = wire span
  fail_if (ltb (header_length raw) min_header_len || ltb max_header_len (header_length raw))
      malformed_header
  fail_if (ltb (length span) (header_length raw)) unexpected_eof
  fail_if (not (version raw == supported_version)) invalid_field_value
  fail_if (verify && not (verify_checksum (take (header_length raw) span) 0)) checksum_mismatch
  let header : Header = to_host raw endian
  fail_if (ltb header.total_length (header_length header)) malformed_header
  fail_if (ltb (length span) header.total_length) unexpected_eof
  ok (header, take (header.total_length - header_length header) (drop (header_length header) span))

-- `total_length - 4 * ihl` is not negative on a header that `parse` accepted.
unfoldable pub compute_pseudo_header_sum : Header → ℕ
unfolding ihl
compute_pseudo_header_sum h =
    h.src_ip / 65536
    + h.src_ip % 65536
    + h.dst_ip / 65536
    + h.dst_ip % 65536
    + h.protocol
    + (h.total_length - 4 * ihl h)
