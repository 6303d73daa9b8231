-- ===== src/Capture/Pcap.antt =====
-- include/net/capture/pcap.h and src/net/capture/pcap.cpp: the headers of a capture file and of its
-- records. Records proves that what is written is what is read.
use pcap_analyzer.Prelude.{
  ℕ, ◌%◌, Bool, not, ◌&&◌, ◌||◌, ◌==◌, ltb, if◌then◌else◌, List, length, drop, Option, none, some,
}
use pcap_analyzer.Util.ParseError.{
  Result, ok, err, ◌>>=◌, ◌>>◌, fail_if, unexpected_eof, unsupported_version, invalid_field_value,
  unsupported_linktype, malformed_header,
}
use pcap_analyzer.Util.Endian.{Endian, to_host16, to_host32, read16, read32}
use pcap_analyzer.Decode.Packet.{linktype_ethernet}
pub mod Records

abbrev pub file_header_len : ℕ
file_header_len = 24

abbrev pub packet_header_len : ℕ
packet_header_len = 16

abbrev pub pcap_magic_usec_be : ℕ
pcap_magic_usec_be = 3569595041

abbrev pub pcap_magic_usec_le : ℕ
pcap_magic_usec_le = 2712847316

abbrev pub pcap_magic_nsec_be : ℕ
pcap_magic_nsec_be = 1295823521

abbrev pub pcap_magic_nsec_le : ℕ
pcap_magic_nsec_le = 2712812621

pub record FileHeader : Type 0 where
  pub magic_number : ℕ
  pub major_version : ℕ
  pub minor_version : ℕ
  pub reserved1 : ℕ
  pub reserved2 : ℕ
  pub snaplen : ℕ
  pub linktype : ℕ

pub record PacketHeader : Type 0 where
  pub ts_sec : ℕ
  pub ts_usec : ℕ
  pub incl_len : ℕ
  pub orig_len : ℕ

unfoldable pub endian_of_magic : ℕ → Option Endian
endian_of_magic magic =
    if magic == pcap_magic_usec_be || magic == pcap_magic_nsec_be
    then some Endian.big
    else if magic == pcap_magic_usec_le || magic == pcap_magic_nsec_le
    then some Endian.little
    else none

-- The fields in host order.
unfoldable pub file_header_of : List ℕ → Endian → FileHeader
unfolding read16 read32
file_header_of span endian = record {
  magic_number = read32 span 0;
  major_version = to_host16 (read16 span 4) endian;
  minor_version = to_host16 (read16 span 6) endian;
  reserved1 = read32 span 8;
  reserved2 = read32 span 12;
  snaplen = to_host32 (read32 span 16) endian;
  linktype = to_host32 (read32 span 20) endian;
}

unfoldable pub check_file_header : FileHeader → Result (Unit {0})
check_file_header header = do
  fail_if (not (header.major_version == 2) || not (header.minor_version == 4)) unsupported_version
  fail_if (header.snaplen == 0) invalid_field_value
  fail_if (not (header.linktype % 268435456 == linktype_ethernet)) unsupported_linktype
  ok tt

unfoldable pub parse_file_header : List ℕ → Result (FileHeader × Endian × List ℕ)
unfolding endian_of_magic file_header_of check_file_header read32
parse_file_header span = do
  fail_if (ltb (length span) file_header_len) unexpected_eof
  elim (endian_of_magic (read32 span 0)) [
    | none ↦ err invalid_field_value
    | some endian ↦
        check_file_header (file_header_of span endian)
        >> ok (file_header_of span endian, endian, drop file_header_len span)
  ]

unfoldable pub packet_header_of : List ℕ → Endian → PacketHeader
unfolding read32
packet_header_of span endian = record {
  ts_sec = to_host32 (read32 span 0) endian;
  ts_usec = to_host32 (read32 span 4) endian;
  incl_len = to_host32 (read32 span 8) endian;
  orig_len = to_host32 (read32 span 12) endian;
}

unfoldable pub parse_packet_header : List ℕ → Endian → Result (PacketHeader × List ℕ)
unfolding packet_header_of
parse_packet_header span endian = do
  fail_if (ltb (length span) packet_header_len) unexpected_eof
  let header : PacketHeader = packet_header_of span endian
  fail_if (header.incl_len == 0 || header.orig_len == 0) invalid_field_value
  fail_if (ltb header.orig_len header.incl_len) malformed_header
  ok (header, drop packet_header_len span)
