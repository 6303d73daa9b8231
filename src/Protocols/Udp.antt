-- ===== src/Protocols/Udp.antt =====
-- include/net/protocols/udp.h and src/net/protocols/udp.cpp.
use pcap_analyzer.Prelude.{
  ℕ, ◌-◌, Bool, true, false, not, ◌&&◌, ◌||◌, ◌==◌, ltb, List, length, take, drop,
}
use pcap_analyzer.Util.ParseError.{
  Result, ok, ◌>>◌, fail_if, unexpected_eof, malformed_header, checksum_mismatch,
}
use pcap_analyzer.Util.Endian.{Endian, to_host16, read16}
use pcap_analyzer.Util.Checksum.{verify_checksum}
use pcap_analyzer.Protocols.Ipv4 as V4
use pcap_analyzer.Protocols.Ipv6 as V6

abbrev pub header_len : ℕ
header_len = 8

pub record Header : Type 0 where
  pub src_port : ℕ
  pub dst_port : ℕ
  pub size : ℕ
  pub checksum : ℕ

-- The field `length` of the source is `size` here.
unfoldable pub parse_with : List ℕ → ℕ → Endian → Bool → Bool → Result (Header × List ℕ)
unfolding read16
parse_with span pseudo_header_sum endian accept_zero_checksum verify = do
  fail_if (ltb (length span) header_len) unexpected_eof
  let size : ℕ = to_host16 (read16 span 4) endian
  let checksum : ℕ = read16 span 6
  fail_if (ltb size header_len || ltb (length span) size) malformed_header
  fail_if
      (verify
        && (not (checksum == 0) || not accept_zero_checksum)
        && not (verify_checksum (take size span) pseudo_header_sum))
      checksum_mismatch
  ok (
    record {
      src_port = to_host16 (read16 span 0) endian;
      dst_port = to_host16 (read16 span 2) endian;
      size = size;
      checksum = to_host16 checksum endian;
    },
    take (size - header_len) (drop header_len span),
  )

unfoldable pub parse_v4 : List ℕ → V4.Header → Endian → Bool → Result (Header × List ℕ)
unfolding parse_with
parse_v4 span ip endian verify =
    parse_with span (V4.compute_pseudo_header_sum ip) endian true verify

unfoldable pub parse_v6 : List ℕ → V6.Header → Endian → Bool → Result (Header × List ℕ)
unfolding parse_with
parse_v6 span ip endian verify =
    parse_with span (V6.compute_pseudo_header_sum ip) endian false verify
