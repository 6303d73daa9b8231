-- ===== src/Protocols/Ipv6.antt =====
-- include/net/protocols/ipv6.h and src/net/protocols/ipv6.cpp.
use pcap_analyzer.Prelude.{ℕ, ◌+◌, ◌*◌, ◌/◌, not, ◌==◌, ltb, List, [], ◌∷◌, length, take, drop}
use pcap_analyzer.Util.ParseError.{Result, ok, ◌>>◌, fail_if, unexpected_eof, invalid_field_value}
use pcap_analyzer.Util.Endian.{Endian, to_host16, to_host32, byte_at, read16, read32}

abbrev pub header_len : ℕ
header_len = 40

abbrev pub supported_version : ℕ
supported_version = 6

pub record Header : Type 0 where
  pub version_tc_fl : ℕ
  pub payload_length : ℕ
  pub next_header : ℕ
  pub hop_limit : ℕ
  pub src_ip : List ℕ
  pub dst_ip : List ℕ

unfoldable pub version : Header → ℕ
version h = h.version_tc_fl / 268435456

unfoldable pub parse : List ℕ → Endian → Result (Header × List ℕ)
unfolding version read16 read32
parse span endian = do
  fail_if (ltb (length span) header_len) unexpected_eof
  let header : Header = record {
    version_tc_fl = to_host32 (read32 span 0) endian;
    payload_length = to_host16 (read16 span 4) endian;
    next_header = byte_at span 6;
    hop_limit = byte_at span 7;
    src_ip = take 16 (drop 8 span);
    dst_ip = take 16 (drop 24 span);
  }
  fail_if (not (version header == supported_version)) invalid_field_value
  let rest : List ℕ = drop header_len span
  fail_if (ltb (length rest) header.payload_length) unexpected_eof
  ok (header, take header.payload_length rest)

-- The sum of an address's eight 16-bit groups, `(ip[i] << 8) | ip[i + 1]`.
unfoldable pub sum_groups : ℕ → List ℕ → ℕ
sum_groups sum [] = sum
sum_groups sum (hi ∷ []) = sum
sum_groups sum (hi ∷ lo ∷ rest) = sum_groups (sum + (hi * 256 + lo)) rest

unfoldable pub compute_pseudo_header_sum : Header → ℕ
unfolding sum_groups
compute_pseudo_header_sum h =
    sum_groups (sum_groups 0 h.src_ip) h.dst_ip + h.payload_length + h.next_header
