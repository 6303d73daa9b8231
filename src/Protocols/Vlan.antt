-- ===== src/Protocols/Vlan.antt =====
-- include/net/protocols/vlan.h and src/net/protocols/vlan.cpp.
use pcap_analyzer.Prelude.{ℕ, ◌/◌, ◌%◌, ◌==◌, ltb, List, length, drop}
use pcap_analyzer.Util.ParseError.{Result, ok, ◌>>◌, fail_if, unexpected_eof, invalid_field_value}
use pcap_analyzer.Util.Endian.{Endian, to_host16, read16}

abbrev pub header_len : ℕ
header_len = 4

abbrev pub max_tags : ℕ
max_tags = 4

abbrev pub vid_reserved : ℕ
vid_reserved = 0x0fff

pub record Header : Type 0 where
  pub tci : ℕ
  pub ethertype : ℕ

unfoldable pub pcp : Header → ℕ
pcp h = h.tci / 8192

unfoldable pub dei : Header → ℕ
dei h = h.tci / 4096 % 2

unfoldable pub vid : Header → ℕ
vid h = h.tci % 4096

unfoldable pub parse : List ℕ → Endian → Result (Header × List ℕ)
unfolding vid
parse span endian = do
  fail_if (ltb (length span) header_len) unexpected_eof
  let header : Header = record {
    tci = to_host16 (read16 span 0) endian;
    ethertype = to_host16 (read16 span 2) endian;
  }
  fail_if (vid header == vid_reserved) invalid_field_value
  ok (header, drop header_len span)
