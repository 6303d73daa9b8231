-- ===== src/Protocols/Ethernet.antt =====
-- include/net/protocols/ethernet.h and src/net/protocols/ethernet.cpp.
use pcap_analyzer.Prelude.{ℕ, ltb, List, length, take, drop}
use pcap_analyzer.Util.ParseError.{Result, ok, ◌>>◌, fail_if, unexpected_eof}
use pcap_analyzer.Util.Endian.{Endian, to_host16, read16}

abbrev pub header_len : ℕ
header_len = 14

abbrev pub ethertype_ipv4 : ℕ
ethertype_ipv4 = 0x0800

abbrev pub ethertype_ipv6 : ℕ
ethertype_ipv6 = 0x86dd

abbrev pub ethertype_arp : ℕ
ethertype_arp = 0x0806

abbrev pub ethertype_vlan : ℕ
ethertype_vlan = 0x8100

abbrev pub ethertype_vlan_qq : ℕ
ethertype_vlan_qq = 0x88a8

pub record Header : Type 0 where
  pub dst_mac : List ℕ
  pub src_mac : List ℕ
  pub ethertype : ℕ

unfoldable pub parse : List ℕ → Endian → Result (Header × List ℕ)
parse span endian = do
  fail_if (ltb (length span) header_len) unexpected_eof
  ok (
    record {
      dst_mac = take 6 span;
      src_mac = take 6 (drop 6 span);
      ethertype = to_host16 (read16 span 12) endian;
    },
    drop header_len span,
  )
