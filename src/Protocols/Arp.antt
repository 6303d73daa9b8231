-- ===== src/Protocols/Arp.antt =====
-- include/net/protocols/arp.h and src/net/protocols/arp.cpp. The four pointers into the buffer are
-- the bytes that they point to.
use pcap_analyzer.Prelude.{ℕ, ◌+◌, ◌*◌, ◌||◌, ◌==◌, ltb, List, length, take, drop}
use pcap_analyzer.Util.ParseError.{Result, ok, ◌>>◌, fail_if, unexpected_eof, invalid_field_value}
use pcap_analyzer.Util.Endian.{Endian, to_host16, byte_at, read16}

abbrev pub min_header_len : ℕ
min_header_len = 8

pub record Header : Type 0 where
  pub htype : ℕ
  pub ptype : ℕ
  pub hlen : ℕ
  pub plen : ℕ
  pub oper : ℕ
  pub sha : List ℕ
  pub spa : List ℕ
  pub tha : List ℕ
  pub tpa : List ℕ

unfoldable pub parse : List ℕ → Endian → Result (Header × List ℕ)
unfolding read16
parse span endian = do
  fail_if (ltb (length span) min_header_len) unexpected_eof
  let hlen : ℕ = byte_at span 4
  let plen : ℕ = byte_at span 5
  fail_if (hlen == 0 || plen == 0) invalid_field_value
  let header_len : ℕ = min_header_len + 2 * hlen + 2 * plen
  fail_if (ltb (length span) header_len) unexpected_eof
  ok (
    record {
      htype = to_host16 (read16 span 0) endian;
      ptype = to_host16 (read16 span 2) endian;
      hlen = hlen;
      plen = plen;
      oper = to_host16 (read16 span 6) endian;
      sha = take hlen (drop min_header_len span);
      spa = take plen (drop (min_header_len + hlen) span);
      tha = take hlen (drop (min_header_len + (hlen + plen)) span);
      tpa = take plen (drop (min_header_len + (2 * hlen + plen)) span);
    },
    drop header_len span,
  )
