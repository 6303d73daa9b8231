-- ===== src/Protocols/Ipv6Ext.antt =====
-- include/net/protocols/ipv6_ext.h and src/net/protocols/ipv6_ext.cpp.
use pcap_analyzer.Prelude.{
  ℕ, ◌+◌, ◌-◌, ◌*◌, ◌/◌, ◌%◌, Bool, false, not, ◌&&◌, ◌||◌, ◌==◌, ltb, if◌then◌else◌, List, [], ◌∷◌,
  length, take, drop, u16_mod,
}
use pcap_analyzer.Util.ParseError.{
  Result, ok, err, ◌>>=◌, ◌>>◌, fail_if, unexpected_eof, malformed_header,
}
use pcap_analyzer.Util.Endian.{Endian, to_host16, to_host32, byte_at, read16, read32}
use pcap_analyzer.Prelude.{Option, none, some}
use pcap_analyzer.Protocols.Ipv6 as V6

abbrev pub min_header_len : ℕ
min_header_len = 8

abbrev pub ah_min_len : ℕ
ah_min_len = 12

abbrev pub max_headers : ℕ
max_headers = 8

abbrev pub protocol_hopopt : ℕ
protocol_hopopt = 0

abbrev pub protocol_ipv6_route : ℕ
protocol_ipv6_route = 43

abbrev pub protocol_ipv6_frag : ℕ
protocol_ipv6_frag = 44

abbrev pub protocol_ah : ℕ
protocol_ah = 51

abbrev pub routing_type_srh : ℕ
routing_type_srh = 4

abbrev pub routing_address_offset : ℕ
routing_address_offset = 8

unfoldable pub is_extension : ℕ → Bool
is_extension next_header =
    next_header == protocol_hopopt
    || next_header == protocol_ipv6_route
    || next_header == protocol_ipv6_frag
    || next_header == protocol_ah
    || next_header == 60
    || next_header == 135
    || next_header == 139
    || next_header == 140

pub record Header : Type 0 where
  pub type : ℕ
  pub next_header : ℕ
  pub size : ℕ
  pub routing_type : ℕ
  pub segments_left : ℕ
  pub final_dst : Option (List ℕ)
  pub fragment_offset : ℕ
  pub more_fragments : Bool
  pub identification : ℕ
  pub spi : ℕ

unfoldable pub is_fragment : Header → Bool
is_fragment h = h.type == protocol_ipv6_frag && (not (h.fragment_offset == 0) || h.more_fragments)

-- The switch that computes `length`.
unfoldable pub length_of : ℕ → ℕ → ℕ
length_of type hdr_ext_len =
    if type == protocol_ipv6_frag
    then min_header_len
    else if type == protocol_ah
    then (hdr_ext_len + 2) * 4
    else (hdr_ext_len + 1) * min_header_len

-- `Header{}` with the fields that every type has.
unfoldable pub blank : ℕ → ℕ → ℕ → Header
blank type next_header size = record {
  type = type;
  next_header = next_header;
  size = size % u16_mod;
  routing_type = 0;
  segments_left = 0;
  final_dst = none;
  fragment_offset = 0;
  more_fragments = false;
  identification = 0;
  spi = 0;
}

-- Where the final destination stands: first in a segment routing header, last in the other types.
unfoldable pub address_offset : ℕ → ℕ → ℕ
address_offset routing_type hdr_ext_len =
    if not (routing_type == routing_type_srh)
    then routing_address_offset + 16 * (hdr_ext_len / 2 - 1)
    else routing_address_offset

unfoldable pub parse_route : List ℕ → Header → Result Header
unfolding address_offset
parse_route span blank_header =
    let hdr_ext_len = byte_at span 1 in
    let routing_type = byte_at span 2 in
    let segments_left = byte_at span 3 in
    let header : Header = record blank_header {
      routing_type = routing_type;
      segments_left = segments_left;
    } in
    let addressed = routing_type == 0 || routing_type == 2 || routing_type == routing_type_srh in
    if not addressed || segments_left == 0
    then ok header
    else if ltb hdr_ext_len 2 || not (hdr_ext_len % 2 == 0)
    then err malformed_header
    else ok (record header {
      final_dst = some (take 16 (drop (address_offset routing_type hdr_ext_len) span));
    })

unfoldable pub parse_frag : List ℕ → Header → Endian → Header
parse_frag span blank_header endian =
    let offset_flags = to_host16 (read16 span 2) endian in
    record blank_header {
      fragment_offset = offset_flags / 8;
      more_fragments = offset_flags % 2 == 1;
      identification = to_host32 (read32 span 4) endian;
    }

-- The second switch, on the type of the header.
unfoldable pub parse_fields : List ℕ → ℕ → Header → Endian → Result Header
unfolding parse_route parse_frag
parse_fields span type blank_header endian =
    if type == protocol_ipv6_route
    then parse_route span blank_header
    else if type == protocol_ipv6_frag
    then ok (parse_frag span blank_header endian)
    else if type == protocol_ah
    then ok (record blank_header { spi = to_host32 (read32 span 4) endian })
    else ok blank_header

unfoldable pub parse : List ℕ → ℕ → Endian → Result (Header × List ℕ)
unfolding length_of blank parse_fields
parse span type endian = do
  fail_if (ltb (length span) min_header_len) unexpected_eof
  let size : ℕ = length_of type (byte_at span 1)
  fail_if (type == protocol_ah && ltb size ah_min_len) malformed_header
  fail_if (ltb (length span) size) unexpected_eof
  header ← parse_fields span type (blank type (byte_at span 0) size) endian
  ok (header, drop size span)

-- The next header of the last extension, or what was given.
unfoldable pub last_next_header : ℕ → List Header → ℕ
last_next_header next [] = next
last_next_header next (ext ∷ rest) = last_next_header ext.next_header rest

abbrev get_or_else : Option (List ℕ) → List ℕ → List ℕ
get_or_else none dst = dst
get_or_else (some final) dst = final

-- The loop of `pseudoHeader`: the last final destination wins.
unfoldable pub final_destination : List ℕ → List Header → List ℕ
final_destination dst [] = dst
final_destination dst (ext ∷ rest) = final_destination (get_or_else ext.final_dst dst) rest

unfoldable pub pseudo_header : V6.Header → List Header → ℕ → V6.Header
unfolding last_next_header final_destination
pseudo_header ip exts upper_len = record ip {
  payload_length = upper_len % u16_mod;
  next_header = last_next_header ip.next_header exts;
  dst_ip = final_destination ip.dst_ip exts;
}
