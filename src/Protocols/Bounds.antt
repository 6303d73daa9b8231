-- ===== src/Protocols/Bounds.antt =====
-- What a successful parse guarantees of lengths, src/net/protocols: no parser reads or returns bytes
-- behind the end of what it was given.
use pcap_analyzer.Prelude.{
  ℕ, ◌+◌, ◌-◌, ◌*◌, ◌%◌, ◌≤◌, ◌≡◌, Bool, ==_iff, List, length, take, drop, length-take, length-drop,
  Option, none, some, arith,
}
use pcap_analyzer.Util.ParseError.{ok}
use pcap_analyzer.Util.Endian.{Endian, byte_at}
use pcap_analyzer.Protocols.Ipv4
use pcap_analyzer.Protocols.Ipv6
use pcap_analyzer.Protocols.Ipv6Ext
use pcap_analyzer.Protocols.Tcp
use pcap_analyzer.Protocols.Udp

-- An IPv4 header that is accepted has version 4 and its 20 to 60 bytes and total length inside the
-- span; what is left are the bytes behind the header, its options included, up to the total length.
pub Ipv4-parse_bounds :
    (span : List ℕ) (endian : Endian) (verify : Bool) {h : Ipv4.Header} {rest : List ℕ}
    → Ipv4.parse span endian verify ≡ ok (h, rest)
    → (Ipv4.version h ≡ 4)
      × (20 ≤ Ipv4.header_length h)
      × (Ipv4.header_length h ≤ 60)
      × (h.total_length ≤ length span)
      × (Ipv4.header_length h + length rest ≡ h.total_length)
      × (rest ≡ take (h.total_length - Ipv4.header_length h) (drop (Ipv4.header_length h) span))
unfolding Ipv4.parse
Ipv4-parse_bounds span endian verify {h = h} {rest = rest} e = ground (
  arith,
  length-take (h.total_length - Ipv4.header_length h) (drop (Ipv4.header_length h) span),
  length-drop (Ipv4.header_length h) span,
  ==_iff (Ipv4.version (Ipv4.wire span)) 4,
)

-- A UDP header that is accepted names a length of at least its own 8 bytes and at most the span;
-- what is left are the bytes behind those 8 up to that length.
pub Udp-parse_bounds :
    (span : List ℕ) (sum : ℕ) (endian : Endian) (zero_ok verify : Bool) {h : Udp.Header}
    {rest : List ℕ}
    → Udp.parse_with span sum endian zero_ok verify ≡ ok (h, rest)
    → (h.size ≤ length span) × (8 + length rest ≡ h.size) × (rest ≡ take (h.size - 8) (drop 8 span))
unfolding Udp.parse_with
Udp-parse_bounds span sum endian zero_ok verify {h = h} e =
    ground (arith, length-take (h.size - 8) (drop 8 span), length-drop 8 span)

-- A TCP header that is accepted has a length of 20 to 60 bytes, inside the segment that the IP layer
-- named and inside the span; what is left is everything behind it.
pub Tcp-parse_bounds :
    (span : List ℕ) (size sum : ℕ) (endian : Endian) (verify : Bool) {h : Tcp.Header}
    {rest : List ℕ}
    → Tcp.parse_with span size sum endian verify ≡ ok (h, rest)
    → (20 ≤ Tcp.header_length h)
      × (Tcp.header_length h ≤ 60)
      × (Tcp.header_length h ≤ size)
      × (size ≤ length span)
      × (rest ≡ drop (Tcp.header_length h) span)
unfolding Tcp.parse_with
Tcp-parse_bounds span size sum endian verify e = ground arith

-- An IPv6 header that is accepted has version 6, and what is left are the bytes behind its 40, as
-- many as its payload length says, inside the span.
pub Ipv6-parse_bounds :
    (span : List ℕ) (endian : Endian) {h : Ipv6.Header} {rest : List ℕ}
    → Ipv6.parse span endian ≡ ok (h, rest)
    → (Ipv6.version h ≡ 6)
      × (length rest ≡ h.payload_length)
      × (40 + length rest ≤ length span)
      × (rest ≡ take h.payload_length (drop 40 span))
unfolding Ipv6.parse
Ipv6-parse_bounds span endian {h = h} e =
    ground (arith, length-take h.payload_length (drop 40 span), length-drop 40 span)

-- The address of a routing header that is copied lies inside the header: `hdr_ext_len` units of 8
-- bytes behind the first.
address_inside : (type n : ℕ) → 2 ≤ n → n % 2 ≡ 0 → Ipv6Ext.address_offset type n + 16 ≤ (n + 1) * 8
unfolding Ipv6Ext.address_offset
address_inside type n h e = ground arith

abbrev pub HasAddress : Option (List ℕ) → Type 0
HasAddress none = Unit {0}
HasAddress (some a) = length a ≡ 16

parse_route-HasAddress :
    (span : List ℕ) (blank h : Ipv6Ext.Header)
    → (byte_at span 1 + 1) * 8 ≤ length span
    → HasAddress blank.final_dst
    → Ipv6Ext.parse_route span blank ≡ ok h
    → HasAddress h.final_dst
unfolding Ipv6Ext.parse_route
parse_route-HasAddress span blank h l n e = ground (
  arith,
  address_inside (byte_at span 2) (byte_at span 1),
  length-take 16 (drop (Ipv6Ext.address_offset (byte_at span 2) (byte_at span 1)) span),
  length-drop (Ipv6Ext.address_offset (byte_at span 2) (byte_at span 1)) span,
)
