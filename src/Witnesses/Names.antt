-- ===== src/Witnesses/Names.antt =====
-- A DNS response, and the table that it fills: src/net/protocols/dns.cpp, src/net/analysis.
use pcap_analyzer.Prelude.{
  ℕ, ◌+◌, ◌≤◌, ◌≡◌, ◌↔◌, ◌⊎◌, refl, true, List, [], ◌∷◌, ◌++◌, length, replicate, arith,
}
use pcap_analyzer.Util.ParseError.{ok}
use pcap_analyzer.Util.Endian.{Endian, to_host16, to_host32, bswap16, bswap32, read16, read32}
use pcap_analyzer.Protocols.Dns.{
  Header, ResourceRecord, start, parse_name, name_loop, round, end_name, follow, read_label, join,
  masked, parse, parse_sections, parse_section, parse_question, parse_resource_record, head_of,
  min_bytes, is_response,
}
use pcap_analyzer.Protocols.Dns.Names.{Loop, parse_name-ends}
use pcap_analyzer.Protocols.Dns.Encoding.{encode, parse_name-encode}
use pcap_analyzer.Protocols.Dns.Sections.{parse-bounds, parse-early}
use pcap_analyzer.Analysis.DnsTable.{IpKey, record_message}
use pcap_analyzer.Analysis.DnsTable.Answers.{Knows, Given, record_message_iff}
use pcap_analyzer.Analysis.DnsTable.Tidy.{Tidy, record_message-Tidy}

-- The question `a.bc`, and its address behind a pointer to the name of the question.
abbrev pub message : List ℕ
message =
    18 ∷ 52 ∷ 129 ∷ 128 ∷ 0 ∷ 1 ∷ 0 ∷ 1 ∷ 0 ∷ 0 ∷ 0 ∷ 0 ∷ 1 ∷ 97 ∷ 2 ∷ 98 ∷ 99 ∷ 0 ∷ 0 ∷ 1 ∷ 0 ∷ 1
    ∷ 192 ∷ 12 ∷ 0 ∷ 1 ∷ 0 ∷ 1 ∷ 0 ∷ 0 ∷ 0 ∷ 60 ∷ 0 ∷ 4 ∷ 10 ∷ 0 ∷ 0 ∷ 1 ∷ []

abbrev name : List ℕ
name = 97 ∷ 46 ∷ 98 ∷ 99 ∷ []

abbrev answer : ResourceRecord
answer = record { name = name; type = 1; rclass = 1; ttl = 60; rdata = 10 ∷ 0 ∷ 0 ∷ 1 ∷ [] }

abbrev response : Header
response = record {
  id = 4660;
  flags = 33152;
  qdcount = 1;
  ancount = 1;
  nscount = 0;
  arcount = 0;
  questions = record { name = name; qtype = 1; qclass = 1 } ∷ [];
  answers = answer ∷ [];
  authority = [];
  additional = [];
}

parsed : parse message Endian.big ≡ ok (response, 38)
unfolding parse parse_sections parse_section parse_question parse_resource_record head_of min_bytes
    parse_name name_loop round end_name follow read_label join masked to_host16 to_host32 read16
    read32 bswap16 bswap32
parsed = refl

parse_name-ends_example : Loop message (start 22) (parse_name message 22)
parse_name-ends_example = parse_name-ends message 22

parse_name-encode_example :
    parse_name (replicate 12 0 ++ (encode ((97 ∷ []) ∷ (98 ∷ 99 ∷ []) ∷ []) ++ (7 ∷ []))) 12
    ≡ ok (name, 18)
parse_name-encode_example =
    parse_name-encode ((97 ∷ []) ∷ (98 ∷ 99 ∷ []) ∷ []) (replicate 12 0) (7 ∷ [])
      ((omega arith, omega arith), ((omega arith, omega arith), tt)) (omega arith)

parse-bounds_example :
    (length response.questions ≡ (head_of message Endian.big).qdcount)
    × (length response.answers ≡ (head_of message Endian.big).ancount)
    × (length response.authority ≡ (head_of message Endian.big).nscount)
    × (length response.additional ≡ (head_of message Endian.big).arcount)
    × (12 + min_bytes (head_of message Endian.big) ≤ 38)
    × (38 ≤ length message)
parse-bounds_example = parse-bounds message Endian.big {h = response} {p = 38} parsed

parse-early_example : (parse message Endian.big ≡ ok (response, 38)) ↔ (
    (12 ≤ length message)
    × (parse_sections message Endian.big (head_of message Endian.big) ≡ ok (response, 38)))
parse-early_example = parse-early message Endian.big response 38

abbrev address : IpKey
address = record { is_ipv4 = true; ip = 10 ∷ 0 ∷ 0 ∷ 1 ∷ replicate 12 0 }

record_message_iff_example : Knows (record_message response []) address name ↔ (
    Knows [] address name
    ⊎ ((is_response response ≡ true)
        × (Given response.answers address name ⊎ Given response.additional address name)))
record_message_iff_example = record_message_iff response [] address name

record_message-Tidy_example : Tidy (record_message response (record_message response []))
record_message-Tidy_example =
    record_message-Tidy response (record_message response []) (record_message-Tidy response [] tt)
