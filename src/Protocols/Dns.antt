-- ===== src/Protocols/Dns.antt =====
-- include/net/protocols/dns.h and src/net/protocols/dns.cpp. A span is always the end of the message,
-- so it is the offset, from `dns_base`, at which it begins.
-- Names, Spelling and Encoding prove about names, Sections about the four sections.
use pcap_analyzer.Prelude.{
  ℕ, zero, suc, ◌+◌, ◌*◌, ◌/◌, ◌%◌, Bool, ◌==◌, ltb, not, if◌then◌else◌, List, [], ◌∷◌, ◌++◌,
  length, take, drop,
}
use pcap_analyzer.Util.ParseError.{
  ParseError, Result, ok, err, fail_if, ◌>>=◌, ◌>>◌, unexpected_eof, malformed_header,
}
use pcap_analyzer.Util.Endian.{Endian, byte_at, to_host16, to_host32, read16, read32}
pub mod Names
pub mod Spelling
pub mod Encoding
pub mod Sections

abbrev pub header_len : ℕ
header_len = 12

abbrev pub port : ℕ
port = 53

abbrev pub question_header_len : ℕ
question_header_len = 4

abbrev pub resource_header_len : ℕ
resource_header_len = 10

abbrev pub type_a : ℕ
type_a = 1

abbrev pub type_aaaa : ℕ
type_aaaa = 28

abbrev pub max_compression_jumps : ℕ
max_compression_jumps = 10

abbrev pub compression_pointer_mask : ℕ
compression_pointer_mask = 192

abbrev pub max_name_octets : ℕ
max_name_octets = 255

-- `b & DnsCompressionPointerMask`, the upper two bits of a byte.
unfoldable pub masked : ℕ → ℕ
masked b = b / 64 % 4 * 64

pub record Question : Type 0 where
  pub name : List ℕ
  pub qtype : ℕ
  pub qclass : ℕ

pub record ResourceRecord : Type 0 where
  pub name : List ℕ
  pub type : ℕ
  pub rclass : ℕ
  pub ttl : ℕ
  pub rdata : List ℕ

pub record Header : Type 0 where
  pub id : ℕ
  pub flags : ℕ
  pub qdcount : ℕ
  pub ancount : ℕ
  pub nscount : ℕ
  pub arcount : ℕ
  pub questions : List Question
  pub answers : List ResourceRecord
  pub authority : List ResourceRecord
  pub additional : List ResourceRecord

unfoldable pub is_response : Header → Bool
is_response h = h.flags / 32768 % 2 == 1

-- The variables of `parseName`; `ceiling` is read only after the first jump. `name` and `span` are
-- its two references.
pub record Scan : Type 0 where
  pub cur : ℕ
  pub jumps : ℕ
  pub octets : ℕ
  pub ceiling : ℕ
  pub span : ℕ
  pub name : List ℕ

-- What one round of the loop does: return an error or no error, or go on.
pub data Round : Type 0 where
  fails : ParseError → Round
  ends again : Scan → Round

-- The byte 0 that ends a name.
unfoldable pub end_name : Scan → Round
end_name s = ends (record s { span = if s.jumps == 0 then s.cur + 1 else s.span })

-- A compression pointer.
unfoldable pub follow : List ℕ → Scan → Round
follow msg s =
    let target = byte_at msg s.cur % 64 * 256 + byte_at msg (s.cur + 1) in
    let limit = if s.jumps == 0 then s.cur else s.ceiling in
    if not (ltb (s.cur + 1) (length msg))
    then fails unexpected_eof
    else if ltb max_compression_jumps (s.jumps + 1)
    then fails malformed_header
    else if not (ltb target limit)
    then fails malformed_header
    else again (record s {
      cur = target;
      jumps = s.jumps + 1;
      ceiling = target;
      span = if s.jumps == 0 then s.cur + 2 else s.span;
    })

-- A label joined to the name so far.
unfoldable pub join : List ℕ → List ℕ → List ℕ
join [] label = label
join (c ∷ cs) label = (c ∷ cs) ++ 46 ∷ label

unfoldable pub read_label : List ℕ → Scan → Round
unfolding join
read_label msg s =
    let len = byte_at msg s.cur in
    let octets : ℕ = s.octets + (len + 1) in
    if ltb (length msg) (s.cur + 1 + len)
    then fails unexpected_eof
    else if ltb max_name_octets octets
    then fails malformed_header
    else again (record s {
      cur = s.cur + 1 + len;
      octets = octets;
      name = join s.name (take len (drop (s.cur + 1) msg));
    })

unfoldable pub round : List ℕ → Scan → Round
unfolding end_name follow read_label masked
round msg s =
    if not (ltb s.cur (length msg))
    then fails unexpected_eof
    else if byte_at msg s.cur == 0
    then end_name s
    else if masked (byte_at msg s.cur) == compression_pointer_mask
    then follow msg s
    else if not (masked (byte_at msg s.cur) == 0)
    then fails malformed_header
    else read_label msg s

unfoldable pub name_loop : ℕ → List ℕ → Scan → Result (List ℕ × ℕ)
unfolding round
name_loop zero msg s = err unexpected_eof
name_loop (suc fuel) msg s = elim (round msg s) [
  | fails code ↦ err code
  | ends t ↦ ok (t.name, t.span)
  | again t ↦ name_loop fuel msg t
]

abbrev pub start : ℕ → Scan
start at = record { cur = at; jumps = 0; octets = 0; ceiling = 0; span = at; name = [] }

-- Each round moves forward, or is one of the jumps.
abbrev pub name_fuel : List ℕ → ℕ
name_fuel msg = 11 * (length msg + 1)

unfoldable pub parse_name : List ℕ → ℕ → Result (List ℕ × ℕ)
unfolding name_loop
parse_name msg at = name_loop (name_fuel msg) msg (start at)

unfoldable pub parse_question : List ℕ → Endian → ℕ → Result (Question × ℕ)
unfolding parse_name read16
parse_question msg endian at = do
  (name, p) ← parse_name msg at
  fail_if (ltb (length msg) (p + question_header_len)) unexpected_eof
  ok (
    record {
      name = name;
      qtype = to_host16 (read16 msg p) endian;
      qclass = to_host16 (read16 msg (p + 2)) endian;
    },
    p + question_header_len,
  )

unfoldable pub parse_resource_record : List ℕ → Endian → ℕ → Result (ResourceRecord × ℕ)
unfolding parse_name read16 read32
parse_resource_record msg endian at = do
  (name, p) ← parse_name msg at
  fail_if (ltb (length msg) (p + resource_header_len)) unexpected_eof
  let rdlength : ℕ = to_host16 (read16 msg (p + 8)) endian
  let data_at : ℕ = p + resource_header_len
  fail_if (ltb (length msg) (data_at + rdlength)) unexpected_eof
  ok (
    record {
      name = name;
      type = to_host16 (read16 msg p) endian;
      rclass = to_host16 (read16 msg (p + 2)) endian;
      ttl = to_host32 (read32 msg (p + 4)) endian;
      rdata = take rdlength (drop data_at msg);
    },
    data_at + rdlength,
  )

-- The loop that fills one section.
unfoldable pub parse_section {ℓ} : {A : Type ℓ} → (ℕ → Result (A × ℕ)) → ℕ → ℕ → Result (List A × ℕ)
parse_section parser zero at = ok ([], at)
parse_section parser (suc count) at = do
  (entry, p) ← parser at
  (entries, q) ← parse_section parser count p
  ok (entry ∷ entries, q)

-- The twelve bytes in front of the sections.
unfoldable pub head_of : List ℕ → Endian → Header
unfolding read16
head_of msg endian = record {
  id = to_host16 (read16 msg 0) endian;
  flags = to_host16 (read16 msg 2) endian;
  qdcount = to_host16 (read16 msg 4) endian;
  ancount = to_host16 (read16 msg 6) endian;
  nscount = to_host16 (read16 msg 8) endian;
  arcount = to_host16 (read16 msg 10) endian;
  questions = [];
  answers = [];
  authority = [];
  additional = [];
}

unfoldable pub min_bytes : Header → ℕ
min_bytes h =
    h.qdcount * (1 + question_header_len)
    + (h.ancount + h.nscount + h.arcount) * (1 + resource_header_len)

unfoldable pub parse_sections : List ℕ → Endian → Header → Result (Header × ℕ)
unfolding parse_section parse_question parse_resource_record
parse_sections msg endian h = do
  (questions, p) ← parse_section (parse_question msg endian) h.qdcount header_len
  (answers, q) ← parse_section (parse_resource_record msg endian) h.ancount p
  (authority, r) ← parse_section (parse_resource_record msg endian) h.nscount q
  (additional, s) ← parse_section (parse_resource_record msg endian) h.arcount r
  ok (
    record h {
      questions = questions;
      answers = answers;
      authority = authority;
      additional = additional;
    },
    s,
  )

unfoldable pub parse : List ℕ → Endian → Result (Header × ℕ)
unfolding head_of min_bytes parse_sections
parse msg endian = do
  fail_if (ltb (length msg) header_len) unexpected_eof
  let head = head_of msg endian
  fail_if (ltb (length msg) (header_len + min_bytes head)) unexpected_eof
  parse_sections msg endian head
