-- ===== src/Protocols/Dns/Sections.antt =====
-- The sections of DNS messages, src/net/protocols/dns.cpp.
use pcap_analyzer.Prelude.{ℕ, zero, suc, ◌+◌, ◌*◌, ◌≤◌, ◌≡◌, ◌↔◌, List, length, arith}
use pcap_analyzer.Util.ParseError.{Result, ok, bind-eq-ok}
use pcap_analyzer.Util.Endian.{Endian}
use pcap_analyzer.Protocols.Dns.{
  Header, parse_name, parse_question, parse_resource_record, parse_section, parse_sections, parse,
  head_of, min_bytes,
}
use pcap_analyzer.Protocols.Dns.Names.{parse_name-bounds}

-- A parser of entries that takes at least k bytes and ends inside the message.
abbrev Takes {ℓ} : {A : Type ℓ} → List ℕ → ℕ → (ℕ → Result (A × ℕ)) → Type ℓ
Takes {A = A} msg k parser =
    (at : ℕ) (a : A) (p : ℕ) → parser at ≡ ok (a, p) → (at + k ≤ p) × (p ≤ length msg)

parse_question-Takes : (msg : List ℕ) (endian : Endian) → Takes msg 5 (parse_question msg endian)
unfolding parse_question
parse_question-Takes msg endian at q p e =
    let (r, f, g) = bind-eq-ok (parse_name msg at) _ e in
    let (short, before, inside) = parse_name-bounds msg at f in ground arith

parse_resource_record-Takes :
    (msg : List ℕ) (endian : Endian) → Takes msg 11 (parse_resource_record msg endian)
unfolding parse_resource_record
parse_resource_record-Takes msg endian at rr p e =
    let (r, f, g) = bind-eq-ok (parse_name msg at) _ e in
    let (short, before, inside) = parse_name-bounds msg at f in ground arith

parse_section-bounds {ℓ} :
    {A : Type ℓ} (msg : List ℕ) (k : ℕ) (parser : ℕ → Result (A × ℕ))
    → Takes msg k parser
    → (count at : ℕ) {entries : List A} {p : ℕ} → at ≤ length msg
    → parse_section parser count at ≡ ok (entries, p)
    → (length entries ≡ count) × (at + count * k ≤ p) × (p ≤ length msg)
unfolding parse_section
parse_section-bounds msg k parser takes zero at l e = ground arith
parse_section-bounds msg k parser takes (suc count) at l e =
    let (r, f, g) = bind-eq-ok (parser at) _ e in
    let (s, h, i) = bind-eq-ok (parse_section parser count r.1) _ g in
    let (less, inside) = takes at r.0 r.1 f in
    let (size, grown, within) = parse_section-bounds msg k parser takes count r.1 inside h in
    let more : (suc count) * k ≡ count * k + k = ground arith in ground arith

-- The bytes that the sections take, and the number of their entries.
parse_sections-bounds :
    (msg : List ℕ) (endian : Endian) (head : Header) {h : Header} {p : ℕ}
    → 12 ≤ length msg
    → parse_sections msg endian head ≡ ok (h, p)
    → (length h.questions ≡ head.qdcount)
      × (length h.answers ≡ head.ancount)
      × (length h.authority ≡ head.nscount)
      × (length h.additional ≡ head.arcount)
      × (12 + min_bytes head ≤ p)
      × (p ≤ length msg)
unfolding parse_sections min_bytes
parse_sections-bounds msg endian head l e =
    let question = parse_question msg endian in
    let entry = parse_resource_record msg endian in
    let q = parse_question-Takes msg endian in
    let rr = parse_resource_record-Takes msg endian in
    let (a, f1, g1) = bind-eq-ok (parse_section question head.qdcount 12) _ e in
    let (n1, m1, l1) = parse_section-bounds msg 5 question q head.qdcount 12 l f1 in
    let (b, f2, g2) = bind-eq-ok (parse_section entry head.ancount a.1) _ g1 in
    let (n2, m2, l2) = parse_section-bounds msg 11 entry rr head.ancount a.1 l1 f2 in
    let (c, f3, g3) = bind-eq-ok (parse_section entry head.nscount b.1) _ g2 in
    let (n3, m3, l3) = parse_section-bounds msg 11 entry rr head.nscount b.1 l2 f3 in
    let (d, f4, g4) = bind-eq-ok (parse_section entry head.arcount c.1) _ g3 in
    let (n4, m4, l4) = parse_section-bounds msg 11 entry rr head.arcount c.1 l3 f4 in ground arith

-- A message that is accepted has exactly as many entries in its sections as its counts say, and
-- the offset that it ends at lies inside what was given, behind the 12 bytes of the header with 5
-- bytes for each question and 11 for each record.
pub parse-bounds :
    (msg : List ℕ) (endian : Endian) {h : Header} {p : ℕ}
    → parse msg endian ≡ ok (h, p)
    → (length h.questions ≡ (head_of msg endian).qdcount)
      × (length h.answers ≡ (head_of msg endian).ancount)
      × (length h.authority ≡ (head_of msg endian).nscount)
      × (length h.additional ≡ (head_of msg endian).arcount)
      × (12 + min_bytes (head_of msg endian) ≤ p)
      × (p ≤ length msg)
unfolding parse
parse-bounds msg endian {h = h} {p = p} e =
    let (enough, later) : (12 ≤ length msg)
        × (parse_sections msg endian (head_of msg endian) ≡ ok (h, p)) =
      ground arith in
    parse_sections-bounds msg endian (head_of msg endian) enough later

-- The check of `min_bytes`, which keeps the vectors from being made larger than the message allows,
-- refuses no message that the parsers of the sections would accept.
pub parse-early :
    (msg : List ℕ) (endian : Endian) (h : Header) (p : ℕ)
    → (parse msg endian ≡ ok (h, p))
      ↔ ((12 ≤ length msg) × (parse_sections msg endian (head_of msg endian) ≡ ok (h, p)))
unfolding parse
parse-early msg endian h p = (
  λ e. ground arith,
  λ (l, e).
      let (n1, n2, n3, n4, taken, inside) =
        parse_sections-bounds msg endian (head_of msg endian) l e in
      ground arith,
)
