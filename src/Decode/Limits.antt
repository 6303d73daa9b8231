-- ===== src/Decode/Limits.antt =====
-- How many headers one frame can have, src/net/decode/packet_decoder.cpp.
use pcap_analyzer.Prelude.{
  ℕ, zero, suc, ◌+◌, ◌*◌, ◌≤◌, ◌≡◌, ◌≢◌, sym, subst, ◌∙◌, inl, inr, ◌%◌, Bool, true, false, ◌&&◌,
  ◌==◌, Bool-cases, then_of, else_of, List, [], ◌∷◌, ◌++◌, length, length-append, length-drop,
  arith,
}
use pcap_analyzer.Util.ParseError.{
  ParseError, Result, ok, err, fail_if, ◌>>◌, bind-eq-ok, unsupported_linktype, invalid_field_value,
  malformed_header,
}
use pcap_analyzer.Util.Endian.{Endian, byte_at}
use pcap_analyzer.Protocols.Vlan
use pcap_analyzer.Protocols.Ipv6Ext
use pcap_analyzer.Decode.Packet.{Packet, set_datatype_from_linktype, reset}
use pcap_analyzer.Decode.PacketDecoder.{
  is_vlan, decode_tags, decode_exts, non_empty, Chain, fragment, upper, decode_packet,
}
use pcap_analyzer.Capture.Pcap.{FileHeader, check_file_header}

Vlan-parse-length :
    (span : List ℕ) (endian : Endian) {h : Vlan.Header} {rest : List ℕ}
    → Vlan.parse span endian ≡ ok (h, rest)
    → length rest + 4 ≡ length span
unfolding Vlan.parse
Vlan-parse-length span endian e = ground (arith, length-drop 4 span)

-- The loop over VLAN tags takes at most as many tags as there is room for, 4 bytes each, and stops
-- at an ethertype that is no tag.
pub decode_tags_bounds :
    (room : ℕ) (span : List ℕ) (ethertype : ℕ) (tags : List Vlan.Header) {last : ℕ}
    {all : List Vlan.Header} {rest : List ℕ}
    → decode_tags room span ethertype tags ≡ ok (last, all, rest)
    → (length all ≤ length tags + room)
      × (is_vlan last ≡ false)
      × (length rest + 4 * length all ≡ length span + 4 * length tags)
unfolding decode_tags
decode_tags_bounds zero span ethertype tags e = ground arith
decode_tags_bounds (suc room) span ethertype tags {last = last} {all = all} {rest = rest} e =
    elim (Bool-cases (is_vlan ethertype)) [
      | inl tag ↦
          let (r, p, q) = bind-eq-ok (Vlan.parse span Endian.big) _ (sym (then_of _ _ tag) ∙ e) in
          let (most, plain, size) =
            decode_tags_bounds room r.1 r.0.ethertype (tags ++ r.0 ∷ []) q in
          let one = length-append tags (r.0 ∷ []) in
          let taken = Vlan-parse-length span Endian.big p in (omega arith, plain, omega arith)
      | inr plain ↦ ground arith
    ]

least_length : (type n : ℕ) → 8 ≤ Ipv6Ext.length_of type n
unfolding Ipv6Ext.length_of
least_length type n = ground arith

Ext-parse-length :
    (span : List ℕ) (type : ℕ) (endian : Endian) {h : Ipv6Ext.Header} {rest : List ℕ}
    → Ipv6Ext.parse span type endian ≡ ok (h, rest)
    → length rest + 8 ≤ length span
unfolding Ipv6Ext.parse
Ext-parse-length span type endian e = ground (
  arith,
  length-drop (Ipv6Ext.length_of type (byte_at span 1)) span,
  least_length type (byte_at span 1),
)

-- The extension headers that the loop ends with, and the bytes behind them.
abbrev pub exts_of : Chain → List Ipv6Ext.Header
exts_of (fragment exts rest) = exts
exts_of (upper next exts rest) = exts

abbrev pub rest_of : Chain → List ℕ
rest_of (fragment exts rest) = rest
rest_of (upper next exts rest) = rest

-- The loop ends at a protocol that is no extension header, but for a fragment.
abbrev pub Ended : Chain → Type 0
Ended (fragment exts rest) = Unit {0}
Ended (upper next exts rest) = Ipv6Ext.is_extension next ≡ false

abbrev Within : List ℕ → List Ipv6Ext.Header → ℕ → Chain → Type 0
Within span exts room chain =
    (length (exts_of chain) ≤ length exts + room)
    × (length (rest_of chain) + 8 * length (exts_of chain) ≤ length span + 8 * length exts)
    × Ended chain

not_ok {ℓ} : {A : Type ℓ} (code : ParseError) (a : A) → err code ≡ ok a → ⊥
not_ok code a h = cc

ok_eq {ℓ} : {A : Type ℓ} (a b : A) → ok a ≡ ok b → a ≡ b
ok_eq a b e = cc

after_check {κ} :
    {B : Type κ} (test : Bool) (code : ParseError) {next : Result B} {b : B}
    → (fail_if test code >> next) ≡ ok b
    → next ≡ ok b
after_check true code e = cc
after_check false code e = e

-- The loop over IPv6 extension headers takes at most as many headers as there is room for, each of
-- at least 8 bytes, and unless it ends with a fragment it stops at a protocol that is no extension
-- header: a further one, for which there is no room, is refused.
pub decode_exts_bounds :
    (room : ℕ) (span : List ℕ) (next : ℕ) (exts : List Ipv6Ext.Header) {chain : Chain}
    → decode_exts room span next exts ≡ ok chain
    → (length (exts_of chain) ≤ length exts + room)
      × (length (rest_of chain) + 8 * length (exts_of chain) ≤ length span + 8 * length exts)
      × Ended chain
unfolding decode_exts
decode_exts_bounds zero span next exts {chain = chain} e =
    elim (Bool-cases (Ipv6Ext.is_extension next)) [
      | inl ext ↦ absurd (not_ok malformed_header chain (sym (then_of _ _ ext) ∙ e))
      | inr plain ↦
          let whole : Within span exts zero (upper next exts span) =
            (omega arith, omega arith, plain) in
          subst (Within span exts zero) (ok_eq _ _ (sym (else_of _ _ plain) ∙ e)) whole
    ]
decode_exts_bounds (suc room) span next exts {chain = chain} e =
    elim (Bool-cases (Ipv6Ext.is_extension next)) [
      | inl ext ↦
          let (r, p, q) = bind-eq-ok (Ipv6Ext.parse span next Endian.big) _ (
            after_check (next == Ipv6Ext.protocol_hopopt && non_empty exts) invalid_field_value
              (sym (then_of _ _ ext) ∙ e)) in
          let size = Ext-parse-length span next Endian.big p in
          elim (Bool-cases (Ipv6Ext.is_fragment r.0)) [
            | inl cut ↦
                let whole : Within span exts (suc room) (fragment (exts ++ r.0 ∷ []) r.1) = (
                  omega (arith, length-append exts (r.0 ∷ [])),
                  omega (arith, size, length-append exts (r.0 ∷ [])),
                  tt,
                ) in
                subst (Within span exts (suc room)) (ok_eq _ _ (sym (then_of _ _ cut) ∙ q)) whole
            | inr on ↦
                let (most, least, ended) =
                  decode_exts_bounds room r.1 r.0.next_header (exts ++ r.0 ∷ [])
                    (sym (else_of _ _ on) ∙ q) in
                let one = length-append exts (r.0 ∷ []) in (omega arith, omega arith, ended)
          ]
      | inr plain ↦
          let whole : Within span exts (suc room) (upper next exts span) =
            (omega arith, omega arith, plain) in
          subst (Within span exts (suc room)) (ok_eq _ _ (sym (else_of _ _ plain) ∙ e)) whole
    ]

-- A link type that names Ethernet, but with bits for a frame check sequence set, passes the check of
-- the file header, and no frame of the file is decoded.
pub linktype_with_fcs :
    (header : FileHeader) (pkt : Packet) (span : List ℕ) (verify : Bool)
    → header.major_version ≡ 2
    → header.minor_version ≡ 4
    → header.snaplen ≢ 0
    → header.linktype % 268435456 ≡ 1
    → header.linktype ≢ 1
    → (check_file_header header ≡ ok tt)
      × (decode_packet span (reset (set_datatype_from_linktype pkt header.linktype)) verify
          ≡ err unsupported_linktype)
unfolding decode_packet reset set_datatype_from_linktype check_file_header
linktype_with_fcs header pkt span verify a b c d n = ground arith
