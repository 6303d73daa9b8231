-- ===== src/Protocols/Http/Progress.antt =====
-- The loops over the lines of a message end, src/net/protocols/http.cpp.
use pcap_analyzer.Prelude.{
  ℕ, zero, suc, ◌+◌, ◌≤◌, ◌<◌, ◌≡◌, sym, ◌∙◌, inl, inr, subst, List, [], ◌∷◌, ◌++◌, length, arith,
}
use pcap_analyzer.Util.ParseError.{ok, bind-eq-ok}
use pcap_analyzer.Protocols.Http.Header.{Field, Header, empty_header}
use pcap_analyzer.Protocols.Http.Text.{read_line_crlf}
use pcap_analyzer.Protocols.Http.Fields.{
  no_more, field, line_round, fields_loop, parse_fields, parse_start_line,
}
use pcap_analyzer.Protocols.Http.Message.{parse}
use pcap_analyzer.Protocols.Http.Stable.{
  read_line_crlf-length, line_round-field, line_round-no_more, FieldRound-cases, fields_loop_bad,
  fields_loop_no_more, fields_loop_field,
}

field-length :
    (span : List ℕ) (f : Field) (rest : List ℕ)
    → line_round (read_line_crlf span) ≡ field f rest
    → length rest + 2 ≤ length span
field-length span f rest e =
    let (line, read, same) = line_round-field (read_line_crlf span) f rest e in
    omega (arith, read_line_crlf-length span read)

no_more-length :
    (span rest : List ℕ)
    → line_round (read_line_crlf span) ≡ no_more rest
    → length rest + 2 ≤ length span
no_more-length span rest e =
    let (line, read, same) = line_round-no_more (read_line_crlf span) rest e in
    omega (arith, read_line_crlf-length span read)

-- One round for each line is enough: more fuel changes nothing.
pub fields_loop_enough :
    (fuel fuel2 : ℕ) (span : List ℕ) (fields : List Field)
    → length span < fuel
    → length span < fuel2
    → fields_loop fuel span fields ≡ fields_loop fuel2 span fields
fields_loop_enough zero fuel2 span fields l m = absurd (omega arith)
fields_loop_enough (suc fuel) zero span fields l m = absurd (omega arith)
fields_loop_enough (suc fuel) (suc fuel2) span fields l m =
    elim (FieldRound-cases (line_round (read_line_crlf span))) [
      | inl (code, n) ↦
          fields_loop_bad fuel span fields n ∙ sym (fields_loop_bad fuel2 span fields n)
      | inr (inl (rest, n)) ↦
          fields_loop_no_more fuel span fields n ∙ sym (fields_loop_no_more fuel2 span fields n)
      | inr (inr (f, rest, n)) ↦
          let less = field-length span f rest n in
          fields_loop_field fuel span fields n
          ∙ fields_loop_enough fuel fuel2 rest (fields ++ f ∷ []) (omega arith) (omega arith)
          ∙ sym (fields_loop_field fuel2 span fields n)
    ]

pub fields_loop-length :
    (fuel : ℕ) (span : List ℕ) (fields : List Field) {all : List Field} {rest : List ℕ}
    → fields_loop fuel span fields ≡ ok (all, rest)
    → length rest + 2 ≤ length span
unfolding fields_loop
fields_loop-length zero span fields e = cc
fields_loop-length (suc fuel) span fields {rest = rest} e =
    elim (FieldRound-cases (line_round (read_line_crlf span))) [
      | inl (code, n) ↦ let h = sym (fields_loop_bad fuel span fields n) ∙ e in absurd cc
      | inr (inl (behind, n)) ↦
          let h = sym (fields_loop_no_more fuel span fields n) ∙ e in
          let same : behind ≡ rest = ground (arith, h) in
          subst (λ r. length r + 2 ≤ length span) same (no_more-length span behind n)
      | inr (inr (f, behind, n)) ↦
          let h = sym (fields_loop_field fuel span fields n) ∙ e in
          omega (
            arith,
            field-length span f behind n,
            fields_loop-length fuel behind (fields ++ f ∷ []) h,
          )
    ]

-- The header of a message takes at least the two line ends.
pub parse-length :
    (span : List ℕ) {h : Header} {rest : List ℕ}
    → parse span ≡ ok (h, rest)
    → length rest + 4 ≤ length span
unfolding parse parse_start_line parse_fields
parse-length span e =
    let (s, started, e2) = bind-eq-ok (parse_start_line span empty_header) _ e in
    let (l, read, e3) = bind-eq-ok (read_line_crlf span) _ started in
    let (f, fields, e4) = bind-eq-ok (parse_fields s.1 s.0.fields) _ e2 in
    let a = read_line_crlf-length span read in
    let b = fields_loop-length (length s.1 + 1) s.1 s.0.fields fields in ground arith
