-- ===== src/Protocols/Http/Stable.antt =====
-- What is read of a message does not depend on the bytes behind it, src/net/protocols/http.cpp.
use pcap_analyzer.Prelude.{
  ℕ, zero, suc, ◌+◌, ◌≤◌, ◌≡◌, ◌≢◌, ◌⊎◌, refl, sym, ap, ◌∙◌, inl, inr, ◌==◌, List, [], ◌∷◌, ◌++◌,
  length, length-append, length-take, length-drop, drop-append, some, Option-cases, Bool-cases,
  arith,
}
use pcap_analyzer.Util.ParseError.{ParseError, Result, ok, err, bind-eq-ok}
use pcap_analyzer.Util.Bytes.{index_of}
use pcap_analyzer.Util.Bytes.Search.{index_of-append, get_or-append, take-append}
use pcap_analyzer.Protocols.Http.Header.{Field, Header, empty_header}
use pcap_analyzer.Protocols.Http.Text.{line_at, read_line_crlf}
use pcap_analyzer.Protocols.Http.Fields.{
  FieldRound, bad, no_more, field, field_of, parse_field, line_round, fields_loop, parse_fields,
  parse_start_line,
}
use pcap_analyzer.Protocols.Http.Message.{parse, parse_framing}

line_at-append :
    (span more : List ℕ) (r : ℕ) {line rest : List ℕ}
    → line_at span (some r) ≡ ok (line, rest)
    → line_at (span ++ more) (some r) ≡ ok (line, rest ++ more)
unfolding line_at
line_at-append span more r e = ground (
  arith,
  length-append span more,
  get_or-append span more (r + 1) 0,
  take-append r span more,
  drop-append (r + 2) span more,
)

-- A line that was read, and the rest behind it.
pub read_line_crlf-append :
    (span more : List ℕ) {line rest : List ℕ}
    → read_line_crlf span ≡ ok (line, rest)
    → read_line_crlf (span ++ more) ≡ ok (line, rest ++ more)
unfolding read_line_crlf line_at
read_line_crlf-append span more e = elim (Option-cases (index_of 13 span)) [
  | inl n ↦ ground (arith, n)
  | inr (r, n) ↦
      rw (index_of-append 13 span more r n) (line_at-append span more r (ground (arith, n, e)))
]

pub read_line_crlf-length :
    (span : List ℕ) {line rest : List ℕ}
    → read_line_crlf span ≡ ok (line, rest)
    → length line + 2 + length rest ≡ length span
unfolding read_line_crlf line_at
read_line_crlf-length span e = elim (Option-cases (index_of 13 span)) [
  | inl n ↦ ground (arith, n)
  | inr (r, n) ↦ ground (arith, n, length-take r span, length-drop (r + 2) span)
]

field_of-ok :
    (rest : List ℕ) (r : Result Field) (f : Field) (behind : List ℕ)
    → field_of rest r ≡ field f behind
    → (r ≡ ok f) × (rest ≡ behind)
unfolding field_of
field_of-ok rest (err code) f behind e = cc
field_of-ok rest (ok g) f behind e = ground arith

-- A round that went on, or ended, read a line and would do the same with another rest.
pub line_round-field :
    (r : Result (List ℕ × List ℕ)) (f : Field) (rest : List ℕ)
    → line_round r ≡ field f rest
    → (line : List ℕ) × (r ≡ ok (line, rest))
      × ((x : List ℕ) → line_round (ok (line, x)) ≡ field f x)
unfolding line_round
line_round-field (err code) f rest e = cc
line_round-field (ok (line, behind)) f rest e = elim (Bool-cases (length line == 0)) [
  | inl n ↦ ground (arith, n)
  | inr n ↦
      let p : field_of behind (parse_field line) ≡ field f rest = ground (arith, n) in
      let (q, same) = field_of-ok behind (parse_field line) f rest p in
      (line, ap (λ x. ok (line, x)) same, λ x. rw (n, q, line_round) (unfold field_of in refl))
]

field_of-no_more :
    (rest : List ℕ) (r : Result Field) (behind : List ℕ) → field_of rest r ≢ no_more behind
unfolding field_of
field_of-no_more rest (err code) behind = λ e. cc
field_of-no_more rest (ok f) behind = λ e. cc

pub line_round-no_more :
    (r : Result (List ℕ × List ℕ)) (rest : List ℕ)
    → line_round r ≡ no_more rest
    → (line : List ℕ) × (r ≡ ok (line, rest))
      × ((x : List ℕ) → line_round (ok (line, x)) ≡ no_more x)
unfolding line_round
line_round-no_more (err code) rest e = cc
line_round-no_more (ok (line, behind)) rest e = elim (Bool-cases (length line == 0)) [
  | inl n ↦
      let same : behind ≡ rest = ground (arith, n) in
      (line, ap (λ x. ok (line, x)) same, λ x. rw (n, line_round) refl)
  | inr n ↦ absurd (field_of-no_more behind (parse_field line) rest (ground (arith, n)))
]

field-append :
    (span more : List ℕ) (f : Field) (rest : List ℕ)
    → line_round (read_line_crlf span) ≡ field f rest
    → line_round (read_line_crlf (span ++ more)) ≡ field f (rest ++ more)
field-append span more f rest e =
    let (line, read, same) = line_round-field (read_line_crlf span) f rest e in
    ap line_round (read_line_crlf-append span more read) ∙ same (rest ++ more)

no_more-append :
    (span more rest : List ℕ)
    → line_round (read_line_crlf span) ≡ no_more rest
    → line_round (read_line_crlf (span ++ more)) ≡ no_more (rest ++ more)
no_more-append span more rest e =
    let (line, read, same) = line_round-no_more (read_line_crlf span) rest e in
    ap line_round (read_line_crlf-append span more read) ∙ same (rest ++ more)

pub FieldRound-cases :
    (r : FieldRound)
    → ((code : ParseError) × (r ≡ bad code))
      ⊎ (((rest : List ℕ) × (r ≡ no_more rest))
          ⊎ ((f : Field) × (rest : List ℕ) × (r ≡ field f rest)))
FieldRound-cases (bad code) = inl (code, refl)
FieldRound-cases (no_more rest) = inr (inl (rest, refl))
FieldRound-cases (field f rest) = inr (inr (f, rest, refl))

pub fields_loop_bad :
    (fuel : ℕ) (span : List ℕ) (fields : List Field) {code : ParseError}
    → line_round (read_line_crlf span) ≡ bad code
    → fields_loop (suc fuel) span fields ≡ err code
unfolding fields_loop
fields_loop_bad fuel span fields n = rw (n, fields_loop) refl

pub fields_loop_no_more :
    (fuel : ℕ) (span : List ℕ) (fields : List Field) {rest : List ℕ}
    → line_round (read_line_crlf span) ≡ no_more rest
    → fields_loop (suc fuel) span fields ≡ ok (fields, rest)
unfolding fields_loop
fields_loop_no_more fuel span fields n = rw (n, fields_loop) refl

pub fields_loop_field :
    (fuel : ℕ) (span : List ℕ) (fields : List Field) {f : Field} {rest : List ℕ}
    → line_round (read_line_crlf span) ≡ field f rest
    → fields_loop (suc fuel) span fields ≡ fields_loop fuel rest (fields ++ f ∷ [])
unfolding fields_loop
fields_loop_field fuel span fields n = rw (n, fields_loop) refl

fields_loop-append :
    (fuel fuel2 : ℕ) (span more : List ℕ) (fields : List Field) {all : List Field} {rest : List ℕ}
    → fuel ≤ fuel2
    → fields_loop fuel span fields ≡ ok (all, rest)
    → fields_loop fuel2 (span ++ more) fields ≡ ok (all, rest ++ more)
unfolding fields_loop
fields_loop-append zero fuel2 span more fields l e = cc
fields_loop-append (suc fuel) zero span more fields l e = absurd (omega arith)
fields_loop-append (suc fuel) (suc fuel2) span more fields {all = all} {rest = rest} l e =
    elim (FieldRound-cases (line_round (read_line_crlf span))) [
      | inl (code, n) ↦ let h = sym (fields_loop_bad fuel span fields n) ∙ e in absurd cc
      | inr (inl (behind, n)) ↦
          let h = sym (fields_loop_no_more fuel span fields n) ∙ e in
          fields_loop_no_more fuel2 (span ++ more) fields (no_more-append span more behind n)
          ∙ ground (arith, h)
      | inr (inr (f, behind, n)) ↦
          let h = sym (fields_loop_field fuel span fields n) ∙ e in
          fields_loop_field fuel2 (span ++ more) fields (field-append span more f behind n)
          ∙ fields_loop-append fuel fuel2 behind more (fields ++ f ∷ []) (omega arith) h
    ]

pub parse_fields-append :
    (span more : List ℕ) (fields : List Field) {all : List Field} {rest : List ℕ}
    → parse_fields span fields ≡ ok (all, rest)
    → parse_fields (span ++ more) fields ≡ ok (all, rest ++ more)
unfolding parse_fields
parse_fields-append span more fields e =
    fields_loop-append (length span + 1) (length (span ++ more) + 1) span more fields
      (omega (arith, length-append span more)) e

parse_start_line-append :
    (span more : List ℕ) (header : Header) {h : Header} {rest : List ℕ}
    → parse_start_line span header ≡ ok (h, rest)
    → parse_start_line (span ++ more) header ≡ ok (h, rest ++ more)
unfolding parse_start_line
parse_start_line-append span more header e =
    let (r, read, later) = bind-eq-ok (read_line_crlf span) _ e in
    rw (read_line_crlf-append span more read) (ground (arith, later))

parsed-append :
    (span more : List ℕ) (started : Header) (behind_line : List ℕ) (fields : List Field)
    (last : List ℕ) (h : Header)
    → parse_start_line span empty_header ≡ ok (started, behind_line)
    → parse_fields behind_line started.fields ≡ ok (fields, last)
    → parse_framing (record started { fields = fields }) ≡ ok h
    → parse (span ++ more) ≡ ok (h, last ++ more)
unfolding parse
parsed-append span more started behind_line fields last h e f g =
    rw (parse_start_line-append span more empty_header e)
      (rw (parse_fields-append behind_line more started.fields f) (rw g refl))

ok_injective : (p q : Header × List ℕ) → ok p ≡ ok q → p ≡ q
ok_injective p q e = cc

longer :
    (more : List ℕ) {p q : Header × List ℕ}
    → p ≡ q
    → ◌≡◌ {A = Result (Header × List ℕ)} (ok (p.0, p.1 ++ more)) (ok (q.0, q.1 ++ more))
longer more e = cc

-- The header of a message is read in the same way, and leaves the same bytes, when more bytes come
-- behind it: a header that is complete in the data at hand does not change when the stream grows.
pub parse-append :
    (span more : List ℕ) {h : Header} {rest : List ℕ}
    → parse span ≡ ok (h, rest)
    → parse (span ++ more) ≡ ok (h, rest ++ more)
unfolding parse
parse-append span more {h = h} {rest = rest} e =
    let (s, started, e2) = bind-eq-ok (parse_start_line span empty_header) _ e in
    let (f, fields, e3) = bind-eq-ok (parse_fields s.1 s.0.fields) _ e2 in
    let (g, framed, e4) = bind-eq-ok (parse_framing (record s.0 { fields = f.0 })) _ e3 in
    parsed-append span more s.0 s.1 f.0 f.1 g started fields framed
    ∙ longer more (ok_injective (g, f.1) (h, rest) e4)
