-- ===== src/Protocols/Http/Fields.antt =====
-- The start line and the fields, src/net/protocols/http.cpp.
use pcap_analyzer.Prelude.{
  ℕ, zero, suc, ◌+◌, ◌-◌, ◌*◌, Bool, true, false, not, ◌&&◌, ◌||◌, ◌==◌, if◌then◌else◌, List, [],
  ◌∷◌, ◌++◌, length, get_or, take, drop, Option, none, some,
}
use pcap_analyzer.Util.ParseError.{
  ParseError, Result, ok, err, fail_if, ◌>>=◌, ◌>>◌, unexpected_eof, malformed_header,
  unsupported_version,
}
use pcap_analyzer.Util.Bytes.{codes, index_of, same_text, starts_with}
use pcap_analyzer.Protocols.Http.Header.{MessageType, Field, Header}
use pcap_analyzer.Protocols.Http.Text.{read_line_crlf, has, is_token, is_ows, is_digit, trim_ows}

-- The words of the start line; whether there is a second space comes last.
abbrev words : List ℕ → Option ℕ → List ℕ × List ℕ × Bool
words after none = (after, [], false)
words after (some j) = (take j after, drop (j + 1) after, true)

abbrev is_status : List ℕ → Bool
is_status s =
    length s == 3 && is_digit (get_or s 0 0) && is_digit (get_or s 1 0) && is_digit (get_or s 2 0)

abbrev status_of : List ℕ → ℕ
status_of s = (get_or s 0 0 - 48) * 100 + (get_or s 1 0 - 48) * 10 + (get_or s 2 0 - 48)

unfoldable pub status_line : List ℕ → List ℕ → List ℕ → Header → Result Header
status_line first second third header = do
  fail_if (not (is_status second)) malformed_header
  ok (record header {
    type = MessageType.response;
    version = first;
    status_code = status_of second;
    reason_phrase = third;
  })

unfoldable pub request_line : List ℕ → List ℕ → List ℕ → Bool → Header → Result Header
unfolding is_token
request_line first second third complete header = do
  fail_if (not complete) malformed_header
  fail_if (not (is_token first) || length second == 0) malformed_header
  ok (record header {
    type = MessageType.request;
    method = first;
    target = second;
    version = third;
  })

unfoldable pub start_words : List ℕ → Option ℕ → Header → Result Header
unfolding status_line request_line starts_with index_of
start_words line none header = err malformed_header
start_words line (some space1) header =
    let first = take space1 line in
    let after = drop (space1 + 1) line in
    let (second, third, complete) = words after (index_of 32 after) in
    if starts_with (codes "HTTP/") first
    then status_line first second third header
    else request_line first second third complete header

unfoldable pub parse_start_line : List ℕ → Header → Result (Header × List ℕ)
unfolding read_line_crlf index_of start_words same_text
parse_start_line span header = do
  (line, rest) ← read_line_crlf span
  fail_if (length line == 0 || has 10 line) malformed_header
  h ← start_words line (index_of 32 line) header
  fail_if
      (not (same_text h.version (codes "HTTP/1.0")) && not (same_text h.version (codes "HTTP/1.1")))
      unsupported_version
  ok (h, rest)

-- A field from its line and the place of the colon.
unfoldable pub field_at : List ℕ → Option ℕ → Result Field
unfolding trim_ows is_token index_of
field_at line none = err malformed_header
field_at line (some colon) = do
  fail_if (colon == 0) malformed_header
  fail_if (is_ows (get_or line (colon - 1) 0)) malformed_header
  let name = take colon line
  let value = trim_ows (drop (colon + 1) line)
  fail_if (not (is_token name)) malformed_header
  fail_if (has 10 value || has 0 value) malformed_header
  ok (record { name = name; value = value })

unfoldable pub parse_field : List ℕ → Result Field
unfolding field_at index_of
parse_field line = do
  fail_if (is_ows (get_or line 0 0)) malformed_header
  field_at line (index_of b':' line)

-- One round of `parseFields`.
pub data FieldRound : Type 0 where
  bad : ParseError → FieldRound
  no_more : List ℕ → FieldRound
  field : Field → List ℕ → FieldRound

unfoldable pub field_of : List ℕ → Result Field → FieldRound
field_of rest (err code) = bad code
field_of rest (ok f) = field f rest

unfoldable pub line_round : Result (List ℕ × List ℕ) → FieldRound
unfolding field_of parse_field
line_round (err code) = bad code
line_round (ok (line, rest)) =
    if length line == 0 then no_more rest else field_of rest (parse_field line)

unfoldable pub fields_loop : ℕ → List ℕ → List Field → Result (List Field × List ℕ)
unfolding line_round read_line_crlf
fields_loop zero span fields = err unexpected_eof
fields_loop (suc fuel) span fields = elim (line_round (read_line_crlf span)) [
  | bad code ↦ err code
  | no_more rest ↦ ok (fields, rest)
  | field f rest ↦ fields_loop fuel rest (fields ++ f ∷ [])
]

-- Each line takes at least two bytes.
unfoldable pub parse_fields : List ℕ → List Field → Result (List Field × List ℕ)
unfolding fields_loop
parse_fields span fields = fields_loop (length span + 1) span fields
