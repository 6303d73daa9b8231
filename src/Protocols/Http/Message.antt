-- ===== src/Protocols/Http/Message.antt =====
-- The framing of a message, and `parse`, src/net/protocols/http.cpp.
use pcap_analyzer.Prelude.{
  ℕ, Bool, true, false, not, ◌&&◌, ◌||◌, ◌==◌, ltb, leb, if◌then◌else◌, List, [], ◌∷◌, Option, none,
  some,
}
use pcap_analyzer.Util.ParseError.{Result, ok, err, fail_if, ◌>>=◌, ◌>>◌, malformed_header}
use pcap_analyzer.Util.Text.{is_equals}
use pcap_analyzer.Util.Bytes.{codes, same_text}
use pcap_analyzer.Protocols.Http.Header.{Field, Header, empty_header, is_response}
use pcap_analyzer.Protocols.Http.Text.{trim_ows, parse_decimal}
use pcap_analyzer.Protocols.Http.Fields.{parse_start_line, parse_fields}

-- What the loop of `parseFraming` has seen: the encodings, the last one first, and the lengths.
pub record Framing : Type 0 where
  pub encodings : List (List ℕ)
  pub saw_content_length : Bool
  pub content_length : List ℕ

abbrev pub transfer_encoding : List ℕ
transfer_encoding = codes "Transfer-Encoding"

abbrev pub content_length_name : List ℕ
content_length_name = codes "Content-Length"

unfoldable pub framing_step : Field → Framing → Result Framing
unfolding is_equals same_text trim_ows
framing_step f s =
    if is_equals f.name transfer_encoding
    then ok (record s { encodings = trim_ows f.value ∷ s.encodings })
    else if is_equals f.name content_length_name
    then if not s.saw_content_length
      then ok (record s { saw_content_length = true; content_length = f.value })
      else if not (same_text f.value s.content_length)
      then err malformed_header
      else ok s
    else ok s

unfoldable pub framing_loop : List Field → Framing → Result Framing
unfolding framing_step
framing_loop [] s = ok s
framing_loop (f ∷ fs) s = framing_step f s >>= (λ t. framing_loop fs t)

-- The end of `parseFraming`, by the encodings, the last one first.
unfoldable pub settle_framing : Header → List (List ℕ) → Framing → Result Header
unfolding is_equals parse_decimal
settle_framing header [] s =
    if s.saw_content_length
    then parse_decimal s.content_length
      >>= (λ value. ok (record header { has_content_length = true; content_length = value }))
    else ok header
settle_framing header (last ∷ before) s = do
  fail_if s.saw_content_length malformed_header
  fail_if (not (is_equals last (codes "chunked"))) malformed_header
  ok (record header { chunked = true })

unfoldable pub parse_framing : Header → Result Header
unfolding framing_loop settle_framing
parse_framing header = do
  s ←
      framing_loop header.fields
        (record { encodings = []; saw_content_length = false; content_length = [] })
  settle_framing header s.encodings s

-- The caller gives a header that is empty; an error leaves the span as it was.
unfoldable pub parse : List ℕ → Result (Header × List ℕ)
unfolding parse_start_line parse_fields parse_framing
parse span = do
  (started, behind_line) ← parse_start_line span empty_header
  (fields, rest) ← parse_fields behind_line started.fields
  h ← parse_framing (record started { fields = fields })
  ok (h, rest)

unfoldable pub field_value : List ℕ → List Field → Option (List ℕ)
unfolding is_equals
field_value name [] = none
field_value name (f ∷ fs) =
    let later = field_value name fs in if is_equals f.name name then some f.value else later

unfoldable pub body_forbidden : Header → Bool
body_forbidden h =
    is_response h.type
    && (leb 100 h.status_code && ltb h.status_code 200
        || h.status_code == 204
        || h.status_code == 304)
