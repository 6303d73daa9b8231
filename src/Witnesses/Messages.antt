-- ===== src/Witnesses/Messages.antt =====
-- HTTP messages, src/net/protocols/http.cpp.
use pcap_analyzer.Prelude.{
  ℕ, ◌≡◌, ◌≢◌, ◌⊎◌, refl, true, false, List, [], ◌∷◌, ◌++◌, drop, none, some,
}
use pcap_analyzer.Util.ParseError.{ok, err, unexpected_eof}
use pcap_analyzer.Util.Text.{is_equals, same_letters}
use pcap_analyzer.Util.Bytes.{
  codes, index_of, same_text, starts_with, from_chars_16, hex_digits, hex_value,
}
use pcap_analyzer.Protocols.Http.Header.{MessageType, Header, empty_header}
use pcap_analyzer.Protocols.Http.Text.{
  line_at, read_line_crlf, is_token_char, all_token_chars, is_token, trim_front, trim_back,
  trim_ows, decimal_loop, parse_decimal, parse_chunk_size,
}
use pcap_analyzer.Protocols.Http.Fields.{
  status_line, start_words, parse_start_line, field_at, parse_field, field_of, line_round,
  fields_loop, parse_fields,
}
use pcap_analyzer.Protocols.Http.Message.{
  transfer_encoding, content_length_name, framing_step, framing_loop, settle_framing, parse_framing,
  parse, field_value,
}
use pcap_analyzer.Protocols.Http.Body.{
  chunk_end, chunk_data, chunk_round, chunks_loop, parse_chunked_body,
}
use pcap_analyzer.Protocols.Http.Stable.{parse-append}
use pcap_analyzer.Protocols.Http.Framing.{SameLengths, EndsChunked, parse_framing_cases}
use pcap_analyzer.Protocols.Http.Resume.{rest_of, parse_chunked_body-resume}

abbrev crlf : List ℕ
crlf = 13 ∷ 10 ∷ []

-- A response with a body of five bytes.
abbrev pub head : List ℕ
head = codes "HTTP/1.1 200 OK" ++ crlf ++ codes "Content-Length: 5" ++ crlf ++ crlf

abbrev pub header : Header
header = record empty_header {
  type = MessageType.response;
  version = codes "HTTP/1.1";
  status_code = 200;
  reason_phrase = codes "OK";
  fields = record { name = codes "Content-Length"; value = codes "5" } ∷ [];
  has_content_length = true;
  content_length = 5;
}

abbrev unframed : Header
unframed = record header { has_content_length = false; content_length = 0 }

parsed : parse head ≡ ok (header, [])
unfolding parse parse_start_line read_line_crlf line_at index_of start_words status_line starts_with
    same_text parse_fields fields_loop line_round field_of parse_field field_at trim_ows trim_front
    trim_back is_token all_token_chars is_token_char parse_framing framing_loop framing_step
    settle_framing is_equals same_letters parse_decimal decimal_loop
parsed = refl

parse-append_example : parse (head ++ codes "hel") ≡ ok (header, [] ++ codes "hel")
parse-append_example = parse-append head (codes "hel") {h = header} {rest = []} parsed

framed : parse_framing unframed ≡ ok header
unfolding parse_framing framing_loop framing_step settle_framing is_equals same_letters same_text
    trim_ows trim_front trim_back parse_decimal decimal_loop
framed = refl

parse_framing_cases_example :
    ((field_value transfer_encoding unframed.fields ≡ none)
      × (field_value content_length_name unframed.fields ≡ none)
      × (header ≡ unframed))
    ⊎ (((field_value transfer_encoding unframed.fields ≢ none)
          × (field_value content_length_name unframed.fields ≡ none)
          × EndsChunked unframed.fields
          × (header ≡ record unframed { chunked = true }))
        ⊎ ((field_value transfer_encoding unframed.fields ≡ none)
            × ((text : List ℕ) × (n : ℕ) × (field_value content_length_name unframed.fields
                  ≡ some text)
                × SameLengths unframed.fields text
                × (parse_decimal text ≡ ok n)
                × (header ≡ record unframed { has_content_length = true; content_length = n }))))
parse_framing_cases_example = parse_framing_cases unframed header framed

-- A chunk of three bytes, and the beginning of the next one.
abbrev piece : List ℕ
piece = codes "3" ++ crlf ++ codes "abc" ++ crlf ++ codes "2" ++ crlf ++ codes "d"

abbrev more : List ℕ
more = codes "e" ++ crlf ++ codes "0" ++ crlf ++ crlf

cut_off : (parse_chunked_body piece).outcome ≡ err unexpected_eof
unfolding parse_chunked_body chunks_loop chunk_round chunk_data chunk_end read_line_crlf line_at
    index_of parse_chunk_size trim_back from_chars_16 hex_digits hex_value
cut_off = refl

parse_chunked_body-resume_example :
    rest_of (parse_chunked_body (piece ++ more)).outcome
    ≡ rest_of
        (parse_chunked_body
          (drop (parse_chunked_body piece).complete_prefix (piece ++ more))).outcome
parse_chunked_body-resume_example = parse_chunked_body-resume piece more unexpected_eof cut_off
