-- ===== src/Decode/AppDecoder/HttpRound.antt =====
-- One round of the HTTP loop of `pollStream`, src/net/decode/app_decoder.cpp.
use pcap_analyzer.Prelude.{
  ℕ, ◌+◌, ◌-◌, min, Bool, true, false, not, ◌&&◌, ◌||◌, ltb, leb, if◌then◌else◌, List, [], ◌∷◌,
  ◌++◌, length, take, drop,
}
use pcap_analyzer.Util.ParseError.{ParseError, Result, ok, err, unexpected_eof}
use pcap_analyzer.Util.Bytes.{codes, same_text}
use pcap_analyzer.Protocols.Http.Header.{Header, is_request, is_response}
use pcap_analyzer.Protocols.Http.Message.{parse, body_forbidden}
use pcap_analyzer.Protocols.Http.Body.{parse_chunked_body}
use pcap_analyzer.Flow.TcpReassembler.State.{Reassembler}
use pcap_analyzer.Flow.TcpReassembler.Reading.{available, peek, consume}
use pcap_analyzer.Decode.AppDecoder.State.{
  Applications, max_http_header_bytes, max_http_message_bytes, max_pending_requests,
}
use pcap_analyzer.Decode.AppDecoder.Resync.{resync_http}

-- The three objects that the loop changes.
pub record Http : Type 0 where
  pub stream : Reassembler
  pub applications : Applications
  pub peer_state : Applications

-- A round leaves the loop or goes on.
pub data Round : Type 0 where
  stop again : Http → Round

-- `err == ParseError::UnexpectedEof`
abbrev pub is_eof : ParseError → Bool
is_eof unexpected_eof = true
is_eof _ = false

abbrev pub resynced : Http → Bool × Reassembler × Applications → Round
resynced s (true, stream, applications) =
    again (record s { stream = stream; applications = applications })
resynced s (false, stream, applications) =
    stop (record s { stream = stream; applications = applications })

-- `if (!resyncHttp(stream, applications)) break; continue;`
unfoldable pub try_resync : Http → Round
unfolding resync_http
try_resync s = resynced s (resync_http s.stream s.applications)

-- A request is remembered by whether its method is HEAD.
unfoldable pub remember : Header → Applications → Applications
unfolding same_text
remember header a =
    if is_request header.type && ltb (length a.pending_head_requests) max_pending_requests
    then record a {
      pending_head_requests =
          a.pending_head_requests ++ same_text header.method (codes "HEAD") ∷ [];
    }
    else a

-- The message is complete: `span` is what is behind it.
unfoldable pub finish : Http → Header → List ℕ → Round
unfolding remember consume peek
finish s header span =
    let a = remember header s.applications in
    again (record s {
      stream = consume s.stream (length (peek s.stream) - length span);
      applications = record a { http_messages = a.http_messages ++ header ∷ [] };
    })

-- The body is not complete: `span` is what there is of it.
unfoldable pub incomplete : Http → Header → List ℕ → Round
unfolding remember consume peek available try_resync
incomplete s header span =
    let a = remember header s.applications in
    if ltb max_http_message_bytes (available s.stream)
    then if header.has_content_length && not header.chunked
      then again (record s {
        stream = consume s.stream (length (peek s.stream) - length span);
        applications = record a {
          http_messages = a.http_messages ++ header ∷ [];
          http_skip = header.content_length;
          http_bodies_skipped = a.http_bodies_skipped + 1;
        };
      })
      else try_resync s
    else stop s

abbrev pub with_prefix : Http → ℕ → Http
with_prefix s n = record s { applications = record s.applications { http_chunk_prefix = n } }

-- By what the parser of the body returned and counted.
unfoldable pub chunked_body : Http → Header → List ℕ → Result (List ℕ × List ℕ) → ℕ → Round
unfolding finish incomplete try_resync
chunked_body s header span (err code) validated =
    if is_eof code
    then incomplete (with_prefix s (s.applications.http_chunk_prefix + validated)) header span
    else try_resync s
chunked_body s header span (ok (body, rest)) validated = finish (with_prefix s 0) header rest

-- By the framing of the body. `subspan` behind the end of a span is undefined; `drop` gives nothing.
unfoldable pub read_body : Http → Header → Bool → List ℕ → Round
unfolding finish incomplete chunked_body parse_chunked_body body_forbidden
read_body s header head_response span =
    let behind_prefix = drop s.applications.http_chunk_prefix span in
    if body_forbidden header || head_response
    then finish s header span
    else if header.chunked
    then chunked_body s header behind_prefix (parse_chunked_body behind_prefix).outcome
        (parse_chunked_body behind_prefix).complete_prefix
    else if header.has_content_length
    then if ltb (length span) header.content_length
      then incomplete s header span
      else finish s header (drop header.content_length span)
    else if is_response header.type
    then finish (record s { applications = record s.applications { http_body_until_close = true } })
        header span
    else finish s header span

-- The request that a response answers: whether it was HEAD, and those that stay.
abbrev pub answered : List Bool → Bool × List Bool
answered [] = (false, [])
answered (head ∷ later) = (head, later)

unfoldable pub take_request : Header → Applications → Bool × Applications
take_request header peer =
    if is_response header.type && leb 200 header.status_code
    then (
      (answered peer.pending_head_requests).0,
      record peer { pending_head_requests = (answered peer.pending_head_requests).1 },
    )
    else (false, peer)

unfoldable pub read_header : Http → ℕ → Result (Header × List ℕ) → Round
unfolding take_request read_body try_resync available peek
read_header s window (err code) =
    if is_eof code && not (ltb max_http_header_bytes (available s.stream))
    then stop s
    else try_resync s
read_header s window (ok (header, rest)) =
    let (head_response, peer) = take_request header s.peer_state in
    read_body (record s { peer_state = peer }) header head_response
      (drop (window - length rest) (peek s.stream))

-- A body that is skipped.
unfoldable pub skip_body : Http → Round
unfolding available consume
skip_body s =
    let n = min s.applications.http_skip (available s.stream) in
    let t : Http = record s {
      stream = consume s.stream n;
      applications = record s.applications { http_skip = s.applications.http_skip - n };
    } in
    if ltb 0 (s.applications.http_skip - n) then stop t else again t

unfoldable pub http_round : Http → Round
unfolding skip_body read_header parse peek available consume
http_round s =
    let window = min (length (peek s.stream)) max_http_header_bytes in
    if ltb 0 s.applications.http_skip
    then skip_body s
    else if s.applications.http_body_until_close
    then stop (record s { stream = consume s.stream (available s.stream) })
    else read_header s window (parse (take window (peek s.stream)))
