-- ===== src/Decode/AppDecoder/Heads.antt =====
-- Responses whose body comes in several packets, src/net/decode/app_decoder.cpp.
use pcap_analyzer.Prelude.{
  ℕ, ◌-◌, ◌≤◌, ◌<◌, ◌≡◌, refl, ap, ◌∙◌, min, Bool, true, false, le→ltb, lt→ltb, le→leb, List, [],
  ◌∷◌, ◌++◌, length, take, drop,
}
use pcap_analyzer.Util.ParseError.{ok}
use pcap_analyzer.Protocols.Http.Header.{MessageType, Header}
use pcap_analyzer.Protocols.Http.Message.{parse, body_forbidden}
use pcap_analyzer.Flow.TcpReassembler.Reading.{available, peek, consume}
use pcap_analyzer.Decode.AppDecoder.State.{Applications}
use pcap_analyzer.Decode.AppDecoder.HttpRound.{
  Http, stop, again, remember, finish, incomplete, read_body, take_request, read_header, http_round,
}

abbrev pub window_of : Http → ℕ
window_of s = min (length (peek s.stream)) 32768

abbrev pub body_of : Http → List ℕ → List ℕ
body_of s rest = drop (window_of s - length rest) (peek s.stream)

-- At the front of the stream stands the header of a response, of whose body there is only a part.
pub record IsPartial (s : Http) (h : Header) (rest : List ℕ) : Type 0 where
  pub no_skip : s.applications.http_skip ≡ 0
  pub not_until_close : s.applications.http_body_until_close ≡ false
  pub parsed : parse (take (window_of s) (peek s.stream)) ≡ ok (h, rest)
  pub response : h.type ≡ MessageType.response
  pub final : 200 ≤ h.status_code
  pub with_body : body_forbidden h ≡ false
  pub not_chunked : h.chunked ≡ false
  pub sized : h.has_content_length ≡ true
  pub short : length (body_of s rest) < h.content_length
  pub small : available s.stream ≤ 8388608

abbrev pub waiting : Http → List Bool → Http
waiting s more = record s { peer_state = record s.peer_state { pending_head_requests = more } }

header_round :
    (s : Http) (h : Header) (rest : List ℕ)
    → IsPartial s h rest
    → http_round s ≡ read_header s (window_of s) (ok (h, rest))
unfolding http_round
header_round s h rest p = rw (p.no_skip, p.not_until_close, p.parsed) refl

read_body_partial :
    (s t : Http) (h : Header) (rest : List ℕ)
    → IsPartial s h rest
    → t.stream ≡ s.stream
    → read_body t h false (body_of s rest) ≡ stop t
unfolding read_body incomplete
read_body_partial s t h rest p e =
    rw (p.with_body, p.not_chunked, p.sized, e, lt→ltb _ _ p.short, le→ltb _ _ p.small) refl

take_request_waiting :
    (h : Header) (peer : Applications) (head : Bool) (more : List Bool)
    → h.type ≡ MessageType.response
    → 200 ≤ h.status_code
    → peer.pending_head_requests ≡ head ∷ more
    → take_request h peer ≡ (head, record peer { pending_head_requests = more })
unfolding take_request
take_request_waiting h peer head more r f w = rw (r, le→leb _ _ f, w) refl

pub wait_round :
    (s : Http) (h : Header) (rest : List ℕ) (more : List Bool)
    → IsPartial s h rest
    → s.peer_state.pending_head_requests ≡ false ∷ more
    → http_round s ≡ stop (waiting s more)
unfolding read_header
wait_round s h rest more p w =
    header_round s h rest p
    ∙ ap (λ t. read_body (record s { peer_state = t.1 }) h t.0 (body_of s rest))
        (take_request_waiting h s.peer_state false more p.response p.final w)
    ∙ read_body_partial s (waiting s more) h rest p refl

finish_head :
    (s t : Http) (h : Header) (rest : List ℕ)
    → IsPartial s h rest
    → read_body t h true (body_of s rest) ≡ finish t h (body_of s rest)
unfolding read_body
finish_head s t h rest p = rw (p.with_body) refl

pub head_round :
    (s : Http) (h : Header) (rest : List ℕ) (more : List Bool)
    → IsPartial s h rest
    → s.peer_state.pending_head_requests ≡ true ∷ more
    → http_round s ≡ finish (waiting s more) h (body_of s rest)
unfolding read_header
head_round s h rest more p w =
    header_round s h rest p
    ∙ ap (λ t. read_body (record s { peer_state = t.1 }) h t.0 (body_of s rest))
        (take_request_waiting h s.peer_state true more p.response p.final w)
    ∙ finish_head s (waiting s more) h rest p

-- A response whose body is not complete, with a Content-Length, takes the oldest request that waits,
-- although it stays in the stream; so it takes another request when it is read again. If the second
-- request was HEAD, the next poll, without a new byte, takes the response for one without a body: it
-- files the message and consumes the header only.
pub partial_response_twice :
    (s : Http) (h : Header) (rest : List ℕ) (more : List Bool)
    → IsPartial s h rest
    → s.peer_state.pending_head_requests ≡ false ∷ true ∷ more
    → (http_round s ≡ stop (waiting s (true ∷ more)))
      × (http_round (waiting s (true ∷ more))
          ≡ again (record (waiting s more) {
            stream = consume s.stream (length (peek s.stream) - length (body_of s rest));
            applications = record s.applications {
              http_messages = s.applications.http_messages ++ h ∷ [];
            };
          }))
unfolding finish remember
partial_response_twice s h rest more p w =
    let later : IsPartial (waiting s (true ∷ more)) h rest = record {
      no_skip = p.no_skip;
      not_until_close = p.not_until_close;
      parsed = p.parsed;
      response = p.response;
      final = p.final;
      with_body = p.with_body;
      not_chunked = p.not_chunked;
      sized = p.sized;
      short = p.short;
      small = p.small;
    } in
    (
      wait_round s h rest (true ∷ more) p w,
      head_round (waiting s (true ∷ more)) h rest more later refl ∙ rw (p.response) refl,
    )
