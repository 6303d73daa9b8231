-- ===== src/Decode/AppDecoder/Limits.antt =====
-- The requests that are remembered stay bounded, src/net/decode/app_decoder.cpp.
use pcap_analyzer.Prelude.{
  ℕ, zero, suc, ◌+◌, ◌-◌, ◌≤◌, ◌≡◌, refl, min, Bool, true, false, List, [], ◌∷◌, length,
  length-append, take, drop, Option, none, some, arith,
}
use pcap_analyzer.Util.ParseError.{Result, ok, err}
use pcap_analyzer.Util.Bytes.{codes, same_text}
use pcap_analyzer.Protocols.Http.Header.{Header}
use pcap_analyzer.Protocols.Http.Message.{parse}
use pcap_analyzer.Protocols.Http.Body.{parse_chunked_body}
use pcap_analyzer.Flow.TcpReassembler.State.{Reassembler}
use pcap_analyzer.Flow.TcpReassembler.Reading.{peek}
use pcap_analyzer.Decode.AppDecoder.State.{Applications}
use pcap_analyzer.Decode.AppDecoder.Resync.{find_http_resync, resync_at, resync_http}
use pcap_analyzer.Decode.AppDecoder.HttpRound.{
  Http, Round, stop, again, resynced, with_prefix, answered, try_resync, remember, finish,
  incomplete, chunked_body, read_body, take_request, read_header, skip_body, http_round,
}
use pcap_analyzer.Decode.AppDecoder.Streams.{http_loop}

-- Not more than MAX_PENDING_REQUESTS requests wait for their response.
abbrev pub IsBounded : Applications → Type 0
IsBounded a = length a.pending_head_requests ≤ 1024

abbrev pub BothBounded : Http → Type 0
BothBounded s = IsBounded s.applications × IsBounded s.peer_state

Kept : Round → Type 0
Kept (stop t) = BothBounded t
Kept (again t) = BothBounded t

remember-IsBounded : (h : Header) (a : Applications) → IsBounded a → IsBounded (remember h a)
unfolding remember
remember-IsBounded h a l =
    ground (arith, length-append a.pending_head_requests (same_text h.method (codes "HEAD") ∷ []))

resync_at-IsBounded :
    (r : Reassembler) (a : Applications) (o : Option ℕ)
    → IsBounded a
    → IsBounded (resync_at r a o).2
unfolding resync_at
resync_at-IsBounded r a none l = ground arith
resync_at-IsBounded r a (some at) l = l

resynced-Kept :
    (s : Http) (t : Bool × Reassembler × Applications)
    → IsBounded t.2
    → IsBounded s.peer_state
    → Kept (resynced s t)
unfolding Kept
resynced-Kept s (true, stream, applications) l m = (l, m)
resynced-Kept s (false, stream, applications) l m = (l, m)

try_resync-Kept : (s : Http) → BothBounded s → Kept (try_resync s)
unfolding try_resync resync_http
try_resync-Kept s (l, m) =
    resynced-Kept s (resync_http s.stream s.applications)
      (resync_at-IsBounded s.stream
        (record s.applications { http_chunk_prefix = 0; http_body_until_close = false })
        (find_http_resync (peek s.stream) s.applications.http_resync_scanned) l)
      m

finish-Kept : (s : Http) (h : Header) (span : List ℕ) → BothBounded s → Kept (finish s h span)
unfolding Kept finish
finish-Kept s h span (l, m) = (remember-IsBounded h s.applications l, m)

incomplete-Kept :
    (s : Http) (h : Header) (span : List ℕ) → BothBounded s → Kept (incomplete s h span)
unfolding Kept incomplete
incomplete-Kept s h span (l, m) =
    ground (arith, remember-IsBounded h s.applications l, try_resync-Kept s (l, m))

chunked_body-Kept :
    (s : Http) (h : Header) (span : List ℕ) (o : Result (List ℕ × List ℕ)) (n : ℕ)
    → BothBounded s
    → Kept (chunked_body s h span o n)
unfolding chunked_body
chunked_body-Kept s h span (err code) n l = ground (
  arith,
  incomplete-Kept (with_prefix s (s.applications.http_chunk_prefix + n)) h span l,
  try_resync-Kept s l,
)
chunked_body-Kept s h span (ok (body, rest)) n l = finish-Kept (with_prefix s 0) h rest l

read_body-Kept :
    (s : Http) (h : Header) (head : Bool) (span : List ℕ)
    → BothBounded s
    → Kept (read_body s h head span)
unfolding read_body
read_body-Kept s h head span l =
    let behind = drop s.applications.http_chunk_prefix span in
    let until : Http = record s {
      applications = record s.applications { http_body_until_close = true };
    } in
    ground (
      arith,
      finish-Kept s h span l,
      chunked_body-Kept s h behind (parse_chunked_body behind).outcome
          (parse_chunked_body behind).complete_prefix l,
      incomplete-Kept s h span l,
      finish-Kept s h (drop h.content_length span) l,
      finish-Kept until h span l,
    )

answered-length : (waiting : List Bool) → length (answered waiting).1 ≤ length waiting
answered-length [] = omega arith
answered-length (head ∷ later) = omega arith

take_request-IsBounded :
    (h : Header) (peer : Applications) → IsBounded peer → IsBounded (take_request h peer).1
unfolding take_request
take_request-IsBounded h peer l = ground (arith, answered-length peer.pending_head_requests)

read_header-Kept :
    (s : Http) (window : ℕ) (r : Result (Header × List ℕ))
    → BothBounded s
    → Kept (read_header s window r)
unfolding read_header
read_header-Kept s window (err code) l = unfold Kept in ground (arith, try_resync-Kept s l)
read_header-Kept s window (ok (h, rest)) (l, m) =
    read_body-Kept (record s { peer_state = (take_request h s.peer_state).1 }) h
      (take_request h s.peer_state).0 (drop (window - length rest) (peek s.stream))
      (l, take_request-IsBounded h s.peer_state m)

http_round-Kept : (s : Http) → BothBounded s → Kept (http_round s)
unfolding Kept http_round skip_body
http_round-Kept s l =
    let window = min (length (peek s.stream)) 32768 in
    ground (arith, read_header-Kept s window (parse (take window (peek s.stream))) l)

pick :
    (fuel : ℕ) (s : Http) (r : Round)
    → http_round s ≡ r
    → Kept r
    → ((t : Http) → BothBounded t → BothBounded (http_loop fuel t))
    → BothBounded (http_loop (suc fuel) s)
unfolding Kept http_loop
pick fuel s (stop t) e l k = rw (e, http_loop) l
pick fuel s (again t) e l k = rw (e, http_loop) (k t l)

pub http_loop-BothBounded : (fuel : ℕ) (s : Http) → BothBounded s → BothBounded (http_loop fuel s)
unfolding http_loop
http_loop-BothBounded zero s l = l
http_loop-BothBounded (suc fuel) s l =
    pick fuel s (http_round s) refl (http_round-Kept s l) (λ t m. http_loop-BothBounded fuel t m)
