-- ===== src/Decode/AppDecoder/Ends.antt =====
-- The loops over a stream end, src/net/decode/app_decoder.cpp.
use pcap_analyzer.Prelude.{
  ℕ, suc, ◌+◌, ◌-◌, ◌≤◌, ◌<◌, ◌≡◌, refl, sym, ap, ◌∙◌, min, Bool, true, false, ltb, if◌then◌else◌,
  List, [], ◌∷◌, length, length-take, length-drop, take, drop, get_or, Option, none, some, arith,
}
use pcap_analyzer.Util.ParseError.{Result, ok, err}
use pcap_analyzer.Protocols.Http.Header.{Header}
use pcap_analyzer.Protocols.Http.Message.{parse}
use pcap_analyzer.Protocols.Http.Body.{parse_chunked_body}
use pcap_analyzer.Protocols.Http.Progress.{parse-length}
use pcap_analyzer.Protocols.Http.Resume.{parse_chunked_body-length}
use pcap_analyzer.Flow.TcpReassembler.State.{Reassembler}
use pcap_analyzer.Flow.TcpReassembler.Reading.{available, peek, consume}
use pcap_analyzer.Flow.TcpReassembler.Control.{peek-consume}
use pcap_analyzer.Decode.AppDecoder.State.{Applications}
use pcap_analyzer.Decode.AppDecoder.Resync.{resync_loop, find_http_resync, resync_at, resync_http}
use pcap_analyzer.Decode.AppDecoder.HttpRound.{
  Http, Round, resynced, with_prefix, stop, again, try_resync, finish, incomplete, chunked_body,
  read_body, take_request, read_header, skip_body, http_round,
}

length-peek : (r : Reassembler) → length (peek r) ≡ available r
unfolding peek available
length-peek r = length-drop r.read_pos r.assembled

pub available-consume : (r : Reassembler) (n : ℕ) → available (consume r n) ≡ available r - n
available-consume r n =
    sym (length-peek (consume r n))
    ∙ ap length (peek-consume r n)
    ∙ length-drop n (peek r)
    ∙ ap (λ k. k - n) (length-peek r)

one_byte :
    (here : Bool) (p n at : ℕ) (later : Option ℕ)
    → (later ≡ some at → (p + 1 < at) × (at ≤ p + 1 + n))
    → (if here then some (p + 1) else later) ≡ some at
    → (p < at) × (at ≤ p + suc n)
one_byte true p n at later h e = ground arith
one_byte false p n at later h e = let b = h e in omega (arith, b.0, b.1)

resync_loop-bounds :
    (before p : ℕ) (bs : List ℕ) (at : ℕ)
    → resync_loop before p bs ≡ some at
    → (p < at) × (at ≤ p + length bs)
unfolding resync_loop
resync_loop-bounds before p [] at e = cc
resync_loop-bounds before p (b ∷ bs) at e =
    one_byte _ p (length bs) at (resync_loop b (p + 1) bs) (resync_loop-bounds b (p + 1) bs at) e

find_http_resync-bounds :
    (buf : List ℕ) (from at : ℕ)
    → find_http_resync buf from ≡ some at
    → (0 < at) × (at ≤ length buf)
unfolding find_http_resync
find_http_resync-bounds buf from at e =
    let p = if ltb from 1 then 1 else from in
    let h = resync_loop-bounds (get_or buf (p - 1) 0) p (drop p buf) at e in
    omega (arith, h.0, h.1, length-drop p buf)

-- A round that goes on has consumed something.
unfoldable pub Shrinks : ℕ → Round → Type 0
Shrinks n (stop t) = Unit {0}
Shrinks n (again t) = available t.stream < n

resync_at-Shrinks :
    (r : Reassembler) (a : Applications) (o : Option ℕ)
    → ((at : ℕ) → o ≡ some at → (0 < at) × (at ≤ available r))
    → (resync_at r a o).0 ≡ true
    → available (resync_at r a o).1 < available r
unfolding resync_at
resync_at-Shrinks r a (some at) h e =
    let b = h at refl in omega (arith, b.0, b.1, available-consume r at)
resync_at-Shrinks r a none h e = ground (arith, available-consume r (available r))

found_inside :
    (r : Reassembler) (from at : ℕ)
    → find_http_resync (peek r) from ≡ some at
    → (0 < at) × (at ≤ available r)
found_inside r from at e =
    let b = find_http_resync-bounds (peek r) from at e in (b.0, omega (arith, b.1, length-peek r))

resynced-Shrinks :
    (s : Http) (t : Bool × Reassembler × Applications)
    → (t.0 ≡ true → available t.1 < available s.stream)
    → Shrinks (available s.stream) (resynced s t)
unfolding Shrinks
resynced-Shrinks s (true, stream, applications) h = h refl
resynced-Shrinks s (false, stream, applications) h = tt

try_resync-Shrinks : (s : Http) → Shrinks (available s.stream) (try_resync s)
unfolding try_resync resync_http
try_resync-Shrinks s = resynced-Shrinks s (resync_http s.stream s.applications) (λ e.
    resync_at-Shrinks s.stream
      (record s.applications { http_chunk_prefix = 0; http_body_until_close = false })
      (find_http_resync (peek s.stream) s.applications.http_resync_scanned)
      (λ at f. found_inside s.stream s.applications.http_resync_scanned at f) e)

-- What is left of the stream is shorter by the header.
abbrev Shorter : Http → List ℕ → Type 0
Shorter s span = length span < length (peek s.stream)

finish-Shrinks :
    (s : Http) (h : Header) (span : List ℕ)
    → Shorter s span
    → Shrinks (available s.stream) (finish s h span)
unfolding Shrinks finish
finish-Shrinks s h span l =
    omega (
      arith,
      length-peek s.stream,
      available-consume s.stream (length (peek s.stream) - length span),
    )

incomplete-Shrinks :
    (s : Http) (h : Header) (span : List ℕ)
    → Shorter s span
    → Shrinks (available s.stream) (incomplete s h span)
unfolding Shrinks incomplete
incomplete-Shrinks s h span l =
    let less : available (consume s.stream (length (peek s.stream) - length span))
        < available s.stream =
      omega (
        arith,
        length-peek s.stream,
        available-consume s.stream (length (peek s.stream) - length span),
      ) in
    ground (arith, less, try_resync-Shrinks s)

chunked_body-Shrinks :
    (s : Http) (h : Header) (span : List ℕ) (o : Result (List ℕ × List ℕ)) (n : ℕ)
    → Shorter s span
    → ((body rest : List ℕ) → o ≡ ok (body, rest) → length rest ≤ length span)
    → Shrinks (available s.stream) (chunked_body s h span o n)
unfolding chunked_body
chunked_body-Shrinks s h span (err code) n l k = ground (
  arith,
  incomplete-Shrinks (with_prefix s (s.applications.http_chunk_prefix + n)) h span l,
  try_resync-Shrinks s,
)
chunked_body-Shrinks s h span (ok (body, rest)) n l k =
    let less = k body rest refl in finish-Shrinks (with_prefix s 0) h rest (omega arith)

read_body-Shrinks :
    (s : Http) (h : Header) (head : Bool) (span : List ℕ)
    → Shorter s span
    → Shrinks (available s.stream) (read_body s h head span)
unfolding read_body
read_body-Shrinks s h head span l =
    let n = s.applications.http_chunk_prefix in
    let less = length-drop n span in
    let less2 = length-drop h.content_length span in
    let until : Http = record s {
      applications = record s.applications { http_body_until_close = true };
    } in
    ground (
      arith,
      finish-Shrinks s h span l,
      chunked_body-Shrinks s h (drop n span) (parse_chunked_body (drop n span)).outcome
          (parse_chunked_body (drop n span)).complete_prefix (omega arith)
          (parse_chunked_body-length (drop n span)),
      incomplete-Shrinks s h span l,
      finish-Shrinks s h (drop h.content_length span) (omega arith),
      finish-Shrinks until h span l,
    )

read_header-Shrinks :
    (s : Http) (window : ℕ) (r : Result (Header × List ℕ))
    → ((h : Header) (rest : List ℕ)
        → r ≡ ok (h, rest)
        → Shorter s (drop (window - length rest) (peek s.stream)))
    → Shrinks (available s.stream) (read_header s window r)
unfolding read_header
read_header-Shrinks s window (err code) k = unfold Shrinks in ground (arith, try_resync-Shrinks s)
read_header-Shrinks s window (ok (h, rest)) k =
    read_body-Shrinks (record s { peer_state = (take_request h s.peer_state).1 }) h
      (take_request h s.peer_state).0 (drop (window - length rest) (peek s.stream)) (k h rest refl)

skip_body-Shrinks :
    (s : Http) → 0 < s.applications.http_skip → Shrinks (available s.stream) (skip_body s)
unfolding Shrinks skip_body
skip_body-Shrinks s l =
    ground (arith, available-consume s.stream (min s.applications.http_skip (available s.stream)))

-- The parser that sees the first `window` bytes leaves fewer of them.
header_Shorter :
    (s : Http) (window : ℕ)
    → window ≤ length (peek s.stream)
    → (h : Header) (rest : List ℕ) → parse (take window (peek s.stream)) ≡ ok (h, rest)
    → Shorter s (drop (window - length rest) (peek s.stream))
header_Shorter s window l h rest e =
    let less = parse-length (take window (peek s.stream)) e in
    let size = length-take window (peek s.stream) in
    let left = length-drop (window - length rest) (peek s.stream) in omega arith

pub http_round-Shrinks : (s : Http) → Shrinks (available s.stream) (http_round s)
unfolding Shrinks http_round
http_round-Shrinks s =
    let window = min (length (peek s.stream)) 32768 in
    ground (
      arith,
      skip_body-Shrinks s,
      read_header-Shrinks s window (parse (take window (peek s.stream)))
          (header_Shorter s window (omega arith)),
    )
