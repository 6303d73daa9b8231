-- ===== src/Flow/TcpReassembler/Ingest.antt =====
-- src/net/flow/tcp_reassembler.cpp: `ingest` and `drain`.
use pcap_analyzer.Prelude.{
  ℕ, ◌+◌, ◌-◌, ◌%◌, Bool, not, ◌&&◌, ◌==◌, ltb, leb, if◌then◌else◌, List, [], ◌∷◌, ◌++◌, length,
  drop, u32_mod, add32, sub32, is_negative,
}
use pcap_analyzer.Flow.TcpReassembler.State.{Segment, Reassembler, max_ooo_bytes}

-- `static_cast<int32_t>(w) > 0`
abbrev pub is_positive : ℕ → Bool
is_positive w = ltb 0 w && not (is_negative w)

-- One round of the loop of `drain`, on a segment that starts at or before `next_seq`.
unfoldable pub absorb : Reassembler → Segment → Reassembler
absorb r s =
    let covered = sub32 r.next_seq s.seq in
    if ltb covered (length s.bytes)
    then record r {
      assembled = r.assembled ++ drop covered s.bytes;
      next_seq = add32 r.next_seq ((length s.bytes - covered) % u32_mod);
      ooo_bytes = r.ooo_bytes - length s.bytes;
    }
    else record r { ooo_bytes = r.ooo_bytes - length s.bytes }

-- The list is what the loop has not reached; the segments before it are erased.
unfoldable pub drain_loop : Reassembler → List Segment → Reassembler
drain_loop r [] = record r { out_of_order = [] }
drain_loop r (s ∷ rest) =
    let absorbed = drain_loop (absorb r s) rest in
    if is_positive (sub32 s.seq r.next_seq) then record r { out_of_order = s ∷ rest } else absorbed

unfoldable pub drain : Reassembler → Reassembler
unfolding drain_loop
drain r = drain_loop r r.out_of_order

-- `std::lower_bound` on a list that is sorted by distance from `base`: the segments before the
-- position and those from it on.
unfoldable pub lower_bound : ℕ → ℕ → List Segment → List Segment × List Segment
lower_bound base seq [] = ([], [])
lower_bound base seq (s ∷ rest) =
    let (before, after) = lower_bound base seq rest in
    if ltb (sub32 s.seq base) (sub32 seq base) then (s ∷ before, after) else ([], s ∷ rest)

-- The segment found at the position has the same number: the longer payload stays.
unfoldable pub replace_at :
    Reassembler → List ℕ → List Segment → Segment → List Segment → Reassembler
replace_at r span before s rest =
    if ltb (length s.bytes) (length span)
    then if leb (r.ooo_bytes + length span - length s.bytes) max_ooo_bytes
      then record r {
        ooo_bytes = r.ooo_bytes + (length span - length s.bytes);
        out_of_order = before ++ record s { bytes = span } ∷ rest;
      }
      else r
    else r

unfoldable pub insert_at : Reassembler → ℕ → List ℕ → List Segment → List Segment → Reassembler
insert_at r seq span before after =
    if leb (r.ooo_bytes + length span) max_ooo_bytes
    then record r {
      out_of_order = before ++ record { seq = seq; bytes = span } ∷ after;
      ooo_bytes = r.ooo_bytes + length span;
    }
    else r

-- The branch of `ingest` for a segment ahead of `next_seq`, at the position that was found.
unfoldable pub buffer_at : Reassembler → ℕ → List ℕ → List Segment → List Segment → Reassembler
unfolding replace_at insert_at
buffer_at r seq span before [] = insert_at r seq span before []
buffer_at r seq span before (s ∷ rest) =
    if s.seq == seq then replace_at r span before s rest else insert_at r seq span before (s ∷ rest)

unfoldable pub buffer : Reassembler → ℕ → List ℕ → Reassembler
unfolding buffer_at
buffer r seq span =
    let (before, after) = lower_bound r.next_seq seq r.out_of_order in
    buffer_at r seq span before after

-- `keep_payload` is off: only the sequence number is followed.
unfoldable pub count_only : Reassembler → ℕ → List ℕ → Reassembler
count_only r seq span =
    let size = length span % u32_mod in
    let overlap = sub32 r.next_seq seq in
    if seq == r.next_seq
    then record r { next_seq = add32 r.next_seq size }
    else if is_negative (sub32 seq r.next_seq) && ltb overlap size
    then record r { next_seq = add32 r.next_seq (sub32 size overlap) }
    else r

-- `ingest` from the line that reserves capacity on: the payload is kept.
unfoldable pub deliver : Reassembler → ℕ → List ℕ → Reassembler
unfolding drain buffer
deliver r seq span =
    let size = length span % u32_mod in
    let overlap = sub32 r.next_seq seq in
    if seq == r.next_seq
    then drain (record r { assembled = r.assembled ++ span; next_seq = add32 r.next_seq size })
    else if is_positive (sub32 seq r.next_seq)
    then buffer r seq span
    else if ltb overlap size
    then drain (record r {
      assembled = r.assembled ++ drop overlap span;
      next_seq = add32 r.next_seq (sub32 size overlap);
    })
    else r

unfoldable pub ingest : Reassembler → ℕ → List ℕ → Reassembler
unfolding deliver count_only
ingest r seq span = if not r.keep_payload then count_only r seq span else deliver r seq span
