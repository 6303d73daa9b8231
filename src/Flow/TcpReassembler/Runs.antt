-- ===== src/Flow/TcpReassembler/Runs.antt =====
-- Whole runs of a reassembler: what the application has read against what the peer has sent.
use pcap_analyzer.Prelude.{
  ℕ, ◌+◌, ◌-◌, ◌%◌, ◌≤◌, ◌<◌, ◌≡◌, refl, sym, ap, ◌∙◌, ◌⊎◌, inl, inr, subst, true, min, Bool-cases,
  ltb, ltb→lt, ltb→le, List, [], ◌∷◌, ◌++◌, length, take, All, append_assoc, take-add, drop-take,
  take_all, u32_mod, IsU32, arith,
}
use pcap_analyzer.Protocols.Tcp.{Header}
use pcap_analyzer.Flow.TcpReassembler.State.{established, Segment, Reassembler, init, max_ooo_bytes}
use pcap_analyzer.Flow.TcpReassembler.Ingest.{ingest}
use pcap_analyzer.Flow.TcpReassembler.Handlers.{on_sent}
use pcap_analyzer.Flow.TcpReassembler.Reading.{peek, consume}
use pcap_analyzer.Flow.TcpReassembler.Stream.{offset, Buffered}
use pcap_analyzer.Flow.TcpReassembler.Delivery.{ingested}
use pcap_analyzer.Flow.TcpReassembler.Holding.{Holds, Kept, ingest-ooo_bytes}
use pcap_analyzer.Flow.TcpReassembler.Complete.{ingest-Kept, ingest-Kept_new}
use pcap_analyzer.Flow.TcpReassembler.Reassembly.{
  Live, Event, packet, reads, IsData, run, on_sent-ingest, ingested_le, packet-Live, peek-Live,
  consume-Live, read_on,
}

-- Position `i` of the stream is in one of the packets.
abbrev pub Covers : ℕ → List Event → ℕ → Type 0
Covers isn [] i = ⊥
Covers isn (packet h span ∷ es) i =
    ((offset isn h.seq_number ≤ i) × (i < offset isn h.seq_number + length span)) ⊎ Covers isn es i
Covers isn (reads n ∷ es) i = Covers isn es i

-- The payload of all the packets together, repeats counted.
abbrev pub payload : List Event → ℕ
payload [] = 0
payload (packet h span ∷ es) = length span + payload es
payload (reads n ∷ es) = payload es

-- Some piece around position `i` is assembled or buffered.
abbrev KeptAt : ℕ → ℕ → List Segment → ℕ → Type 0
KeptAt isn k segs i = (o n : ℕ) × (o ≤ i) × (i < o + n) × Kept isn k segs o n

-- What a run from `r` to `last` that reads `out` has done when the stream is assembled up to `k'`.
record Outcome (stream : List ℕ) (isn k p : ℕ) (r : Reassembler) (es : List Event) (k' : ℕ)
    : Type 0 where
  grows : k ≤ k'
  within : k' ≤ length stream
  seq_at : (run r es).0.next_seq ≡ (isn + k') % u32_mod
  bytes : take p stream ++ ((run r es).1 ++ peek (run r es).0) ≡ take k' stream
  ahead : Buffered stream isn k' (run r es).0.out_of_order
  kept : (i : ℕ) → KeptAt isn k r.out_of_order i → KeptAt isn k' (run r es).0.out_of_order i
  brought :
      r.ooo_bytes + payload es ≤ max_ooo_bytes
      → (i : ℕ) → Covers isn es i
      → KeptAt isn k' (run r es).0.out_of_order i

consume_buffer :
    (r : Reassembler) (n : ℕ)
    → ((consume r n).out_of_order ≡ r.out_of_order) × ((consume r n).ooo_bytes ≡ r.ooo_bytes)
unfolding consume
consume_buffer r n = ground arith

module _ (stream : List ℕ) (isn : ℕ) (isn32 : IsU32 isn) (short : length stream < 2147483648) where
  here-Outcome :
      (k p d : ℕ) (r : Reassembler) → Live stream isn k p d r → Outcome stream isn k p r [] k
  unfolding run
  here-Outcome k p d r v =
      let s = v.settled in
      record {
        grows = omega arith;
        within = s.assembled_to.within;
        seq_at = s.assembled_to.seq_at;
        bytes =
            ap (λ ys. take p stream ++ ys)
              (peek-Live stream isn isn32 short k p d r v ∙ drop-take p k stream)
            ∙ take-add p (k - p) k stream (let q = v.readable in omega arith);
        ahead = s.ahead;
        kept = λ i t. t;
        brought = λ room i c. absurd c;
      }

  packet-Outcome :
      (k p d k' : ℕ) (r : Reassembler) (hd : Header) (span : List ℕ) (es : List Event)
      → Live stream isn k p d r
      → IsData stream isn (packet hd span)
      → Outcome stream isn
          (ingested isn k r.out_of_order hd.seq_number (length span))
          p
          (on_sent r hd span)
          es
          k'
      → Outcome stream isn k p r (packet hd span ∷ es) k'
  unfolding run
  packet-Outcome k p d k' r hd span es v (hq, hr, hf, part) o = record {
    grows =
        let l = o.grows in
        omega
          (arith, ingested_le stream isn isn32 short k r.out_of_order hd.seq_number (length span));
    within = o.within;
    seq_at = o.seq_at;
    bytes = o.bytes;
    ahead = o.ahead;
    kept = λ i t. o.kept i (
      t.0,
      t.1,
      t.2,
      t.3,
      rw same (
          ingest-Kept stream isn isn32 short k d t.0 t.1 r hd.seq_number span v.settled v.keeps hq
            part t.4),
    );
    brought = λ room i c. covered room i c;
  }
    where
      same : on_sent r hd span ≡ ingest r hd.seq_number span
      same = on_sent-ingest r hd span v.is_established v.is_seeded v.no_fin hr hf

      covered :
          r.ooo_bytes + (length span + payload es) ≤ max_ooo_bytes
          → (i : ℕ)
          → ((offset isn hd.seq_number ≤ i) × (i < offset isn hd.seq_number + length span))
            ⊎ Covers isn es i
          → KeptAt isn k' (run (on_sent r hd span) es).0.out_of_order i
      covered room i (inl (lo, hi)) = o.kept i (
        offset isn hd.seq_number,
        length span,
        lo,
        hi,
        rw same (
            ingest-Kept_new stream isn isn32 short k d r hd.seq_number span v.settled v.keeps hq
              part (omega arith)),
      )
      covered room i (inr c) =
          o.brought (rw same (omega (arith, ingest-ooo_bytes r hd.seq_number span))) i c

  reads-Outcome :
      (k p d n k' : ℕ) (r : Reassembler) (es : List Event)
      → Live stream isn k p d r
      → Outcome stream isn k (p + min n (k - p)) (consume r n) es k'
      → Outcome stream isn k p r (reads n ∷ es) k'
  unfolding run
  reads-Outcome k p d n k' r es v o =
      let (same, size) = consume_buffer r n in
      record {
        grows = o.grows;
        within = o.within;
        seq_at = o.seq_at;
        bytes =
            ap (λ ys. take p stream ++ ys)
              (append_assoc (take n (peek r)) (run (consume r n) es).1
                (peek (run (consume r n) es).0))
            ∙ sym (append_assoc (take p stream) (take n (peek r)) _)
            ∙ ap (λ ys. ys ++ ((run (consume r n) es).1 ++ peek (run (consume r n) es).0))
                (ap (λ ys. take p stream ++ take n ys) (peek-Live stream isn isn32 short k p d r v)
                  ∙ read_on stream isn isn32 short k p n v.readable)
            ∙ o.bytes;
        ahead = o.ahead;
        kept = λ i t. o.kept i (subst (λ segs. KeptAt isn k segs i) (sym same) t);
        brought = λ room i c. o.brought (rw size room) i c;
      }

  run-Outcome :
      (es : List Event) (k p d : ℕ) (r : Reassembler)
      → Live stream isn k p d r
      → All (IsData stream isn) es
      → (k' : ℕ) × Outcome stream isn k p r es k'
  run-Outcome [] k p d r v h = (k, here-Outcome k p d r v)
  run-Outcome (packet hd span ∷ es) k p d r v h =
      let (k', o) =
        run-Outcome es _ p d (on_sent r hd span)
          (packet-Live stream isn isn32 short k p d r hd span v h.0) h.1 in
      (k', packet-Outcome k p d k' r hd span es v h.0 o)
  run-Outcome (reads n ∷ es) k p d r v h =
      let (d', live) = consume-Live stream isn isn32 short k p d n r v in
      let (k', o) = run-Outcome es k (p + min n (k - p)) d' (consume r n) live h.1 in
      (k', reads-Outcome k p d n k' r es v o)

-- The state of a side whose handshake is done and whose first data byte has number `isn`.
abbrev pub opened : ℕ → Reassembler
opened isn = record init { state = established; next_seq = isn; seeded = true }

module _ (stream : List ℕ) (isn : ℕ) (isn32 : IsU32 isn) (short : length stream < 2147483648) where
  opened-Live : Live stream isn 0 0 0 (opened isn)
  opened-Live = record {
    settled = record {
      assembled_to = record {
        seq_at = omega arith;
        within = omega arith;
        behind = omega arith;
        content = refl;
      };
      ahead = tt;
      counted = refl;
      bounded = omega arith;
    };
    position = refl;
    readable = omega arith;
    is_established = refl;
    is_seeded = refl;
    keeps = refl;
    no_fin = refl;
  }

  -- For a stream of fewer than 2 to the 31 bytes, whose first byte has a 32-bit sequence number, that
  -- is opened at that number: data packets of the stream in any order, with any losses, repeats and
  -- overlaps, and reads in between: what was read and what can be read are, joined, a prefix of the stream, and `next_seq`
  -- is the number of the byte behind that prefix.
  pub run_prefix :
      (es : List Event)
      → All (IsData stream isn) es
      → (k : ℕ) × (k ≤ length stream)
        × ((run (opened isn) es).0.next_seq ≡ (isn + k) % u32_mod)
        × ((run (opened isn) es).1 ++ peek (run (opened isn) es).0 ≡ take k stream)
  run_prefix es h =
      let (k, o) = run-Outcome stream isn isn32 short es 0 0 0 (opened isn) opened-Live h in
      (k, o.within, o.seq_at, o.bytes)

  -- Segments that lie strictly ahead hold no piece around the end of the assembled part.
  not_ahead :
      (lo o n : ℕ) (segs : List Segment)
      → o ≤ lo
      → Buffered stream isn lo segs
      → Holds isn o n segs
      → ⊥
  not_ahead lo o n [] h b t = t
  not_ahead lo o n (s ∷ rest) h b (inl t) = let e = t.0 in omega arith
  not_ahead lo o n (s ∷ rest) h b (inr t) =
      not_ahead (offset isn s.seq) o n rest (omega arith) b.3 t

  no_gap : (k : ℕ) (segs : List Segment) → Buffered stream isn k segs → KeptAt isn k segs k → ⊥
  no_gap k segs b (o, n, lo, hi, inl t) = omega arith
  no_gap k segs b (o, n, lo, hi, inr t) = not_ahead k o n segs lo b t

  -- Data packets of one stream, in any order and with any repeats and overlaps, that together cover
  -- the stream and together carry at most MAX_OOO_BYTES of payload: once all of them were seen, what
  -- was read and what can be read are the whole stream.
  pub run_whole :
      (es : List Event)
      → All (IsData stream isn) es
      → payload es ≤ max_ooo_bytes
      → ((i : ℕ) → i < length stream → Covers isn es i)
      → (run (opened isn) es).1 ++ peek (run (opened isn) es).0 ≡ stream
  run_whole es h room cover =
      let (k, o) = run-Outcome stream isn isn32 short es 0 0 0 (opened isn) opened-Live h in
      o.bytes ∙ take_all k stream (all_there k o)
    where
      all_there : (k : ℕ) → Outcome stream isn 0 0 (opened isn) es k → length stream ≤ k
      all_there k o = elim (Bool-cases (ltb k (length stream))) [
        | inl less ↦ absurd (
            no_gap k (run (opened isn) es).0.out_of_order o.ahead
              (o.brought (omega arith) k (cover k (ltb→lt _ _ less))))
        | inr done ↦ ltb→le _ _ done
      ]
