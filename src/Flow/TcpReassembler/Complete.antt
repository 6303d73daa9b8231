-- ===== src/Flow/TcpReassembler/Complete.antt =====
-- Once every byte of the stream was in some packet, and the buffer limit was never in the way, the
-- whole stream is there, whatever the order of the packets.
use pcap_analyzer.Prelude.{
  ℕ, ◌+◌, ◌≤◌, ◌<◌, ◌≡◌, ◌⊎◌, inl, inr, true, Bool-cases, ltb, ltb→le, List, [], ◌∷◌, ◌++◌, length,
  IsU32, arith,
}
use pcap_analyzer.Flow.TcpReassembler.State.{Segment, Reassembler, max_ooo_bytes}
use pcap_analyzer.Flow.TcpReassembler.Ingest.{
  absorb, drain_loop, drain, lower_bound, buffer, ingest,
}
use pcap_analyzer.Flow.TcpReassembler.Stream.{IsPart, offset, Buffered, offset-eq}
use pcap_analyzer.Flow.TcpReassembler.Assembly.{
  Assembled, Settled, drained, drained_le, reach, absorb-Assembled, is_ahead,
}
use pcap_analyzer.Flow.TcpReassembler.Position.{lower_bound-Split}
use pcap_analyzer.Flow.TcpReassembler.Delivery.{
  ingested, append-Assembled, deliver_cases, ingest-deliver,
}
use pcap_analyzer.Flow.TcpReassembler.Holding.{Holds, Kept, buffer_at-Holds, buffer_at-Holds_new}

module _ (stream : List ℕ) (isn : ℕ) (isn32 : IsU32 isn) (short : length stream < 2147483648) where
  drain_loop-Kept :
      (segs : List Segment) (lo k d o n : ℕ) (r : Reassembler)
      → Assembled stream isn k d r
      → Buffered stream isn lo segs
      → Kept isn k segs o n
      → Kept isn (drained isn k segs) (drain_loop r segs).out_of_order o n
  unfolding drain_loop drained
  drain_loop-Kept [] lo k d o n r a b h = h
  drain_loop-Kept (s ∷ rest) lo k d o n r a b h =
      let p = offset isn s.seq in
      let i = b.2.inside in
      elim (Bool-cases (ltb k p)) [
        | inl more ↦ rw (is_ahead stream isn isn32 short k d r s.seq a b.0 (omega arith), more) h
        | inr old ↦
            rw (is_ahead stream isn isn32 short k d r s.seq a b.0 (omega arith), old)
              (drain_loop-Kept rest p (reach k (p + length s.bytes)) d o n (absorb r s)
                (absorb-Assembled stream isn isn32 short k d r s a b.0 (ltb→le _ _ old) b.2) b.3
                (one_less p (length s.bytes) h))
      ]
    where
      one_less :
          (p m : ℕ)
          → (o + n ≤ k) ⊎ (((p ≡ o) × (n ≤ m)) ⊎ Holds isn o n rest)
          → Kept isn (reach k (p + m)) rest o n
      one_less p m (inl t) = inl (ground arith)
      one_less p m (inr (inl t)) = inl (ground arith)
      one_less p m (inr (inr t)) = inr t

  Kept-mono :
      (k k' o n : ℕ) (segs : List Segment) → k ≤ k' → Kept isn k segs o n → Kept isn k' segs o n
  Kept-mono k k' o n segs h (inl t) = inl (omega arith)
  Kept-mono k k' o n segs h (inr t) = inr t

  buffer_split :
      (k d : ℕ) (r : Reassembler) (seq : ℕ) (span : List ℕ)
      → Settled stream isn k d r
      → IsU32 seq
      → k < offset isn seq
      → IsPart stream (offset isn seq) span
      → (lower_bound r.next_seq seq r.out_of_order).0
          ++ (lower_bound r.next_seq seq r.out_of_order).1
        ≡ r.out_of_order
  buffer_split k d r seq span v hq hk part =
      (lower_bound-Split stream isn isn32 short r.out_of_order k k (offset isn seq) r.next_seq seq
        v.assembled_to.seq_at (offset-eq isn seq isn32 hq) (omega arith) v.ahead hk
        (let i = part.inside in omega arith)).joined

  -- A piece that is kept stays so.
  pub ingest-Kept :
      (k d o n : ℕ) (r : Reassembler) (seq : ℕ) (span : List ℕ)
      → Settled stream isn k d r
      → r.keep_payload ≡ true
      → IsU32 seq
      → IsPart stream (offset isn seq) span
      → Kept isn k r.out_of_order o n
      → Kept isn
          (ingested isn k r.out_of_order seq (length span))
          (ingest r seq span).out_of_order
          o
          n
  ingest-Kept k d o n r seq span v keep hq part h =
      rw (ingest-deliver stream isn isn32 short r seq span keep) (
        deliver_cases stream isn isn32 short (λ k' r'. Kept isn k' r'.out_of_order o n) k d r seq
          span v hq part (λ gap. buffered gap h)
          (λ c next e le en.
            unfold drain in
            drain_loop-Kept r.out_of_order k (offset isn seq + length span) d o n _
              (append-Assembled stream isn isn32 short k d c r seq span next v.assembled_to part e
                le en)
              v.ahead (Kept-mono k _ o n r.out_of_order le h))
          (λ old. h))
    where
      buffered :
          k < offset isn seq
          → Kept isn k r.out_of_order o n
          → Kept isn k (buffer r seq span).out_of_order o n
      buffered gap (inl t) = inl t
      buffered gap (inr t) = inr (
          unfold buffer in
          buffer_at-Holds isn o n r seq span _ _ (buffer_split k d r seq span v hq gap part) t)

  -- The piece that a packet brings is kept, when the limit leaves room for it.
  pub ingest-Kept_new :
      (k d : ℕ) (r : Reassembler) (seq : ℕ) (span : List ℕ)
      → Settled stream isn k d r
      → r.keep_payload ≡ true
      → IsU32 seq
      → IsPart stream (offset isn seq) span
      → r.ooo_bytes + length span ≤ max_ooo_bytes
      → Kept isn
          (ingested isn k r.out_of_order seq (length span))
          (ingest r seq span).out_of_order
          (offset isn seq)
          (length span)
  ingest-Kept_new k d r seq span v keep hq part room =
      rw (ingest-deliver stream isn isn32 short r seq span keep) (
        deliver_cases stream isn isn32 short
          (λ k' r'. Kept isn k' r'.out_of_order (offset isn seq) (length span)) k d r seq span v hq
          part
          (λ gap. inr (
            unfold buffer in
            buffer_at-Holds_new isn r seq span _ _ (buffer_split k d r seq span v hq gap part)
              room))
          (λ c next e le en. inl (drained_le isn r.out_of_order (offset isn seq + length span)))
          (λ old. inl old))
