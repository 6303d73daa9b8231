-- ===== src/Flow/TcpReassembler/Assembly.antt =====
-- `drain` and `ingest` against a byte stream.
use pcap_analyzer.Prelude.{
  ℕ, ◌+◌, ◌-◌, ◌%◌, ◌≤◌, ◌<◌, ◌≡◌, ap, ◌∙◌, inl, inr, Bool-cases, ltb, if◌then◌else◌, ltb→lt,
  ltb→le, lt→ltb, le→ltb, List, [], ◌∷◌, ◌++◌, length, take, drop, u32_mod, IsU32, sub32, add32,
  arith,
}
use pcap_analyzer.Flow.TcpReassembler.State.{Segment, Reassembler, max_ooo_bytes}
use pcap_analyzer.Flow.TcpReassembler.Ingest.{absorb, is_positive, drain_loop}
use pcap_analyzer.Flow.TcpReassembler.Stream.{
  IsPart, offset, Buffered, total, drop-extend, sub32_after, offset-eq, is_positive-sub32,
}

-- The first `k` bytes of the stream are in place, and the first `d` of these are dropped.
pub record Assembled (stream : List ℕ) (isn k d : ℕ) (r : Reassembler) : Type 0 where
  pub seq_at : r.next_seq ≡ (isn + k) % u32_mod
  pub within : k ≤ length stream
  pub behind : d ≤ k
  pub content : r.assembled ≡ drop d (take k stream)

-- Where the assembled part ends once a piece from `o` to `o + n` is absorbed.
abbrev pub reach : ℕ → ℕ → ℕ
reach k e = if ltb k e then e else k

-- How far the assembled part reaches once the segments at hand are drained.
unfoldable pub drained : ℕ → ℕ → List Segment → ℕ
drained isn k [] = k
drained isn k (s ∷ rest) =
    let next = drained isn (reach k (offset isn s.seq + length s.bytes)) rest in
    if ltb k (offset isn s.seq) then k else next

pub drained_le : (isn : ℕ) (segs : List Segment) (k : ℕ) → k ≤ drained isn k segs
unfolding drained
drained_le isn [] k = omega arith
drained_le isn (s ∷ rest) k =
    ground (arith, drained_le isn rest (reach k (offset isn s.seq + length s.bytes)))

-- The stream is assembled up to `k`; what is buffered lies strictly ahead of that, in order, and
-- is counted exactly, within the limit.
pub record Settled (stream : List ℕ) (isn k d : ℕ) (r : Reassembler) : Type 0 where
  pub assembled_to : Assembled stream isn k d r
  pub ahead : Buffered stream isn k r.out_of_order
  pub counted : r.ooo_bytes ≡ total r.out_of_order
  pub bounded : r.ooo_bytes ≤ max_ooo_bytes

module _ (stream : List ℕ) (isn : ℕ) (isn32 : IsU32 isn) (short : length stream < 2147483648) where
  covered-eq :
      (k d : ℕ) (r : Reassembler) (q : ℕ)
      → Assembled stream isn k d r
      → IsU32 q
      → offset isn q ≤ k
      → sub32 r.next_seq q ≡ k - offset isn q
  covered-eq k d r q a hq ho =
      sub32_after isn k (offset isn q) r.next_seq q a.seq_at (offset-eq isn q isn32 hq)
        (let w = a.within in omega arith) ho

  seq_advance :
      (k m next : ℕ)
      → next ≡ (isn + k) % u32_mod
      → add32 next (m % u32_mod) ≡ (isn + (k + m)) % u32_mod
  unfolding add32
  seq_advance k m next e = omega arith

  absorb_new :
      (k d : ℕ) (r : Reassembler) (s : Segment)
      → Assembled stream isn k d r
      → IsU32 s.seq
      → offset isn s.seq ≤ k
      → IsPart stream (offset isn s.seq) s.bytes
      → k < offset isn s.seq + length s.bytes
      → Assembled stream isn (offset isn s.seq + length s.bytes) d (absorb r s)
  unfolding absorb
  absorb_new k d r s a hq ho part more =
      let o = offset isn s.seq in
      rw (covered-eq k d r s.seq a hq ho, lt→ltb (k - o) (length s.bytes) (omega arith))
        (record {
          seq_at =
              seq_advance k (length s.bytes - (k - o)) r.next_seq a.seq_at
              ∙ ap (λ t. (isn + t) % u32_mod) (omega arith);
          within = part.inside;
          behind = let b = a.behind in omega arith;
          content =
              ap (λ ys. ys ++ drop (k - o) s.bytes) a.content
              ∙ drop-extend stream s.bytes d o k part a.behind a.within ho (omega arith);
        })

  absorb_old :
      (k d : ℕ) (r : Reassembler) (s : Segment)
      → Assembled stream isn k d r
      → IsU32 s.seq
      → offset isn s.seq ≤ k
      → offset isn s.seq + length s.bytes ≤ k
      → Assembled stream isn k d (absorb r s)
  unfolding absorb
  absorb_old k d r s a hq ho old =
      let o = offset isn s.seq in
      rw (covered-eq k d r s.seq a hq ho, le→ltb (k - o) (length s.bytes) (omega arith))
        (record { seq_at = a.seq_at; within = a.within; behind = a.behind; content = a.content })

  pub absorb-Assembled :
      (k d : ℕ) (r : Reassembler) (s : Segment)
      → Assembled stream isn k d r
      → IsU32 s.seq
      → offset isn s.seq ≤ k
      → IsPart stream (offset isn s.seq) s.bytes
      → Assembled stream isn (reach k (offset isn s.seq + length s.bytes)) d (absorb r s)
  absorb-Assembled k d r s a hq ho part =
      elim (Bool-cases (ltb k (offset isn s.seq + length s.bytes))) [
        | inl more ↦ rw more (absorb_new k d r s a hq ho part (ltb→lt _ _ more))
        | inr old ↦ rw old (absorb_old k d r s a hq ho (ltb→le _ _ old))
      ]

  absorb-ooo_bytes :
      (r : Reassembler) (s : Segment) → (absorb r s).ooo_bytes ≡ r.ooo_bytes - length s.bytes
  unfolding absorb
  absorb-ooo_bytes r s = ground arith

  pub is_ahead :
      (k d : ℕ) (r : Reassembler) (q : ℕ)
      → Assembled stream isn k d r
      → IsU32 q
      → offset isn q ≤ length stream
      → is_positive (sub32 q r.next_seq) ≡ ltb k (offset isn q)
  is_ahead k d r q a hq ho =
      is_positive-sub32 isn (offset isn q) k q r.next_seq (offset-eq isn q isn32 hq) a.seq_at
        (omega arith) (let w = a.within in omega arith)

  pub drain_loop-Settled :
      (segs : List Segment) (lo k d : ℕ) (r : Reassembler)
      → Assembled stream isn k d r
      → Buffered stream isn lo segs
      → r.ooo_bytes ≡ total segs
      → r.ooo_bytes ≤ max_ooo_bytes
      → Settled stream isn (drained isn k segs) d (drain_loop r segs)
  unfolding drain_loop drained
  drain_loop-Settled [] lo k d r a b c m = record {
    assembled_to = record {
      seq_at = a.seq_at;
      within = a.within;
      behind = a.behind;
      content = a.content;
    };
    ahead = tt;
    counted = c;
    bounded = m;
  }
  drain_loop-Settled (s ∷ rest) lo k d r a b c m =
      let o = offset isn s.seq in
      let inside : o ≤ length stream = let i = b.2.inside in omega arith in
      elim (Bool-cases (ltb k o)) [
        | inl more ↦
            rw (is_ahead k d r s.seq a b.0 inside, more)
              (record {
                assembled_to = record {
                  seq_at = a.seq_at;
                  within = a.within;
                  behind = a.behind;
                  content = a.content;
                };
                ahead = (b.0, ltb→lt _ _ more, b.2, b.3);
                counted = c;
                bounded = m;
              })
        | inr old ↦
            rw (is_ahead k d r s.seq a b.0 inside, old)
              (drain_loop-Settled rest o (reach k (o + length s.bytes)) d (absorb r s)
                (absorb-Assembled k d r s a b.0 (ltb→le _ _ old) b.2) b.3
                (omega (arith, absorb-ooo_bytes r s)) (omega (arith, absorb-ooo_bytes r s)))
      ]
