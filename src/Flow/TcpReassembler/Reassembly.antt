-- ===== src/Flow/TcpReassembler/Reassembly.antt =====
-- A reassembler of an established connection against the byte stream that its side sends: packets
-- arrive in any order, with repeats and overlaps, while the application reads.
use pcap_analyzer.Prelude.{
  ℕ, ◌+◌, ◌-◌, ◌≤◌, ◌<◌, ◌≡◌, refl, ap, ◌∙◌, subst, true, false, min, List, [], ◌∷◌, ◌++◌, length,
  take, take-take, drop-take, take-add, length-take, length-drop, drop, drop-drop, IsU32, arith,
}
use pcap_analyzer.Protocols.Tcp.{Header, rst, fin}
use pcap_analyzer.Flow.TcpReassembler.State.{established, Segment, Reassembler}
use pcap_analyzer.Flow.TcpReassembler.Ingest.{ingest}
use pcap_analyzer.Flow.TcpReassembler.Handlers.{on_sent, on_data}
use pcap_analyzer.Flow.TcpReassembler.Reading.{peek, consume, available}
use pcap_analyzer.Flow.TcpReassembler.Stream.{IsPart, offset}
use pcap_analyzer.Flow.TcpReassembler.Assembly.{Settled, drained_le}
use pcap_analyzer.Flow.TcpReassembler.Delivery.{ingested, ingest-Settled}
use pcap_analyzer.Flow.TcpReassembler.Control.{ingest-SameControl, compact_cases}

-- The connection is established, the stream is assembled up to `k`, and the application has read
-- its first `p` bytes.
pub record Live (stream : List ℕ) (isn k p d : ℕ) (r : Reassembler) : Type 0 where
  pub settled : Settled stream isn k d r
  pub position : d + r.read_pos ≡ p
  pub readable : p ≤ k
  pub is_established : r.state ≡ established
  pub is_seeded : r.seeded ≡ true
  pub keeps : r.keep_payload ≡ true
  pub no_fin : r.fin_seen ≡ false

-- What the environment does: a packet is seen, or the application reads up to `n` bytes.
pub data Event : Type 0 where
  packet : Header → List ℕ → Event
  reads : ℕ → Event

-- A data packet of the stream: it carries the bytes at the position of its number.
abbrev pub IsData : List ℕ → ℕ → Event → Type 0
IsData stream isn (packet h span) =
    IsU32 h.seq_number
    × (rst h ≡ false)
    × (fin h ≡ false)
    × IsPart stream (offset isn h.seq_number) span
IsData stream isn (reads n) = Unit {0}

-- The state after the events, and all that was read.
unfoldable pub run : Reassembler → List Event → Reassembler × List ℕ
run r [] = (r, [])
run r (packet h span ∷ es) = run (on_sent r h span) es
run r (reads n ∷ es) = let (last, out) = run (consume r n) es in (last, take n (peek r) ++ out)

pub on_sent-ingest :
    (r : Reassembler) (h : Header) (span : List ℕ)
    → r.state ≡ established
    → r.seeded ≡ true
    → r.fin_seen ≡ false
    → rst h ≡ false
    → fin h ≡ false
    → on_sent r h span ≡ ingest r h.seq_number span
unfolding on_sent on_data
on_sent-ingest r h span st sd nf hr hf = ground (arith, ingest-SameControl r h.seq_number span)

module _ (stream : List ℕ) (isn : ℕ) (isn32 : IsU32 isn) (short : length stream < 2147483648) where
  pub ingested_le : (k : ℕ) (segs : List Segment) (seq n : ℕ) → k ≤ ingested isn k segs seq n
  unfolding ingested
  ingested_le k segs seq n = ground (arith, drained_le isn segs (offset isn seq + n))

  pub packet-Live :
      (k p d : ℕ) (r : Reassembler) (h : Header) (span : List ℕ)
      → Live stream isn k p d r
      → IsData stream isn (packet h span)
      → Live stream isn
          (ingested isn k r.out_of_order h.seq_number (length span))
          p
          d
          (on_sent r h span)
  packet-Live k p d r h span v (hq, hr, hf, part) =
      let c = ingest-SameControl r h.seq_number span in
      rw (on_sent-ingest r h span v.is_established v.is_seeded v.no_fin hr hf) (record {
        settled =
            ingest-Settled stream isn isn32 short k d r h.seq_number span v.settled v.keeps hq part;
        position = ap (λ j. d + j) c.read_pos ∙ v.position;
        readable =
            let l = ingested_le k r.out_of_order h.seq_number (length span) in
            let q = v.readable in omega arith;
        is_established = c.state ∙ v.is_established;
        is_seeded = c.seeded ∙ v.is_seeded;
        keeps = c.keep_payload ∙ v.keeps;
        no_fin = c.fin_seen ∙ v.no_fin;
      })

  pub peek-Live :
      (k p d : ℕ) (r : Reassembler) → Live stream isn k p d r → peek r ≡ drop p (take k stream)
  unfolding peek
  peek-Live k p d r v =
      ap (drop r.read_pos) v.settled.assembled_to.content
      ∙ drop-drop r.read_pos d p (take k stream) (let q = v.position in omega arith)

  length-assembled :
      (k p d : ℕ) (r : Reassembler) → Live stream isn k p d r → length r.assembled ≡ k - d
  length-assembled k p d r v =
      let a = v.settled.assembled_to in
      let w = a.within in
      omega (arith, ap length a.content, length-drop d (take k stream), length-take k stream)

  -- Moving the read position, and then perhaps dropping what was read.
  moved-Live :
      (k p d m : ℕ) (r : Reassembler)
      → Live stream isn k p d r
      → p + m ≤ k
      → Live stream isn k (p + m) d (record r { read_pos = r.read_pos + m })
  moved-Live k p d m r v h =
      let s = v.settled in
      let a = s.assembled_to in
      record {
        settled = record {
          assembled_to = record {
            seq_at = a.seq_at;
            within = a.within;
            behind = a.behind;
            content = a.content;
          };
          ahead = s.ahead;
          counted = s.counted;
          bounded = s.bounded;
        };
        position = let q = v.position in omega arith;
        readable = h;
        is_established = v.is_established;
        is_seeded = v.is_seeded;
        keeps = v.keeps;
        no_fin = v.no_fin;
      }

  compacted-Live :
      (k p d : ℕ) (r : Reassembler)
      → Live stream isn k p d r
      → Live stream isn k p
          (d + r.read_pos)
          (record r { assembled = drop r.read_pos r.assembled; read_pos = 0 })
  compacted-Live k p d r v =
      let s = v.settled in
      let a = s.assembled_to in
      record {
        settled = record {
          assembled_to = record {
            seq_at = a.seq_at;
            within = a.within;
            behind = let q = v.position in let h = v.readable in omega arith;
            content =
                ap (drop r.read_pos) a.content
                ∙ drop-drop r.read_pos d (d + r.read_pos) (take k stream) (omega arith);
          };
          ahead = s.ahead;
          counted = s.counted;
          bounded = s.bounded;
        };
        position = let q = v.position in omega arith;
        readable = v.readable;
        is_established = v.is_established;
        is_seeded = v.is_seeded;
        keeps = v.keeps;
        no_fin = v.no_fin;
      }

  pub consume-Live :
      (k p d n : ℕ) (r : Reassembler)
      → Live stream isn k p d r
      → (d' : ℕ) × Live stream isn k (p + min n (k - p)) d' (consume r n)
  unfolding consume available
  consume-Live k p d n r v =
      subst (λ m. (d' : ℕ) × Live stream isn k (p + m) d' (consume r n)) same
        (compact_cases (λ s. (d' : ℕ) × Live stream isn k (p + m) d' s) _
          (_, compacted-Live k (p + m) d _ moved) (d, moved))
    where
      m : ℕ
      m = min n (length r.assembled - r.read_pos)

      same : m ≡ min n (k - p)
      same = let q = v.position in omega (arith, length-assembled k p d r v)

      moved : Live stream isn k (p + m) d (record r { read_pos = r.read_pos + m })
      moved =
          moved-Live k p d m r v
            (let q = v.position in let h = v.readable in omega (arith, length-assembled k p d r v))

  -- What is read next continues what was read before.
  pub read_on :
      (k p n : ℕ)
      → p ≤ k
      → take p stream ++ take n (drop p (take k stream)) ≡ take (p + min n (k - p)) stream
  read_on k p n h =
      ap (λ ys. take p stream ++ take n ys) (drop-take p k stream)
      ∙ ap (λ ys. take p stream ++ ys) (take-take n (k - p) (drop p stream))
      ∙ take-add p (min n (k - p)) (p + min n (k - p)) stream refl
