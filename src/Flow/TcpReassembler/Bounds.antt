-- ===== src/Flow/TcpReassembler/Bounds.antt =====
-- Memory bounds of a reassembler under packets of any content: nothing is assumed of the peer.
use pcap_analyzer.Prelude.{
  ℕ, ◌+◌, ◌%◌, ◌≤◌, ◌≡◌, refl, ap, inl, inr, Bool, true, Bool-cases, ltb, min, List, [], ◌∷◌, ◌++◌,
  length, length-append, drop, IsU32, u32_mod, sub32, add32, arith,
}
use pcap_analyzer.Protocols.Tcp.{Header, syn, ack}
use pcap_analyzer.Flow.TcpReassembler.State.{Segment, Reassembler, TcpState, init, max_ooo_bytes}
use pcap_analyzer.Flow.TcpReassembler.Ingest.{
  absorb, drain_loop, drain, lower_bound, buffer_at, buffer, ingest,
}
use pcap_analyzer.Flow.TcpReassembler.Handlers.{on_data, seed, sent_in, on_sent, on_received}
use pcap_analyzer.Flow.TcpReassembler.Reading.{available, consume}
use pcap_analyzer.Flow.TcpReassembler.Stream.{total}
use pcap_analyzer.Flow.TcpReassembler.Position.{total-append}
use pcap_analyzer.Flow.TcpReassembler.Control.{compact_cases}

-- The buffered bytes are counted exactly and within the limit, the read position lies inside the
-- assembled bytes, and the next number is a 32-bit word.
pub record IsSound (r : Reassembler) : Type 0 where
  pub counted : r.ooo_bytes ≡ total r.out_of_order
  pub bounded : r.ooo_bytes ≤ max_ooo_bytes
  pub readable : r.read_pos ≤ length r.assembled
  pub word : IsU32 r.next_seq

abbrev Pending : Reassembler → List Segment → Type 0
Pending r segs =
    (r.ooo_bytes ≡ total segs)
    × (r.ooo_bytes ≤ max_ooo_bytes)
    × (r.read_pos ≤ length r.assembled)
    × IsU32 r.next_seq

absorb-Pending :
    (r : Reassembler) (s : Segment) (rest : List Segment)
    → Pending r (s ∷ rest)
    → Pending (absorb r s) rest
unfolding absorb add32
absorb-Pending r s rest h =
    ground (arith, length-append r.assembled (drop (sub32 r.next_seq s.seq) s.bytes))

drain_loop-IsSound :
    (segs : List Segment) (r : Reassembler) → Pending r segs → IsSound (drain_loop r segs)
unfolding drain_loop
drain_loop-IsSound [] r h = ground arith
drain_loop-IsSound (s ∷ rest) r h =
    ground (arith, drain_loop-IsSound rest (absorb r s) (absorb-Pending r s rest h))

pub lower_bound-append :
    (base seq : ℕ) (segs : List Segment)
    → (lower_bound base seq segs).0 ++ (lower_bound base seq segs).1 ≡ segs
unfolding lower_bound
lower_bound-append base seq [] = refl
lower_bound-append base seq (s ∷ rest) =
    elim (Bool-cases (ltb (sub32 s.seq base) (sub32 seq base))) [
      | inl less ↦ rw less (ap (◌∷◌ s) (lower_bound-append base seq rest))
      | inr more ↦ rw more
    ]

buffer_at-IsSound :
    (r : Reassembler) (seq : ℕ) (span : List ℕ) (before after : List Segment)
    → before ++ after ≡ r.out_of_order
    → IsSound r
    → IsSound (buffer_at r seq span before after)
unfolding buffer_at
buffer_at-IsSound r seq span before [] e v = ground (
  arith,
  total-append before [],
  total-append before (record { seq = seq; bytes = span } ∷ []),
  ap total e,
)
buffer_at-IsSound r seq span before (s ∷ rest) e v = ground (
  arith,
  total-append before (s ∷ rest),
  total-append before (record { seq = seq; bytes = span } ∷ s ∷ rest),
  total-append before (record s { bytes = span } ∷ rest),
  ap total e,
)

drain-IsSound :
    (r : Reassembler) (bytes : List ℕ) (next : ℕ)
    → IsSound r
    → IsU32 next
    → IsSound (drain (record r { assembled = r.assembled ++ bytes; next_seq = next }))
unfolding drain
drain-IsSound r bytes next v h =
    let p = v.readable in
    drain_loop-IsSound r.out_of_order _
      (v.counted, v.bounded, omega (arith, length-append r.assembled bytes), h)

buffer-IsSound :
    (r : Reassembler) (seq : ℕ) (span : List ℕ) → IsSound r → IsSound (buffer r seq span)
unfolding buffer
buffer-IsSound r seq span v =
    buffer_at-IsSound r seq span _ _ (lower_bound-append r.next_seq seq r.out_of_order) v

add32-IsU32 : (a b : ℕ) → IsU32 (add32 a b)
unfolding add32
add32-IsU32 a b = omega arith

ingest-IsSound :
    (r : Reassembler) (seq : ℕ) (span : List ℕ) → IsSound r → IsSound (ingest r seq span)
unfolding ingest
ingest-IsSound r seq span v =
    let size = length span % u32_mod in
    let part = sub32 size (sub32 r.next_seq seq) in
    ground (
      arith,
      add32-IsU32 r.next_seq size,
      add32-IsU32 r.next_seq part,
      buffer-IsSound r seq span v,
      drain-IsSound r span (add32 r.next_seq size) v,
      drain-IsSound r (drop (sub32 r.next_seq seq) span) (add32 r.next_seq part) v,
    )

on_data-IsSound :
    (r : Reassembler) (h : Header) (span : List ℕ) → IsSound r → IsSound (on_data r h span)
unfolding on_data
on_data-IsSound r h span v = ground (
  arith,
  ingest-IsSound r h.seq_number span v,
  add32-IsU32 (ingest r h.seq_number span).next_seq 1,
)

-- The state is a field that no bound depends on.
with_state : (r : Reassembler) (st : TcpState) → IsSound r → IsSound (record r { state = st })
with_state r st v = ground arith

sent_in-IsSound :
    (st : TcpState) (r : Reassembler) (h : Header) (span : List ℕ)
    → IsSound r
    → IsSound (sent_in st r h span)
unfolding sent_in
sent_in-IsSound TcpState.syn_sent r h span v =
    ground (arith, on_data-IsSound _ h span (with_state r TcpState.established v))
sent_in-IsSound TcpState.established r h span v = on_data-IsSound r h span v
sent_in-IsSound TcpState.close_wait r h span v = on_data-IsSound r h span v
sent_in-IsSound _ r h span v = v

seeded_at :
    (r : Reassembler) (st : TcpState) (n : ℕ)
    → IsU32 n
    → IsSound r
    → IsSound (record r { next_seq = n; seeded = true; state = st })
seeded_at r st n h v = ground arith

seed-IsSound :
    (r : Reassembler) (h : Header) (span : List ℕ)
    → IsU32 h.seq_number
    → IsSound r
    → IsSound (seed r h span)
unfolding seed
seed-IsSound r h span hq v = elim (Bool-cases (syn h)) [
  | inl opening ↦ rw opening (
      ingest-IsSound _ (add32 h.seq_number 1) span
        (seeded_at r _ (add32 h.seq_number 1) (add32-IsU32 h.seq_number 1) v))
  | inr other ↦ elim (Bool-cases (ack h)) [
    | inl joined ↦ rw (other, joined) (on_data-IsSound _ h span (seeded_at r _ h.seq_number hq v))
    | inr none ↦ rw (other, none) v
  ]
]

-- What is seen of a connection: a packet that this side sends or receives, or bytes that are read.
pub data Step : Reassembler → Reassembler → Type 0 where
  sends :
      (r : Reassembler) (h : Header) (span : List ℕ)
      → IsU32 h.seq_number
      → Step r (on_sent r h span)
  receives : (r : Reassembler) (h : Header) → Step r (on_received r h)
  consumes : (r : Reassembler) (n : ℕ) → Step r (consume r n)

pub data Reach (r : Reassembler) : Reassembler → Type 0 where
  here : Reach r r
  next : {s t : Reassembler} → Reach r s → Step s t → Reach r t

on_sent-IsSound :
    (r : Reassembler) (h : Header) (span : List ℕ)
    → IsU32 h.seq_number
    → IsSound r
    → IsSound (on_sent r h span)
unfolding on_sent
on_sent-IsSound r h span hq v = ground (
  arith,
  with_state r TcpState.closed v,
  seed-IsSound r h span hq v,
  sent_in-IsSound r.state r h span v,
)

consume-IsSound : (r : Reassembler) (n : ℕ) → IsSound r → IsSound (consume r n)
unfolding consume available
consume-IsSound r n v =
    compact_cases IsSound (record r { read_pos = r.read_pos + min n (available r) }) (ground arith)
      (ground arith)

Step-IsSound : {r s : Reassembler} → Step r s → IsSound r → IsSound s
Step-IsSound (sends r h span hq) v = on_sent-IsSound r h span hq v
Step-IsSound (receives r h) v = received r h v
  where
    received : (r : Reassembler) (h : Header) → IsSound r → IsSound (on_received r h)
    received r h v = unfold on_received in ground (arith, v)
Step-IsSound (consumes r n) v = consume-IsSound r n v

-- A new reassembler, whose flow table keeps its payload or not.
abbrev pub fresh : Bool → Reassembler
fresh keep = record init { keep_payload = keep }

-- Whatever packets are seen, in whatever order, and whatever is read: from a new reassembler on,
-- `ooo_bytes` is the exact size of the buffered segments and never passes MAX_OOO_BYTES, so no
-- subtraction from it wraps; the read position stays inside the assembled bytes; and `next_seq` is
-- a 32-bit number.
pub Reach-IsSound : (keep : Bool) {r : Reassembler} → Reach (fresh keep) r → IsSound r
Reach-IsSound keep here = record {
  counted = refl;
  bounded = omega arith;
  readable = omega arith;
  word = omega arith;
}
Reach-IsSound keep (next reached step) = Step-IsSound step (Reach-IsSound keep reached)
