-- ===== src/Flow/TcpReassembler/Stream.antt =====
-- Sequence numbers and payloads as positions of one byte stream, for the proofs about `ingest`.
use pcap_analyzer.Prelude.{
  ℕ, ◌+◌, ◌-◌, ◌%◌, ◌≤◌, ◌<◌, ◌≡◌, sym, ap, ◌∙◌, List, [], ◌∷◌, ◌++◌, length, take, drop, u32_mod,
  IsU32, sub32, length-take, drop-drop, take-add, drop-take, drop-append, arith, ltb, ltb→lt,
  ltb→le, Bool-cases, ◌==◌, inl, inr,
}
use pcap_analyzer.Flow.TcpReassembler.State.{Segment}
use pcap_analyzer.Flow.TcpReassembler.Ingest.{is_positive}

-- `bytes` are what the stream holds from position `o` on.
pub record IsPart (stream : List ℕ) (o : ℕ) (bytes : List ℕ) : Type 0 where
  pub same : take (length bytes) (drop o stream) ≡ bytes
  pub inside : o + length bytes ≤ length stream

-- The position that a sequence number stands for, when the stream starts at number `isn`.
abbrev pub offset : ℕ → ℕ → ℕ
offset isn seq = sub32 seq isn

-- Segments that start behind position `lo`, in rising order, and hold bytes of the stream.
abbrev pub Buffered : List ℕ → ℕ → ℕ → List Segment → Type 0
Buffered stream isn lo [] = Unit {0}
Buffered stream isn lo (s ∷ rest) =
    IsU32 s.seq
    × (lo < offset isn s.seq)
    × IsPart stream (offset isn s.seq) s.bytes
    × Buffered stream isn (offset isn s.seq) rest

abbrev pub total : List Segment → ℕ
total [] = 0
total (s ∷ rest) = length s.bytes + total rest

pub Buffered-mono :
    (stream : List ℕ) (isn : ℕ) {lo lo' : ℕ} (segs : List Segment)
    → lo' ≤ lo
    → Buffered stream isn lo segs
    → Buffered stream isn lo' segs
Buffered-mono stream isn [] h b = tt
Buffered-mono stream isn (s ∷ rest) h b = (b.0, omega arith, b.2, b.3)

-- A piece that starts at or before position `k` and ends behind it carries the stream on.
pub take-extend :
    (stream : List ℕ) (o k n : ℕ)
    → o ≤ k
    → k ≤ o + n
    → take k stream ++ drop (k - o) (take n (drop o stream)) ≡ take (o + n) stream
take-extend stream o k n h h' =
    ap (λ ys. take k stream ++ ys) (drop-take (k - o) n (drop o stream))
    ∙ ap (λ ys. take k stream ++ take (n - (k - o)) ys) (drop-drop (k - o) o k stream (omega arith))
    ∙ take-add k (n - (k - o)) (o + n) stream (omega arith)

pub drop-extend :
    (stream bytes : List ℕ) (d o k : ℕ)
    → IsPart stream o bytes
    → d ≤ k
    → k ≤ length stream
    → o ≤ k
    → k ≤ o + length bytes
    → drop d (take k stream) ++ drop (k - o) bytes ≡ drop d (take (o + length bytes) stream)
drop-extend stream bytes d o k part hd hk ho hn =
    sym (drop-append d (take k stream) (drop (k - o) bytes) (omega (arith, length-take k stream)))
    ∙ ap (drop d) (
        ap (λ ys. take k stream ++ drop (k - o) ys) (sym part.same)
        ∙ take-extend stream o k (length bytes) ho hn)

-- Numbers that stand for positions below 2 ^ 31 are compared as the positions are.
pub sub32_after :
    (isn o k q next : ℕ)
    → q ≡ (isn + o) % u32_mod
    → next ≡ (isn + k) % u32_mod
    → o < 2147483648
    → k ≤ o
    → sub32 q next ≡ o - k
unfolding sub32
sub32_after isn o k q next e e' h h' = omega arith

pub sub32_before :
    (isn o k q next : ℕ)
    → q ≡ (isn + o) % u32_mod
    → next ≡ (isn + k) % u32_mod
    → k < 2147483648
    → o < k
    → sub32 q next ≡ u32_mod - (k - o)
unfolding sub32
sub32_before isn o k q next e e' h h' = omega arith

-- The tests of `ingest` and `drain`, as tests on positions.
pub is_positive-sub32 :
    (isn o k q next : ℕ)
    → q ≡ (isn + o) % u32_mod
    → next ≡ (isn + k) % u32_mod
    → o < 2147483648
    → k < 2147483648
    → is_positive (sub32 q next) ≡ ltb k o
is_positive-sub32 isn o k q next e e' h h' = elim (Bool-cases (ltb k o)) [
  | inl more ↦ ground (arith, ltb→lt k o more, sub32_after isn o k q next e e' h)
  | inr old ↦ ground (
    arith,
    ltb→le k o old,
    sub32_after isn o k q next e e' h,
    sub32_before isn o k q next e e' h',
  )
]

pub ==-sub32 :
    (isn o k q next : ℕ)
    → q ≡ (isn + o) % u32_mod
    → next ≡ (isn + k) % u32_mod
    → o < 2147483648
    → k < 2147483648
    → (q == next) ≡ (o == k)
==-sub32 isn o k q next e e' h h' = ground arith

pub offset-eq : (isn q : ℕ) → IsU32 isn → IsU32 q → q ≡ (isn + offset isn q) % u32_mod
unfolding sub32
offset-eq isn q h h' = omega arith

pub offset_of :
    (isn o q : ℕ) → IsU32 isn → o < 2147483648 → q ≡ (isn + o) % u32_mod → offset isn q ≡ o
unfolding sub32
offset_of isn o q h h' e = omega arith
