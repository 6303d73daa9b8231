-- ===== src/Flow/TcpReassembler/Control.antt =====
-- What `ingest` and `consume` leave alone, and what `consume` does to the bytes at hand.
use pcap_analyzer.Prelude.{
  ℕ, ◌+◌, ◌-◌, ◌%◌, ◌≡◌, refl, sym, ap, ◌∙◌, ltb, min, Bool-cases, inl, inr, List, [], ◌∷◌, ◌++◌,
  length, drop, length-drop, drop-drop, drop_all, arith, add32, sub32, u32_mod, ◌&&◌, ◌/◌,
}
use pcap_analyzer.Flow.TcpReassembler.State.{Segment, Reassembler, min_compact_bytes}
use pcap_analyzer.Flow.TcpReassembler.Ingest.{absorb, drain_loop, drain, buffer_at, buffer, ingest}
use pcap_analyzer.Flow.TcpReassembler.Reading.{available, peek, compact, consume}

-- The two states differ only in the stream: numbers, buffers and their sizes.
pub record SameControl (r s : Reassembler) : Type 0 where
  pub state : s.state ≡ r.state
  pub fin_seen : s.fin_seen ≡ r.fin_seen
  pub fin_seq : s.fin_seq ≡ r.fin_seq
  pub seeded : s.seeded ≡ r.seeded
  pub keep_payload : s.keep_payload ≡ r.keep_payload
  pub read_pos : s.read_pos ≡ r.read_pos

drain_loop-SameControl : (segs : List Segment) (r : Reassembler) → SameControl r (drain_loop r segs)
unfolding drain_loop absorb
drain_loop-SameControl [] r = ground arith
drain_loop-SameControl (s ∷ rest) r = ground (arith, drain_loop-SameControl rest (absorb r s))

buffer_at-SameControl :
    (r : Reassembler) (seq : ℕ) (span : List ℕ) (before after : List Segment)
    → SameControl r (buffer_at r seq span before after)
unfolding buffer_at
buffer_at-SameControl r seq span before [] = ground arith
buffer_at-SameControl r seq span before (s ∷ rest) = ground arith

buffer-SameControl : (r : Reassembler) (seq : ℕ) (span : List ℕ) → SameControl r (buffer r seq span)
unfolding buffer
buffer-SameControl r seq span = buffer_at-SameControl r seq span _ _

drain-SameControl :
    (r : Reassembler) (bytes : List ℕ) (next : ℕ)
    → SameControl r (drain (record r { assembled = bytes; next_seq = next }))
unfolding drain
drain-SameControl r bytes next =
    let h =
      drain_loop-SameControl r.out_of_order (record r { assembled = bytes; next_seq = next }) in
    record {
      state = h.state;
      fin_seen = h.fin_seen;
      fin_seq = h.fin_seq;
      seeded = h.seeded;
      keep_payload = h.keep_payload;
      read_pos = h.read_pos;
    }

pub ingest-SameControl :
    (r : Reassembler) (seq : ℕ) (span : List ℕ) → SameControl r (ingest r seq span)
unfolding ingest
ingest-SameControl r seq span = ground (
  arith,
  buffer-SameControl r seq span,
  drain-SameControl r (r.assembled ++ span) (add32 r.next_seq (length span % u32_mod)),
  drain-SameControl r (r.assembled ++ drop (sub32 r.next_seq seq) span)
      (add32 r.next_seq (sub32 (length span % u32_mod) (sub32 r.next_seq seq))),
)

drop-min : {A : Type 0} (n m : ℕ) (xs : List A) → m ≡ length xs → drop (min n m) xs ≡ drop n xs
drop-min n m xs e = elim (Bool-cases (ltb n m)) [
  | inl h ↦ ap (λ j. drop j xs) (ground arith)
  | inr h ↦
      ap (λ j. drop j xs) (ground arith)
      ∙ drop_all m xs (omega (arith, e))
      ∙ sym (drop_all n xs (ground (arith, h, e)))
]

pub compact_cases {ℓ} :
    (P : Reassembler → Type ℓ) (r : Reassembler)
    → P (record r { assembled = drop r.read_pos r.assembled; read_pos = 0 })
    → P r
    → P (compact r)
unfolding compact
compact_cases P r small kept =
    elim (Bool-cases
      (ltb min_compact_bytes r.read_pos && ltb (length r.assembled / 2) r.read_pos)) [
        | inl e ↦ rw e small
        | inr e ↦ rw e kept
      ]

peek-compact : (r : Reassembler) → peek (compact r) ≡ peek r
unfolding peek
peek-compact r = compact_cases (λ s. peek s ≡ peek r) r refl refl

-- Consuming `n` bytes drops the first `n` readable bytes, and all of them when there are fewer,
-- whether or not the buffer is compacted.
pub peek-consume : (r : Reassembler) (n : ℕ) → peek (consume r n) ≡ drop n (peek r)
unfolding peek consume available
peek-consume r n =
    peek-compact (record r { read_pos = r.read_pos + m })
    ∙ sym (drop-drop m r.read_pos (r.read_pos + m) r.assembled (omega arith))
    ∙ drop-min n (length r.assembled - r.read_pos) (drop r.read_pos r.assembled)
        (sym (length-drop r.read_pos r.assembled))
  where
    m : ℕ
    m = min n (length r.assembled - r.read_pos)
