-- ===== src/Flow/TcpReassembler/Holding.antt =====
-- No byte that was taken is lost: each piece is either assembled or still buffered in full.
use pcap_analyzer.Prelude.{
  ℕ, ◌+◌, ◌-◌, ◌%◌, ◌≤◌, ◌≡◌, refl, sym, ◌⊎◌, inl, inr, subst, true, Bool-cases, ltb, leb, ◌==◌,
  ltb→lt, ltb→le, le→leb, ==_iff, List, [], ◌∷◌, ◌++◌, length, u32_mod, sub32, add32, drop, arith,
}
use pcap_analyzer.Flow.TcpReassembler.State.{Segment, Reassembler, max_ooo_bytes}
use pcap_analyzer.Flow.TcpReassembler.Ingest.{
  absorb, drain_loop, lower_bound, insert_at, replace_at, buffer_at, ingest,
}
use pcap_analyzer.Flow.TcpReassembler.Stream.{offset}

-- Some buffered segment starts at position `o` and has at least `n` bytes.
abbrev pub Holds : ℕ → ℕ → ℕ → List Segment → Type 0
Holds isn o n [] = ⊥
Holds isn o n (s ∷ rest) = ((offset isn s.seq ≡ o) × (n ≤ length s.bytes)) ⊎ Holds isn o n rest

-- The piece of `n` bytes at `o` is assembled or buffered.
abbrev pub Kept : ℕ → ℕ → List Segment → ℕ → ℕ → Type 0
Kept isn k segs o n = (o + n ≤ k) ⊎ Holds isn o n segs

Holds-append_right :
    (isn o n : ℕ) (before after : List Segment)
    → Holds isn o n after
    → Holds isn o n (before ++ after)
Holds-append_right isn o n [] after h = h
Holds-append_right isn o n (s ∷ before) after h = inr (Holds-append_right isn o n before after h)

-- What holds of the segments from a place on may be changed under the segments before it.
Holds-append_map :
    (isn o n : ℕ) (before after after' : List Segment)
    → (Holds isn o n after → Holds isn o n after')
    → Holds isn o n (before ++ after)
    → Holds isn o n (before ++ after')
Holds-append_map isn o n [] after after' f h = f h
Holds-append_map isn o n (s ∷ before) after after' f (inl h) = inl h
Holds-append_map isn o n (s ∷ before) after after' f (inr h) =
    inr (Holds-append_map isn o n before after after' f h)

insert_at-Holds :
    (isn o n : ℕ) (r : Reassembler) (seq : ℕ) (span : List ℕ) (before after : List Segment)
    → before ++ after ≡ r.out_of_order
    → Holds isn o n r.out_of_order
    → Holds isn o n (insert_at r seq span before after).out_of_order
unfolding insert_at
insert_at-Holds isn o n r seq span before after e h =
    elim (Bool-cases (leb (r.ooo_bytes + length span) max_ooo_bytes)) [
      | inl fits ↦
          rw fits
            (Holds-append_map isn o n before after _ (λ t. inr t) (subst (Holds isn o n) (sym e) h))
      | inr over ↦ rw over h
    ]

replace_at-Holds :
    (isn o n : ℕ) (r : Reassembler) (span : List ℕ) (before : List Segment) (s : Segment)
    (rest : List Segment)
    → before ++ s ∷ rest ≡ r.out_of_order
    → Holds isn o n r.out_of_order
    → Holds isn o n (replace_at r span before s rest).out_of_order
unfolding replace_at
replace_at-Holds isn o n r span before s rest e h =
    elim (Bool-cases (ltb (length s.bytes) (length span))) [
      | inl longer ↦
          elim (Bool-cases (leb (r.ooo_bytes + length span - length s.bytes) max_ooo_bytes)) [
            | inl fits ↦
                rw (longer, fits)
                  (Holds-append_map isn o n before (s ∷ rest) _ (widen longer)
                    (subst (Holds isn o n) (sym e) h))
            | inr over ↦ rw (longer, over) h
          ]
      | inr shorter ↦ rw shorter h
    ]
  where
    widen :
        ltb (length s.bytes) (length span) ≡ true
        → Holds isn o n (s ∷ rest)
        → Holds isn o n (record s { bytes = span } ∷ rest)
    widen longer (inl t) = inl (t.0, omega (arith, t.1, ltb→lt _ _ longer))
    widen longer (inr t) = inr t

pub buffer_at-Holds :
    (isn o n : ℕ) (r : Reassembler) (seq : ℕ) (span : List ℕ) (before after : List Segment)
    → before ++ after ≡ r.out_of_order
    → Holds isn o n r.out_of_order
    → Holds isn o n (buffer_at r seq span before after).out_of_order
unfolding buffer_at
buffer_at-Holds isn o n r seq span before [] e h = insert_at-Holds isn o n r seq span before [] e h
buffer_at-Holds isn o n r seq span before (s ∷ rest) e h = elim (Bool-cases (s.seq == seq)) [
  | inl same ↦ rw same (replace_at-Holds isn o n r span before s rest e h)
  | inr other ↦ rw other (insert_at-Holds isn o n r seq span before (s ∷ rest) e h)
]

-- The new piece is held when the limit leaves room for it.
insert_at-Holds_new :
    (isn : ℕ) (r : Reassembler) (seq : ℕ) (span : List ℕ) (before after : List Segment)
    → r.ooo_bytes + length span ≤ max_ooo_bytes
    → Holds isn (offset isn seq) (length span) (insert_at r seq span before after).out_of_order
unfolding insert_at
insert_at-Holds_new isn r seq span before after h =
    rw (le→leb (r.ooo_bytes + length span) max_ooo_bytes h)
      (Holds-append_right isn _ _ before _ (inl (refl, omega arith)))

replace_at-Holds_new :
    (isn : ℕ) (r : Reassembler) (span : List ℕ) (before : List Segment) (s : Segment)
    (rest : List Segment)
    → before ++ s ∷ rest ≡ r.out_of_order
    → r.ooo_bytes + length span ≤ max_ooo_bytes
    → Holds isn (offset isn s.seq) (length span) (replace_at r span before s rest).out_of_order
unfolding replace_at
replace_at-Holds_new isn r span before s rest e h =
    elim (Bool-cases (ltb (length s.bytes) (length span))) [
      | inl longer ↦
          rw
            (
              longer,
              le→leb (r.ooo_bytes + length span - length s.bytes) max_ooo_bytes (omega arith),
            )
            (Holds-append_right isn _ _ before _ (inl (refl, omega arith)))
      | inr shorter ↦ rw shorter (
          subst (Holds isn (offset isn s.seq) (length span)) e
            (Holds-append_right isn _ _ before _ (inl (refl, ltb→le _ _ shorter))))
    ]

pub buffer_at-Holds_new :
    (isn : ℕ) (r : Reassembler) (seq : ℕ) (span : List ℕ) (before after : List Segment)
    → before ++ after ≡ r.out_of_order
    → r.ooo_bytes + length span ≤ max_ooo_bytes
    → Holds isn (offset isn seq) (length span) (buffer_at r seq span before after).out_of_order
unfolding buffer_at
buffer_at-Holds_new isn r seq span before [] e h = insert_at-Holds_new isn r seq span before [] h
buffer_at-Holds_new isn r seq span before (s ∷ rest) e h = elim (Bool-cases (s.seq == seq)) [
  | inl same ↦ rw same (
      subst
        (λ q. Holds isn (offset isn q) (length span) (replace_at r span before s rest).out_of_order)
        ((==_iff s.seq seq).0 same) (replace_at-Holds_new isn r span before s rest e h))
  | inr other ↦ rw other (insert_at-Holds_new isn r seq span before (s ∷ rest) h)
]

buffer_at-ooo_bytes :
    (r : Reassembler) (seq : ℕ) (span : List ℕ) (before after : List Segment)
    → (buffer_at r seq span before after).ooo_bytes ≤ r.ooo_bytes + length span
unfolding buffer_at
buffer_at-ooo_bytes r seq span before [] = ground arith
buffer_at-ooo_bytes r seq span before (s ∷ rest) = ground arith

drain_loop-ooo_bytes :
    (segs : List Segment) (r : Reassembler) → (drain_loop r segs).ooo_bytes ≤ r.ooo_bytes
unfolding drain_loop absorb
drain_loop-ooo_bytes [] r = omega arith
drain_loop-ooo_bytes (s ∷ rest) r = ground (arith, drain_loop-ooo_bytes rest (absorb r s))

-- One packet of `n` bytes takes at most `n` bytes of the limit.
pub ingest-ooo_bytes :
    (r : Reassembler) (seq : ℕ) (span : List ℕ)
    → (ingest r seq span).ooo_bytes ≤ r.ooo_bytes + length span
unfolding ingest
ingest-ooo_bytes r seq span = ground (
  arith,
  buffer_at-ooo_bytes r seq span (lower_bound r.next_seq seq r.out_of_order).0
      (lower_bound r.next_seq seq r.out_of_order).1,
  drain_loop-ooo_bytes r.out_of_order (record r {
    assembled = r.assembled ++ span;
    next_seq = add32 r.next_seq (length span % u32_mod);
  }),
  drain_loop-ooo_bytes r.out_of_order (record r {
    assembled = r.assembled ++ drop (sub32 r.next_seq seq) span;
    next_seq = add32 r.next_seq (sub32 (length span % u32_mod) (sub32 r.next_seq seq));
  }),
)
