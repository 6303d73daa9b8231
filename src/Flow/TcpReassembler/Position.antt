-- ===== src/Flow/TcpReassembler/Position.antt =====
-- The place that `lower_bound` finds in the buffered segments, and what `buffer` makes of it.
use pcap_analyzer.Prelude.{
  ℕ, ◌+◌, ◌%◌, ◌≤◌, ◌<◌, ◌≡◌, refl, ap, inl, inr, false, Bool-cases, ltb, ◌==◌, ltb→lt, ltb→le,
  List, [], ◌∷◌, ◌++◌, length, u32_mod, IsU32, sub32, arith,
}
use pcap_analyzer.Flow.TcpReassembler.State.{Segment}
use pcap_analyzer.Flow.TcpReassembler.Ingest.{lower_bound}
use pcap_analyzer.Flow.TcpReassembler.Stream.{
  IsPart, offset, Buffered, total, sub32_after, offset-eq,
}

pub total-append : (xs ys : List Segment) → total (xs ++ ys) ≡ total xs + total ys
total-append [] ys = omega arith
total-append (x ∷ xs) ys = omega (arith, total-append xs ys)

module _ (stream : List ℕ) (isn : ℕ) where
  -- As `Buffered`, but the first segment may start at `o` itself.
  abbrev pub From : ℕ → List Segment → Type 0
  From o [] = Unit {0}
  From o (s ∷ rest) =
      IsU32 s.seq
      × (o ≤ offset isn s.seq)
      × IsPart stream (offset isn s.seq) s.bytes
      × Buffered stream isn (offset isn s.seq) rest

  abbrev pub Below : ℕ → List Segment → Type 0
  Below o [] = Unit {0}
  Below o (s ∷ rest) = (offset isn s.seq < o) × Below o rest

  pub record Split (o : ℕ) (segs before after : List Segment) : Type 0 where
    pub joined : before ++ after ≡ segs
    pub below : Below o before
    pub above : From o after

  module _ (isn32 : IsU32 isn) (short : length stream < 2147483648) where
    lower_bound_test :
        (k o base q seq : ℕ)
        → base ≡ (isn + k) % u32_mod
        → seq ≡ (isn + o) % u32_mod
        → IsU32 q
        → k < offset isn q
        → offset isn q < 2147483648
        → k < o
        → o < 2147483648
        → ltb (sub32 q base) (sub32 seq base) ≡ ltb (offset isn q) o
    lower_bound_test k o base q seq eb es hq hk hl ho hs = ground (
      arith,
      sub32_after isn (offset isn q) k q base (offset-eq isn q isn32 hq) eb hl (omega arith),
      sub32_after isn o k seq base es eb hs (omega arith),
    )

    pub lower_bound-Split :
        (segs : List Segment) (k lo o base seq : ℕ)
        → base ≡ (isn + k) % u32_mod
        → seq ≡ (isn + o) % u32_mod
        → k ≤ lo
        → Buffered stream isn lo segs
        → k < o
        → o < 2147483648
        → Split o segs (lower_bound base seq segs).0 (lower_bound base seq segs).1
    unfolding lower_bound
    lower_bound-Split [] k lo o base seq eb es hl b ho hs = record {
      joined = refl;
      below = tt;
      above = tt;
    }
    lower_bound-Split (s ∷ rest) k lo o base seq eb es hl b ho hs =
        let test =
          lower_bound_test k o base s.seq seq eb es b.0 (omega arith)
            (let i = b.2.inside in omega arith) ho hs in
        elim (Bool-cases (ltb (offset isn s.seq) o)) [
          | inl less ↦
              let ih =
                lower_bound-Split rest k (offset isn s.seq) o base seq eb es (omega arith) b.3 ho
                  hs in
              rw (test, less)
                (record {
                  joined = ap (◌∷◌ s) ih.joined;
                  below = (ltb→lt _ _ less, ih.below);
                  above = ih.above;
                })
          | inr more ↦
              rw (test, more)
                (record { joined = refl; below = tt; above = (b.0, ltb→le _ _ more, b.2, b.3) })
        ]

    pub Buffered-insert :
        (before after rest : List Segment) (lo : ℕ) (s : Segment)
        → Buffered stream isn lo (before ++ after)
        → Below (offset isn s.seq) before
        → lo < offset isn s.seq
        → IsU32 s.seq
        → IsPart stream (offset isn s.seq) s.bytes
        → Buffered stream isn (offset isn s.seq) rest
        → Buffered stream isn lo (before ++ s ∷ rest)
    Buffered-insert [] after rest lo s b u h hs part t = (hs, h, part, t)
    Buffered-insert (x ∷ before) after rest lo s b u h hs part t = (
      b.0,
      b.1,
      b.2,
      Buffered-insert before after rest (offset isn x.seq) s b.3 u.1 u.0 hs part t,
    )

    -- The segments after the place all lie strictly behind the new one, if the first has another number.
    pub From-strict :
        (o seq : ℕ) (s : Segment) (rest : List Segment)
        → seq ≡ (isn + o) % u32_mod
        → o < 2147483648
        → From o (s ∷ rest)
        → (s.seq == seq) ≡ false
        → Buffered stream isn o (s ∷ rest)
    From-strict o seq s rest es hs f ne =
        (f.0, ground (arith, offset-eq isn s.seq isn32 f.0), f.2, f.3)
