-- ===== src/Flow/TcpReassembler/Delivery.antt =====
-- `buffer` and `ingest` keep the reassembler settled on its stream.
use pcap_analyzer.Prelude.{
  ℕ, ◌+◌, ◌-◌, ◌%◌, ◌≤◌, ◌<◌, ◌≡◌, sym, ap, ◌∙◌, inl, inr, subst, true, false, Bool-cases, ltb, leb,
  ◌==◌, if◌then◌else◌, ltb→lt, ltb→le, lt→ltb, le→ltb, leb→le, ==_iff, ==_ne, List, [], ◌∷◌, ◌++◌,
  length, take, drop, u32_mod, IsU32, sub32, add32, arith,
}
use pcap_analyzer.Flow.TcpReassembler.State.{Segment, Reassembler, max_ooo_bytes}
use pcap_analyzer.Flow.TcpReassembler.Ingest.{
  insert_at, replace_at, buffer_at, buffer, drain, deliver, ingest,
}
use pcap_analyzer.Flow.TcpReassembler.Stream.{
  IsPart, offset, Buffered, total, sub32_after, offset-eq, ==-sub32, is_positive-sub32, drop-extend,
}
use pcap_analyzer.Flow.TcpReassembler.Assembly.{Assembled, Settled, drained, drain_loop-Settled}
use pcap_analyzer.Flow.TcpReassembler.Position.{
  total-append, Split, lower_bound-Split, Buffered-insert, From-strict,
}

-- How far the stream is assembled after `ingest` of a segment at `seq` with `n` bytes.
unfoldable pub ingested : ℕ → ℕ → List Segment → ℕ → ℕ → ℕ
unfolding drained
ingested isn k segs seq n =
    let all = drained isn (offset isn seq + n) segs in
    if offset isn seq == k
    then all
    else if ltb k (offset isn seq)
    then k
    else if ltb k (offset isn seq + n)
    then all
    else k

module _ (stream : List ℕ) (isn : ℕ) (isn32 : IsU32 isn) (short : length stream < 2147483648) where
  insert_at-Settled :
      (k d : ℕ) (r : Reassembler) (seq : ℕ) (span : List ℕ) (before after : List Segment)
      → Settled stream isn k d r
      → IsU32 seq
      → k < offset isn seq
      → IsPart stream (offset isn seq) span
      → Split stream isn (offset isn seq) r.out_of_order before after
      → Buffered stream isn (offset isn seq) after
      → Settled stream isn k d (insert_at r seq span before after)
  unfolding insert_at
  insert_at-Settled k d r seq span before after v hq hk part split tail =
      elim (Bool-cases (leb (r.ooo_bytes + length span) max_ooo_bytes)) [
        | inl fits ↦ rw fits (record {
          assembled_to =
              let a = v.assembled_to in
              record {
                seq_at = a.seq_at;
                within = a.within;
                behind = a.behind;
                content = a.content;
              };
          ahead =
              Buffered-insert stream isn isn32 short before after after k
                (record { seq = seq; bytes = span })
                (subst (Buffered stream isn k) (sym split.joined) v.ahead) split.below hk hq part
                tail;
          counted = omega (
            arith,
            total-append before after,
            total-append before (record { seq = seq; bytes = span } ∷ after),
            v.counted,
            ap total split.joined,
          );
          bounded = leb→le _ _ fits;
        })
        | inr over ↦ rw over v
      ]

  replace_at-Settled :
      (k d : ℕ) (r : Reassembler) (span : List ℕ) (before : List Segment) (s : Segment)
      (rest : List Segment)
      → Settled stream isn k d r
      → IsU32 s.seq
      → k < offset isn s.seq
      → IsPart stream (offset isn s.seq) span
      → Split stream isn (offset isn s.seq) r.out_of_order before (s ∷ rest)
      → Settled stream isn k d (replace_at r span before s rest)
  unfolding replace_at
  replace_at-Settled k d r span before s rest v hq hk part split =
      elim (Bool-cases (ltb (length s.bytes) (length span))) [
        | inl longer ↦
            elim (Bool-cases (leb (r.ooo_bytes + length span - length s.bytes) max_ooo_bytes)) [
              | inl fits ↦
                  rw (longer, fits)
                    (record {
                      assembled_to =
                          let a = v.assembled_to in
                          record {
                            seq_at = a.seq_at;
                            within = a.within;
                            behind = a.behind;
                            content = a.content;
                          };
                      ahead =
                          Buffered-insert stream isn isn32 short before (s ∷ rest) rest k
                            (record s { bytes = span })
                            (subst (Buffered stream isn k) (sym split.joined) v.ahead) split.below
                            hk hq part split.above.3;
                      counted = omega (
                        arith,
                        ltb→lt _ _ longer,
                        total-append before (s ∷ rest),
                        total-append before (record s { bytes = span } ∷ rest),
                        v.counted,
                        ap total split.joined,
                      );
                      bounded = omega (arith, leb→le _ _ fits, ltb→lt _ _ longer);
                    })
              | inr over ↦ rw (longer, over) v
            ]
        | inr shorter ↦ rw shorter v
      ]

  buffer_at-Settled :
      (k d : ℕ) (r : Reassembler) (seq : ℕ) (span : List ℕ) (before after : List Segment)
      → Settled stream isn k d r
      → IsU32 seq
      → k < offset isn seq
      → IsPart stream (offset isn seq) span
      → Split stream isn (offset isn seq) r.out_of_order before after
      → Settled stream isn k d (buffer_at r seq span before after)
  unfolding buffer_at
  buffer_at-Settled k d r seq span before [] v hq hk part split =
      insert_at-Settled k d r seq span before [] v hq hk part split tt
  buffer_at-Settled k d r seq span before (s ∷ rest) v hq hk part split =
      elim (Bool-cases (s.seq == seq)) [
        | inl same ↦
            let e = (==_iff s.seq seq).0 same in
            rw same (
              replace_at-Settled k d r span before s rest v split.above.0 (rw e hk)
                (subst (λ q. IsPart stream (offset isn q) span) (sym e) part)
                (subst (λ q. Split stream isn (offset isn q) r.out_of_order before (s ∷ rest))
                  (sym e) split))
        | inr other ↦ rw other (
            insert_at-Settled k d r seq span before (s ∷ rest) v hq hk part split (
              From-strict stream isn isn32 short (offset isn seq) seq s rest
                (offset-eq isn seq isn32 hq) (let i = part.inside in omega arith) split.above
                other))
      ]

  pub buffer-Settled :
      (k d : ℕ) (r : Reassembler) (seq : ℕ) (span : List ℕ)
      → Settled stream isn k d r
      → IsU32 seq
      → k < offset isn seq
      → IsPart stream (offset isn seq) span
      → Settled stream isn k d (buffer r seq span)
  unfolding buffer
  buffer-Settled k d r seq span v hq hk part = buffer_at-Settled k d r seq span _ _ v hq hk part (
      lower_bound-Split stream isn isn32 short r.out_of_order k k (offset isn seq) r.next_seq seq
        v.assembled_to.seq_at (offset-eq isn seq isn32 hq) (omega arith) v.ahead hk
        (let i = part.inside in omega arith))

  -- The in-order part of a segment is appended, and `next_seq` moves by its size.
  pub append-Assembled :
      (k d c : ℕ) (r : Reassembler) (seq : ℕ) (span : List ℕ) (next : ℕ)
      → Assembled stream isn k d r
      → IsPart stream (offset isn seq) span
      → offset isn seq + c ≡ k
      → k ≤ offset isn seq + length span
      → next ≡ (isn + (offset isn seq + length span)) % u32_mod
      → Assembled stream isn
          (offset isn seq + length span)
          d
          (record r { assembled = r.assembled ++ drop c span; next_seq = next })
  append-Assembled k d c r seq span next a part ho hn e = record {
    seq_at = e;
    within = part.inside;
    behind = let b = a.behind in omega arith;
    content =
        ap (λ ys. ys ++ drop c span) a.content
        ∙ ap (λ j. drop d (take k stream) ++ drop j span) (omega arith)
        ∙ drop-extend stream span d (offset isn seq) k part a.behind a.within (omega arith) hn;
  }

  ingest_now :
      (k d c : ℕ) (r : Reassembler) (seq : ℕ) (span : List ℕ) (next : ℕ)
      → Settled stream isn k d r
      → IsPart stream (offset isn seq) span
      → offset isn seq + c ≡ k
      → k ≤ offset isn seq + length span
      → next ≡ (isn + (offset isn seq + length span)) % u32_mod
      → Settled stream isn
          (drained isn (offset isn seq + length span) r.out_of_order)
          d
          (drain (record r { assembled = r.assembled ++ drop c span; next_seq = next }))
  unfolding drain
  ingest_now k d c r seq span next v part ho hn e =
      drain_loop-Settled stream isn isn32 short r.out_of_order k (offset isn seq + length span) d _
        (append-Assembled k d c r seq span next v.assembled_to part ho hn e) v.ahead v.counted
        v.bounded

  sub32_in_order :
      (o k n next : ℕ)
      → next ≡ (isn + k) % u32_mod
      → o ≡ k
      → add32 next (n % u32_mod) ≡ (isn + (o + n)) % u32_mod
  unfolding add32
  sub32_in_order o k n next e h = omega arith

  sub32_partial :
      (o k n q next : ℕ)
      → q ≡ (isn + o) % u32_mod
      → next ≡ (isn + k) % u32_mod
      → o < k
      → k < 2147483648
      → n < 2147483648
      → k < o + n
      → add32 next (sub32 (n % u32_mod) (sub32 next q)) ≡ (isn + (o + n)) % u32_mod
  unfolding add32 sub32
  sub32_partial o k n q next eq en h hk hn more = omega arith

  -- The three outcomes of `deliver`, told apart by positions: the segment lies ahead, it carries
  -- the assembled part on, or all of it is there already.
  pub deliver_cases {ℓ} :
      (P : ℕ → Reassembler → Type ℓ) (k d : ℕ) (r : Reassembler) (seq : ℕ) (span : List ℕ)
      → Settled stream isn k d r
      → IsU32 seq
      → IsPart stream (offset isn seq) span
      → (k < offset isn seq → P k (buffer r seq span))
      → ((c next : ℕ)
          → offset isn seq + c ≡ k
          → k ≤ offset isn seq + length span
          → next ≡ (isn + (offset isn seq + length span)) % u32_mod
          → P
              (drained isn (offset isn seq + length span) r.out_of_order)
              (drain (record r { assembled = r.assembled ++ drop c span; next_seq = next })))
      → (offset isn seq + length span ≤ k → P k r)
      → P (ingested isn k r.out_of_order seq (length span)) (deliver r seq span)
  unfolding deliver ingested
  deliver_cases P k d r seq span v hq part ahead now done =
      let o = offset isn seq in
      let a = v.assembled_to in
      let es = offset-eq isn seq isn32 hq in
      let ol : o < 2147483648 = let i = part.inside in omega arith in
      let kl : k < 2147483648 = let w = a.within in omega arith in
      let t1 = ==-sub32 isn o k seq r.next_seq es a.seq_at ol kl in
      let t2 = is_positive-sub32 isn o k seq r.next_seq es a.seq_at ol kl in
      let i = part.inside in
      elim (Bool-cases (o == k)) [
        | inl same ↦
            let e = (==_iff o k).0 same in
            rw (t1, same)
              (now 0 _ (omega arith) (omega arith)
                (sub32_in_order o k (length span) r.next_seq a.seq_at e))
        | inr other ↦ elim (Bool-cases (ltb k o)) [
          | inl gap ↦ rw (t1, other, t2, gap) (ahead (ltb→lt _ _ gap))
          | inr old ↦
              let e : sub32 r.next_seq seq ≡ k - offset isn seq =
                sub32_after isn k o r.next_seq seq a.seq_at es kl (ltb→le _ _ old) in
              elim (Bool-cases (ltb k (o + length span))) [
                | inl more ↦
                    let fits : ltb (sub32 r.next_seq seq) (length span % u32_mod) ≡ true =
                      lt→ltb _ _ (omega (arith, ltb→lt _ _ more, ltb→le _ _ old)) in
                    rw (t1, other, t2, old, more, fits)
                      (now (sub32 r.next_seq seq) _ (omega (arith, ltb→le _ _ old))
                        (omega (arith, ltb→lt _ _ more))
                        (sub32_partial o k (length span) seq r.next_seq es a.seq_at
                          (omega (arith, ltb→le _ _ old, ==_ne o k other)) kl (omega arith)
                          (ltb→lt _ _ more)))
                | inr nothing ↦
                    let stale : ltb (sub32 r.next_seq seq) (length span % u32_mod) ≡ false =
                      le→ltb _ _ (omega (arith, ltb→le _ _ nothing, ltb→le _ _ old)) in
                    rw (t1, other, t2, old, nothing, stale) (done (ltb→le _ _ nothing))
              ]
        ]
      ]

  -- With payloads kept, `ingest` is `deliver`.
  pub ingest-deliver :
      (r : Reassembler) (seq : ℕ) (span : List ℕ)
      → r.keep_payload ≡ true
      → ingest r seq span ≡ deliver r seq span
  unfolding ingest
  ingest-deliver r seq span keep = ground (arith, keep)

  pub ingest-Settled :
      (k d : ℕ) (r : Reassembler) (seq : ℕ) (span : List ℕ)
      → Settled stream isn k d r
      → r.keep_payload ≡ true
      → IsU32 seq
      → IsPart stream (offset isn seq) span
      → Settled stream isn (ingested isn k r.out_of_order seq (length span)) d (ingest r seq span)
  ingest-Settled k d r seq span v keep hq part =
      subst (Settled stream isn (ingested isn k r.out_of_order seq (length span)) d)
        (sym (ingest-deliver r seq span keep))
        (deliver_cases (λ k' r'. Settled stream isn k' d r') k d r seq span v hq part
          (λ gap. buffer-Settled k d r seq span v hq gap part)
          (λ c next e h en. ingest_now k d c r seq span next v part e h en) (λ old. v))
