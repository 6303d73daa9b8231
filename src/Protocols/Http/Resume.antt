-- ===== src/Protocols/Http/Resume.antt =====
-- A chunked body that comes in pieces, src/net/protocols/http.cpp.
use pcap_analyzer.Prelude.{
  ℕ, zero, suc, ◌+◌, ◌-◌, ◌≤◌, ◌<◌, ◌≡◌, ◌⊎◌, refl, sym, ap, ◌∙◌, inl, inr, subst, List, [], ◌++◌,
  length, length-append, drop, drop-append, drop-drop, arith,
}
use pcap_analyzer.Util.ParseError.{ParseError, Result, ok, err}
use pcap_analyzer.Protocols.Http.Header.{Field}
use pcap_analyzer.Protocols.Http.Text.{read_line_crlf}
use pcap_analyzer.Protocols.Http.Fields.{parse_fields}
use pcap_analyzer.Protocols.Http.Body.{
  ChunkRound, refused, last, chunk, chunk_round, Chunked, trailer, chunks_loop, parse_chunked_body,
}
use pcap_analyzer.Protocols.Http.Chunks.{
  chunk-append, chunk-length, chunk-Tail, Tail-length, last-length,
}
use pcap_analyzer.Protocols.Http.Progress.{fields_loop-length}

-- The first n bytes are complete chunks.
pub data Complete : List ℕ → ℕ → Type 0 where
  at_start : {span : List ℕ} → Complete span 0
  one_more :
      {span bytes rest : List ℕ} {n : ℕ}
      → chunk_round (read_line_crlf span) ≡ chunk bytes rest
      → Complete rest n
      → Complete span (length span - length rest + n)

-- What the caller keeps: the error or the rest.
abbrev pub rest_of : Result (List ℕ × List ℕ) → Result (List ℕ)
rest_of (err code) = err code
rest_of (ok (out, rest)) = ok rest

-- Two runs do the same from there on, with the prefixes counted from a and from b.
abbrev Agree : ℕ → ℕ → Chunked → Chunked → Type 0
Agree a b c d =
    (rest_of c.outcome ≡ rest_of d.outcome)
    × ((code : ParseError) → c.outcome ≡ err code → c.complete_prefix + b ≡ d.complete_prefix + a)

ChunkRound-cases :
    (r : ChunkRound)
    → ((code : ParseError) × (r ≡ refused code))
      ⊎ (((rest : List ℕ) × (r ≡ last rest))
          ⊎ ((bytes : List ℕ) × (rest : List ℕ) × (r ≡ chunk bytes rest)))
ChunkRound-cases (refused code) = inl (code, refl)
ChunkRound-cases (last rest) = inr (inl (rest, refl))
ChunkRound-cases (chunk bytes rest) = inr (inr (bytes, rest, refl))

module _ (fuel total : ℕ) (span out : List ℕ) (boundary : ℕ) where
  loop_refused :
      {code : ParseError}
      → chunk_round (read_line_crlf span) ≡ refused code
      → chunks_loop (suc fuel) total span out boundary
        ≡ record { outcome = err code; complete_prefix = boundary }
  unfolding chunks_loop
  loop_refused n = rw (n, chunks_loop) refl

  loop_last :
      {rest : List ℕ}
      → chunk_round (read_line_crlf span) ≡ last rest
      → chunks_loop (suc fuel) total span out boundary ≡ trailer out boundary (parse_fields rest [])
  unfolding chunks_loop
  loop_last n = rw (n, chunks_loop) refl

  loop_chunk :
      {bytes rest : List ℕ}
      → chunk_round (read_line_crlf span) ≡ chunk bytes rest
      → chunks_loop (suc fuel) total span out boundary
        ≡ chunks_loop fuel total rest (out ++ bytes) (total - length rest)
  unfolding chunks_loop
  loop_chunk n = rw (n, chunks_loop) refl

trailer-Agree :
    (a b : ℕ) (x y : List ℕ) (r : Result (List Field × List ℕ))
    → Agree a b (trailer x a r) (trailer y b r)
unfolding trailer
trailer-Agree a b x y (err code) = (refl, λ c e. omega arith)
trailer-Agree a b x y (ok (fields, rest)) = (refl, λ c e. absurd cc)

along-Agree : (a b : ℕ) {c c2 d d2 : Chunked} → c2 ≡ c → d2 ≡ d → Agree a b c d → Agree a b c2 d2
along-Agree a b {c = c} {d2 = d2} e f h =
    subst (λ x. Agree a b x d2) (sym e) (subst (λ x. Agree a b c x) (sym f) h)

-- The rounds do not depend on the fuel, on what was collected, or on where the span began.
loop-Agree :
    (fuel fuel2 total total2 : ℕ) (span x y : List ℕ) (a b : ℕ)
    → length span < fuel
    → length span < fuel2
    → a + length span ≡ total
    → b + length span ≡ total2
    → Agree a b (chunks_loop fuel total span x a) (chunks_loop fuel2 total2 span y b)
loop-Agree zero fuel2 total total2 span x y a b l m p q = absurd (omega arith)
loop-Agree (suc fuel) zero total total2 span x y a b l m p q = absurd (omega arith)
loop-Agree (suc fuel) (suc fuel2) total total2 span x y a b l m p q =
    elim (ChunkRound-cases (chunk_round (read_line_crlf span))) [
      | inl (code, n) ↦
          along-Agree a b (loop_refused fuel total span x a n)
            (loop_refused fuel2 total2 span y b n) (refl, λ c e. omega arith)
      | inr (inl (rest, n)) ↦
          along-Agree a b (loop_last fuel total span x a n) (loop_last fuel2 total2 span y b n)
            (trailer-Agree a b x y (parse_fields rest []))
      | inr (inr (bytes, rest, n)) ↦
          let less = chunk-length span bytes rest n in
          let (same, count) =
            loop-Agree fuel fuel2 total total2 rest (x ++ bytes) (y ++ bytes) (total - length rest)
              (total2 - length rest) (omega arith) (omega arith) (omega arith) (omega arith) in
          along-Agree a b (loop_chunk fuel total span x a n) (loop_chunk fuel2 total2 span y b n)
            (same, λ c e. let h = count c e in omega arith)
    ]

trailer-Complete :
    (span out : List ℕ) (a : ℕ) (r : Result (List Field × List ℕ)) {code : ParseError}
    → (trailer out a r).outcome ≡ err code
    → (n : ℕ) × Complete span n × ((trailer out a r).complete_prefix ≡ a + n)
unfolding trailer
trailer-Complete span out a (err code) e = (0, at_start, omega arith)
trailer-Complete span out a (ok (fields, rest)) e = absurd cc

Stopped : List ℕ → ℕ → Chunked → Type 0
Stopped span a c =
    (code : ParseError)
    → c.outcome ≡ err code
    → (n : ℕ) × Complete span n × (c.complete_prefix ≡ a + n)

-- A run that fails has counted complete chunks.
loop_Stopped :
    (fuel total : ℕ) (span x : List ℕ) (a : ℕ)
    → length span < fuel
    → a + length span ≡ total
    → Stopped span a (chunks_loop fuel total span x a)
unfolding Stopped
loop_Stopped zero total span x a l p = absurd (omega arith)
loop_Stopped (suc fuel) total span x a l p =
    elim (ChunkRound-cases (chunk_round (read_line_crlf span))) [
      | inl (code, n) ↦
          subst (Stopped span a) (sym (loop_refused fuel total span x a n))
            (λ c e. (0, at_start, omega arith))
      | inr (inl (rest, n)) ↦
          subst (Stopped span a) (sym (loop_last fuel total span x a n))
            (λ c e. trailer-Complete span x a (parse_fields rest []) e)
      | inr (inr (bytes, rest, n)) ↦
          let less = chunk-length span bytes rest n in
          let later =
            loop_Stopped fuel total rest (x ++ bytes) (total - length rest) (omega arith)
              (omega arith) in
          subst (Stopped span a) (sym (loop_chunk fuel total span x a n)) (λ c e.
            let (m, chunks, count) = later c e in
            (length span - length rest + m, one_more n chunks, omega arith))
    ]

behind_chunk :
    (span more bytes rest : List ℕ) (m : ℕ)
    → chunk_round (read_line_crlf span) ≡ chunk bytes rest
    → drop m (rest ++ more) ≡ drop (length span - length rest + m) (span ++ more)
behind_chunk span more bytes rest m n =
    let k = length span - length rest in
    let inside : k ≤ length span = omega arith in
    let tail : rest ≡ drop k span = Tail-length span rest (chunk-Tail span bytes rest n) in
    ap (λ r. drop m (r ++ more)) tail
    ∙ ap (drop m) (sym (drop-append k span more inside))
    ∙ drop-drop m k (k + m) (span ++ more) (omega arith)

-- Behind complete chunks, the rounds are those of a run that begins there.
resumed :
    (fuel total n : ℕ) (span more x : List ℕ) (a c : ℕ)
    → Complete span n
    → length (span ++ more) < fuel
    → a + length (span ++ more) ≡ total
    → c ≡ a + n
    → Agree c 0
        (chunks_loop fuel total (span ++ more) x a)
        (parse_chunked_body (drop n (span ++ more)))
unfolding parse_chunked_body
resumed fuel total n span more x a c at_start l p q =
    let (same, count) =
      loop-Agree fuel (length (span ++ more) + 1) total (length (span ++ more)) (span ++ more) x []
        a 0 l (omega arith) p (omega arith) in
    (same, λ code e. let h = count code e in omega arith)
resumed zero total n span more x a c (one_more r chunks) l p q = absurd (omega arith)
resumed (suc fuel) total n span more x a c (one_more {bytes = bytes} {rest = rest} {n = m} r chunks)
      l p q =
    let less = chunk-length span bytes rest r in
    let size = length-append span more in
    let size2 = length-append rest more in
    let later =
      resumed fuel total m rest more (x ++ bytes) (total - length (rest ++ more)) c chunks
        (omega arith) (omega arith) (omega arith) in
    let there =
      subst
        (λ d.
          Agree c 0
            (chunks_loop fuel total (rest ++ more) (x ++ bytes) (total - length (rest ++ more)))
            (parse_chunked_body d))
        (behind_chunk span more bytes rest m r) later in
    along-Agree c 0 (loop_chunk fuel total (span ++ more) x a (chunk-append span more bytes rest r))
      refl there

resume_Agree :
    (span more : List ℕ) (code : ParseError)
    → (parse_chunked_body span).outcome ≡ err code
    → Agree
        (parse_chunked_body span).complete_prefix
        0
        (parse_chunked_body (span ++ more))
        (parse_chunked_body (drop (parse_chunked_body span).complete_prefix (span ++ more)))
unfolding Stopped parse_chunked_body
resume_Agree span more code e =
    let whole = span ++ more in
    let stopped =
      loop_Stopped (length span + 1) (length span) span [] 0 (omega arith) (omega arith) in
    let (n, chunks, count) = stopped code e in
    let same : n ≡ (parse_chunked_body span).complete_prefix = omega arith in
    subst (λ m. Agree m 0 (parse_chunked_body whole) (parse_chunked_body (drop m whole))) same
      (resumed (length whole + 1) (length whole) n span more [] 0 n chunks (omega arith)
        (omega arith) (omega arith))

-- When a chunked body could not be read, because it is not complete or is malformed, and more bytes
-- come behind it, the parser says the same, and leaves the same bytes, when it skips
-- `complete_prefix` bytes as when it starts over at the beginning of the body.
pub parse_chunked_body-resume :
    (span more : List ℕ) (code : ParseError)
    → (parse_chunked_body span).outcome ≡ err code
    → rest_of (parse_chunked_body (span ++ more)).outcome
      ≡ rest_of
          (parse_chunked_body
            (drop (parse_chunked_body span).complete_prefix (span ++ more))).outcome
parse_chunked_body-resume span more code e = (resume_Agree span more code e).0

-- When the bytes that came do not complete the body either, the prefix of the resumed run, added to
-- the first one, is the prefix that a run from the beginning counts.
pub parse_chunked_body-sum :
    (span more : List ℕ) (code again : ParseError)
    → (parse_chunked_body span).outcome ≡ err code
    → (parse_chunked_body (span ++ more)).outcome ≡ err again
    → (parse_chunked_body span).complete_prefix
        + (parse_chunked_body
            (drop (parse_chunked_body span).complete_prefix (span ++ more))).complete_prefix
      ≡ (parse_chunked_body (span ++ more)).complete_prefix
parse_chunked_body-sum span more code again e f =
    let h = (resume_Agree span more code e).1 again f in omega arith

trailer-length :
    (a : ℕ) (x span : List ℕ) (r : Result (List Field × List ℕ)) {out rest : List ℕ}
    → ((fields : List Field) (behind : List ℕ)
        → r ≡ ok (fields, behind)
        → length behind ≤ length span)
    → (trailer x a r).outcome ≡ ok (out, rest)
    → length rest ≤ length span
unfolding trailer
trailer-length a x span (err code) h e = cc
trailer-length a x span (ok (fields, behind)) {rest = rest} h e =
    let same : behind ≡ rest = ground arith in
    subst (λ r. length r ≤ length span) same (h fields behind refl)

-- A run that succeeds leaves no more than it was given.
pub chunks_loop-length :
    (fuel total : ℕ) (span x : List ℕ) (a : ℕ) {out rest : List ℕ}
    → (chunks_loop fuel total span x a).outcome ≡ ok (out, rest)
    → length rest ≤ length span
unfolding chunks_loop parse_fields
chunks_loop-length zero total span x a e = cc
chunks_loop-length (suc fuel) total span x a {out = out} {rest = rest} e =
    elim (ChunkRound-cases (chunk_round (read_line_crlf span))) [
      | inl (code, n) ↦
          let h = sym (ap (λ c. c.outcome) (loop_refused fuel total span x a n)) ∙ e in absurd cc
      | inr (inl (behind, n)) ↦
          let h = sym (ap (λ c. c.outcome) (loop_last fuel total span x a n)) ∙ e in
          let less = last-length span behind n in
          let kept =
            trailer-length a x behind (parse_fields behind []) {out = out} {rest = rest}
              (λ fields later f.
                let l = fields_loop-length (length behind + 1) behind [] f in omega arith)
              h in
          omega arith
      | inr (inr (bytes, behind, n)) ↦
          let h = sym (ap (λ c. c.outcome) (loop_chunk fuel total span x a n)) ∙ e in
          let less = chunk-length span bytes behind n in
          let kept = chunks_loop-length fuel total behind (x ++ bytes) (total - length behind) h in
          omega arith
    ]

pub parse_chunked_body-length :
    (span body rest : List ℕ)
    → (parse_chunked_body span).outcome ≡ ok (body, rest)
    → length rest ≤ length span
unfolding parse_chunked_body
parse_chunked_body-length span body rest e =
    chunks_loop-length (length span + 1) (length span) span [] 0 e
