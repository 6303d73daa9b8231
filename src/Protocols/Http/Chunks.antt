-- ===== src/Protocols/Http/Chunks.antt =====
-- The rounds over the chunks of a body, src/net/protocols/http.cpp.
use pcap_analyzer.Prelude.{
  ℕ, ◌+◌, ◌-◌, ◌≤◌, ◌≡◌, ◌≢◌, ◌⊎◌, refl, sym, ap, ◌∙◌, inl, inr, false, ltb, ◌==◌, Bool-cases, List,
  [], ◌++◌, length, length-append, length-drop, take, drop, drop-append, drop-drop, drop_all, leb,
  Option-cases, arith,
}
use pcap_analyzer.Util.ParseError.{ParseError, Result, ok, err}
use pcap_analyzer.Util.Bytes.{index_of}
use pcap_analyzer.Util.Bytes.Search.{take-append}
use pcap_analyzer.Protocols.Http.Text.{line_at, read_line_crlf, parse_chunk_size}
use pcap_analyzer.Protocols.Http.Body.{last, chunk, chunk_end, chunk_data, chunk_round}
use pcap_analyzer.Protocols.Http.Stable.{read_line_crlf-append, read_line_crlf-length}

Result-cases :
    {A : Type 0} (r : Result A) → ((code : ParseError) × (r ≡ err code)) ⊎ ((a : A) × (r ≡ ok a))
Result-cases (err code) = inl (code, refl)
Result-cases (ok a) = inr (a, refl)

chunk_end-chunk :
    (bytes : List ℕ) (r : Result (List ℕ × List ℕ)) (b rest : List ℕ)
    → chunk_end bytes r ≡ chunk b rest
    → (line : List ℕ) × (r ≡ ok (line, rest))
      × ((x : List ℕ) → chunk_end bytes (ok (line, x)) ≡ chunk b x)
unfolding chunk_end
chunk_end-chunk bytes (err code) b rest e = cc
chunk_end-chunk bytes (ok (line, behind)) b rest e = elim (Bool-cases (length line == 0)) [
  | inl n ↦
      let same : behind ≡ rest = ground (arith, n) in
      let text : bytes ≡ b = ground (arith, n) in
      (line, ap (λ x. ok (line, x)) same, λ x. rw (n, chunk_end) (ap (λ y. chunk y x) text))
  | inr n ↦ absurd (ground (arith, n))
]

-- A chunk of n bytes that was read.
chunk_data-chunk :
    (r : Result ℕ) (rest b behind : List ℕ)
    → chunk_data r rest ≡ chunk b behind
    → (n : ℕ) × (r ≡ ok n)
      × ((n == 0) ≡ false)
      × (n ≤ length rest)
      × (chunk_end (take n rest) (read_line_crlf (drop n rest)) ≡ chunk b behind)
unfolding chunk_data
chunk_data-chunk (err code) rest b behind e = cc
chunk_data-chunk (ok n) rest b behind e = elim (Bool-cases (n == 0)) [
  | inl z ↦ absurd (ground (arith, z))
  | inr z ↦ elim (Bool-cases (ltb (length rest) n)) [
    | inl s ↦ absurd (ground (arith, z, s))
    | inr s ↦ (n, refl, z, ground arith, ground (arith, z, s))
  ]
]

chunk_data-append :
    (n : ℕ) (rest more b behind : List ℕ)
    → (n == 0) ≡ false
    → n ≤ length rest
    → chunk_end (take n rest) (read_line_crlf (drop n rest)) ≡ chunk b behind
    → chunk_data (ok n) (rest ++ more) ≡ chunk b (behind ++ more)
unfolding chunk_data
chunk_data-append n rest more b behind z s e =
    let (line, read, same) =
      chunk_end-chunk (take n rest) (read_line_crlf (drop n rest)) b behind e in
    let long : ltb (length (rest ++ more)) n ≡ false = ground (arith, length-append rest more) in
    rw (z, chunk_data)
      (rw (long) (
        ap (λ t. chunk_end t (read_line_crlf (drop n (rest ++ more)))) (take-append n rest more s)
        ∙ ap (λ t. chunk_end (take n rest) (read_line_crlf t)) (drop-append n rest more s)
        ∙ ap (chunk_end (take n rest)) (read_line_crlf-append (drop n rest) more read)
        ∙ same (behind ++ more)))

-- What a complete chunk is does not depend on the bytes behind it.
pub chunk-append :
    (span more b rest : List ℕ)
    → chunk_round (read_line_crlf span) ≡ chunk b rest
    → chunk_round (read_line_crlf (span ++ more)) ≡ chunk b (rest ++ more)
unfolding chunk_round
chunk-append span more b rest e = elim (Result-cases (read_line_crlf span)) [
  | inl (code, r) ↦ absurd (ground (arith, r))
  | inr ((line, mid), r) ↦
      let here : chunk_data (parse_chunk_size line) mid ≡ chunk b rest =
        sym (ap chunk_round r) ∙ e in
      let (n, size, z, s, ended) = chunk_data-chunk (parse_chunk_size line) mid b rest here in
      ap chunk_round (read_line_crlf-append span more r)
      ∙ ap (λ x. chunk_data x (mid ++ more)) size
      ∙ chunk_data-append n mid more b rest z s ended
]

-- A chunk takes its size line, its bytes and its line end.
pub chunk-length :
    (span b rest : List ℕ)
    → chunk_round (read_line_crlf span) ≡ chunk b rest
    → length rest + 5 ≤ length span
unfolding chunk_round
chunk-length span b rest e = elim (Result-cases (read_line_crlf span)) [
  | inl (code, r) ↦ absurd (ground (arith, r))
  | inr ((line, mid), r) ↦
      let here : chunk_data (parse_chunk_size line) mid ≡ chunk b rest =
        sym (ap chunk_round r) ∙ e in
      let (n, size, z, s, ended) = chunk_data-chunk (parse_chunk_size line) mid b rest here in
      let (term, read, same) =
        chunk_end-chunk (take n mid) (read_line_crlf (drop n mid)) b rest ended in
      let one = read_line_crlf-length span r in
      let two = read_line_crlf-length (drop n mid) read in
      let three = length-drop n mid in ground arith
]

-- What is left is the end of what was given.
abbrev pub Tail : List ℕ → List ℕ → Type 0
Tail span rest = (k : ℕ) × (rest ≡ drop k span)

read_line_crlf-Tail :
    (span : List ℕ) {line rest : List ℕ} → read_line_crlf span ≡ ok (line, rest) → Tail span rest
unfolding read_line_crlf line_at
read_line_crlf-Tail span e = elim (Option-cases (index_of 13 span)) [
  | inl n ↦ absurd (ground (arith, n))
  | inr (r, n) ↦ (r + 2, ground (arith, n))
]

Tail-trans : (a b c : List ℕ) → Tail a b → Tail b c → Tail a c
Tail-trans a b c (k, e) (m, f) = (m + k, f ∙ ap (drop m) e ∙ drop-drop m k (m + k) a refl)

pub Tail-length :
    (span rest : List ℕ) → Tail span rest → rest ≡ drop (length span - length rest) span
Tail-length span rest (k, e) = elim (Bool-cases (leb k (length span))) [
  | inl h ↦
      let size : length rest ≡ length span - k = ap length e ∙ length-drop k span in
      e ∙ ap (λ n. drop n span) (ground arith)
  | inr h ↦
      let empty : rest ≡ [] = e ∙ drop_all k span (ground arith) in
      let size : length rest ≡ 0 = ap length empty in
      empty ∙ sym (drop_all (length span - length rest) span (omega arith))
]

pub chunk-Tail :
    (span b rest : List ℕ) → chunk_round (read_line_crlf span) ≡ chunk b rest → Tail span rest
unfolding chunk_round
chunk-Tail span b rest e = elim (Result-cases (read_line_crlf span)) [
  | inl (code, r) ↦ absurd (ground (arith, r))
  | inr ((line, mid), r) ↦
      let here : chunk_data (parse_chunk_size line) mid ≡ chunk b rest =
        sym (ap chunk_round r) ∙ e in
      let (n, size, z, s, ended) = chunk_data-chunk (parse_chunk_size line) mid b rest here in
      let (term, read, same) =
        chunk_end-chunk (take n mid) (read_line_crlf (drop n mid)) b rest ended in
      let inner : Tail mid (drop n mid) = (n, refl) in
      Tail-trans span mid rest (read_line_crlf-Tail span r)
        (Tail-trans mid (drop n mid) rest inner (read_line_crlf-Tail (drop n mid) read))
]

chunk_end-last :
    (bytes : List ℕ) (r : Result (List ℕ × List ℕ)) (rest : List ℕ) → chunk_end bytes r ≢ last rest
unfolding chunk_end
chunk_end-last bytes (err code) rest = λ e. cc
chunk_end-last bytes (ok (line, behind)) rest = λ e. ground arith

-- The last chunk takes its size line.
pub last-length :
    (span rest : List ℕ)
    → chunk_round (read_line_crlf span) ≡ last rest
    → length rest + 2 ≤ length span
unfolding chunk_round chunk_data
last-length span rest e = elim (Result-cases (read_line_crlf span)) [
  | inl (code, r) ↦ absurd (ground (arith, r))
  | inr ((line, mid), r) ↦
      let here : chunk_data (parse_chunk_size line) mid ≡ last rest = sym (ap chunk_round r) ∙ e in
      let one = read_line_crlf-length span r in
      elim (Result-cases (parse_chunk_size line)) [
        | inl (code, p) ↦ absurd (ground (arith, p, here))
        | inr (n, p) ↦
            ground (arith, p, here, chunk_end-last (take n mid) (read_line_crlf (drop n mid)) rest)
      ]
]
