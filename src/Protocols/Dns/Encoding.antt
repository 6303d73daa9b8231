-- ===== src/Protocols/Dns/Encoding.antt =====
-- Names without pointers are read back, src/net/protocols/dns.cpp.
use pcap_analyzer.Prelude.{
  ℕ, ◌+◌, ◌≤◌, ◌<◌, ◌≡◌, refl, sym, ap, ◌∙◌, subst, List, [], ◌∷◌, ◌++◌, length, length-append,
  drop-length_append, drop-drop, take-length_append, append_assoc, take, drop, All, arith,
}
use pcap_analyzer.Util.ParseError.{ParseError, Result, ok, err}
use pcap_analyzer.Util.Endian.{byte_at}
use pcap_analyzer.Protocols.Dns.{
  Scan, fails, ends, again, masked, end_name, join, read_label, round, start, parse_name,
}
use pcap_analyzer.Protocols.Dns.Names.{Loop, failed, ended, went_on, parse_name-ends}
use pcap_analyzer.Protocols.Dns.Spelling.{octets_of, spell, joined, joined_behind}

-- A name in a message: each label behind its length, then the root.
abbrev pub encode : List (List ℕ) → List ℕ
encode [] = 0 ∷ []
encode (l ∷ ls) = length l ∷ l ++ encode ls

abbrev pub IsLabel : List ℕ → Type 0
IsLabel l = (1 ≤ length l) × (length l ≤ 63)

-- A loop has one result.
Loop-unique :
    (msg : List ℕ) (s : Scan) (q r : Result (List ℕ × ℕ)) → Loop msg s q → Loop msg s r → q ≡ r
Loop-unique msg s q r (failed {code = a} e) (failed {code = b} f) =
    ap err (fails_inj a b (sym e ∙ f))
  where
    fails_inj : (a b : ParseError) → fails a ≡ fails b → a ≡ b
    fails_inj a b h = cc
Loop-unique msg s q r (failed e) (ended f) = absurd cc
Loop-unique msg s q r (failed e) (went_on f l) = absurd cc
Loop-unique msg s q r (ended e) (failed f) = absurd cc
Loop-unique msg s q r (ended {t = t} e) (ended {t = u} f) =
    let h : ends t ≡ ends u = sym e ∙ f in cc
Loop-unique msg s q r (ended e) (went_on f l) = absurd cc
Loop-unique msg s q r (went_on e l) (failed f) = absurd cc
Loop-unique msg s q r (went_on e l) (ended f) = absurd cc
Loop-unique msg s q r (went_on {t = t} e l) (went_on {t = u} f m) =
    let h : again t ≡ again u = sym e ∙ f in
    let same : u ≡ t = cc in Loop-unique msg t q r l (subst (λ v. Loop msg v r) same m)

byte_behind : (pre : List ℕ) (b : ℕ) (tail : List ℕ) → byte_at (pre ++ b ∷ tail) (length pre) ≡ b
byte_behind [] b tail = refl
byte_behind (c ∷ cs) b tail = byte_behind cs b tail

label_behind :
    (pre : List ℕ) (l tail : List ℕ)
    → take (length l) (drop (length pre + 1) (pre ++ length l ∷ (l ++ tail))) ≡ l
label_behind pre l tail =
    let msg = pre ++ length l ∷ (l ++ tail) in
    let behind : drop (length pre + 1) msg ≡ l ++ tail =
      sym (drop-drop 1 (length pre) (length pre + 1) msg (omega arith))
      ∙ ap (drop 1) (drop-length_append pre (length l ∷ (l ++ tail))) in
    ap (take (length l)) behind ∙ take-length_append l tail

-- The state behind a label.
abbrev after : List ℕ → Scan → Scan
after l s = record s {
  cur = s.cur + 1 + length l;
  octets = s.octets + (length l + 1);
  name = join s.name l;
}

label_round :
    (msg l : List ℕ) (s : Scan)
    → IsLabel l
    → byte_at msg s.cur ≡ length l
    → take (length l) (drop (s.cur + 1) msg) ≡ l
    → s.cur + 1 + length l ≤ length msg
    → s.octets + (length l + 1) ≤ 255
    → round msg s ≡ again (after l s)
unfolding round masked read_label
label_round msg l s (p, q) first text inside octets = rw (first, text) (ground arith)

round_label :
    (pre l tail : List ℕ) (s : Scan)
    → IsLabel l
    → s.cur ≡ length pre
    → s.octets + (length l + 1) ≤ 255
    → round (pre ++ length l ∷ (l ++ tail)) s ≡ again (after l s)
round_label pre l tail s (p, q) c o =
    let msg = pre ++ length l ∷ (l ++ tail) in
    let first : byte_at msg s.cur ≡ length l =
      ap (byte_at msg) c ∙ byte_behind pre (length l) (l ++ tail) in
    let text : take (length l) (drop (s.cur + 1) msg) ≡ l =
      ap (λ n. take (length l) (drop (n + 1) msg)) c ∙ label_behind pre l tail in
    let size = length-append pre (length l ∷ (l ++ tail)) in
    let size2 = length-append l tail in label_round msg l s (p, q) first text (omega arith) o

root_round :
    (msg : List ℕ) (s : Scan)
    → byte_at msg s.cur ≡ 0
    → s.cur < length msg
    → s.jumps ≡ 0
    → round msg s ≡ ends (record s { span = s.cur + 1 })
unfolding round end_name
root_round msg s e l j = rw (e, j) (ground arith)

Loop-encode :
    (ls : List (List ℕ)) (pre rest : List ℕ) (s : Scan) (p : ℕ)
    → All IsLabel ls
    → s.cur ≡ length pre
    → s.jumps ≡ 0
    → s.octets + octets_of ls ≤ 255
    → p ≡ length pre + length (encode ls)
    → Loop (pre ++ (encode ls ++ rest)) s (ok (joined s.name ls, p))
unfolding joined
Loop-encode [] pre rest s p h c j o e =
    let msg = pre ++ (0 ∷ rest) in
    let first = ap (byte_at msg) c ∙ byte_behind pre 0 rest in
    let size = length-append pre (0 ∷ rest) in
    let last : s.cur + 1 ≡ p = omega arith in
    subst (λ q. Loop msg s (ok (s.name, q))) last (ended (root_round msg s first (omega arith) j))
Loop-encode (l ∷ ls) pre rest s p h c j o e =
    let tail = encode ls ++ rest in
    let pre2 = pre ++ (length l ∷ l) in
    let size = length-append pre (length l ∷ l) in
    let size2 = length-append l (encode ls) in
    let regroup : pre ++ (length l ∷ (l ++ tail)) ≡ pre ++ (encode (l ∷ ls) ++ rest) =
      ap (λ x. pre ++ (length l ∷ x)) (sym (append_assoc l (encode ls) rest)) in
    let later =
      Loop-encode ls pre2 rest (after l s) p h.1 (omega arith) j (omega arith) (omega arith) in
    let here =
      subst (λ m. Loop m (after l s) (ok (joined (join s.name l) ls, p)))
        (append_assoc pre (length l ∷ l) tail) later in
    let first : s.octets + (length l + 1) ≤ 255 = omega arith in
    subst (λ m. Loop m s (ok (joined (join s.name l) ls, p))) regroup
      (went_on (round_label pre l tail s h.0 c first) here)

joined_labels : (ls : List (List ℕ)) → All IsLabel ls → joined [] ls ≡ spell ls
unfolding joined join
joined_labels [] h = refl
joined_labels ([] ∷ ls) h = absurd (omega arith)
joined_labels ((c ∷ cs) ∷ []) h = refl
joined_labels ((c ∷ cs) ∷ m ∷ ls) h = joined_behind c cs m ls

-- A name that is written without pointers, from labels of 1 to 63 bytes that take at most 255 octets
-- with their lengths and without the root, is read back wherever it stands in the message, and the
-- parser stands behind it.
pub parse_name-encode :
    (ls : List (List ℕ)) (pre rest : List ℕ)
    → All IsLabel ls
    → octets_of ls ≤ 255
    → parse_name (pre ++ (encode ls ++ rest)) (length pre)
      ≡ ok (spell ls, length pre + length (encode ls))
parse_name-encode ls pre rest h o =
    let msg = pre ++ (encode ls ++ rest) in
    let at = start (length pre) in
    Loop-unique msg at (parse_name msg (length pre))
      (ok (joined [] ls, length pre + length (encode ls))) (parse_name-ends msg (length pre))
      (Loop-encode ls pre rest at _ h refl refl (omega arith) refl)
    ∙ ap (λ n. ok (n, length pre + length (encode ls))) (joined_labels ls h)
