-- ===== src/Protocols/Dns/Spelling.antt =====
-- What a name of a DNS message stands for, src/net/protocols/dns.cpp.
use pcap_analyzer.Prelude.{
  ℕ, ◌+◌, ◌*◌, ◌%◌, ◌≤◌, ◌<◌, ◌≡◌, refl, ap, ◌∙◌, List, [], ◌∷◌, ◌++◌, length, append_assoc, take,
  drop,
}
use pcap_analyzer.Util.ParseError.{Result, ok, err}
use pcap_analyzer.Util.Endian.{byte_at}
use pcap_analyzer.Protocols.Dns.{Scan, masked, join}

-- The layout of a name in RFC 1035, 4.1.4: at an offset of the message stand labels, up to the root
-- or to a pointer to where the name goes on. The cap on its octets is not part of it.
pub data Name (msg : List ℕ) : ℕ → List (List ℕ) → Type 0 where
  root : {at : ℕ} → at < length msg → byte_at msg at ≡ 0 → Name msg at []
  label :
      {at : ℕ} {l : List ℕ} {ls : List (List ℕ)}
      → 1 ≤ length l
      → masked (length l) ≡ 0
      → at + length l < length msg
      → byte_at msg at ≡ length l
      → take (length l) (drop (at + 1) msg) ≡ l
      → Name msg (at + 1 + length l) ls
      → Name msg at (l ∷ ls)
  pointer :
      {at : ℕ} {ls : List (List ℕ)}
      → masked (byte_at msg at) ≡ 192
      → at + 1 < length msg
      → Name msg (byte_at msg at % 64 * 256 + byte_at msg (at + 1)) ls
      → Name msg at ls

-- The labels with dots between them.
abbrev pub spell : List (List ℕ) → List ℕ
spell [] = []
spell (l ∷ []) = l
spell (l ∷ m ∷ ls) = l ++ 46 ∷ spell (m ∷ ls)

-- The octets of the labels with their lengths, without the root.
abbrev pub octets_of : List (List ℕ) → ℕ
octets_of [] = 0
octets_of (l ∷ ls) = length l + 1 + octets_of ls

-- The labels joined to a name one after the other.
unfoldable pub joined : List ℕ → List (List ℕ) → List ℕ
joined name [] = name
joined name (l ∷ ls) = joined (join name l) ls

-- One round that goes on read a label or followed a pointer.
abbrev Read : List ℕ → Scan → Scan → Type 0
Read msg s t =
    let l = take (byte_at msg s.cur) (drop (s.cur + 1) msg) in
    (1 ≤ length l)
    × (masked (length l) ≡ 0)
    × (s.cur + length l < length msg)
    × (byte_at msg s.cur ≡ length l)
    × (t.cur ≡ s.cur + 1 + length l)
    × (t.name ≡ join s.name l)
    × (t.octets ≡ s.octets + (length l + 1))
    × (t.octets ≤ 255)

abbrev Followed : List ℕ → Scan → Scan → Type 0
Followed msg s t =
    (masked (byte_at msg s.cur) ≡ 192)
    × (s.cur + 1 < length msg)
    × (t.cur ≡ byte_at msg s.cur % 64 * 256 + byte_at msg (s.cur + 1))
    × (t.name ≡ s.name)
    × (t.octets ≡ s.octets)

-- The labels from here on, and that they keep to the cap along with those before.
Means : List ℕ → Scan → Result (List ℕ × ℕ) → Type 0
Means msg s (err code) = Unit {0}
Means msg s (ok (name, p)) =
    (labels : List (List ℕ)) × Name msg s.cur labels
    × (name ≡ joined s.name labels)
    × (s.octets + octets_of labels ≤ 255)

-- Labels of at least one byte spell what they are joined to.
pub joined_behind :
    (c : ℕ) (cs : List ℕ) (l : List ℕ) (ls : List (List ℕ))
    → joined (c ∷ cs) (l ∷ ls) ≡ (c ∷ cs) ++ 46 ∷ spell (l ∷ ls)
unfolding joined join
joined_behind c cs l [] = refl
joined_behind c cs l (m ∷ ls) =
    joined_behind c (cs ++ 46 ∷ l) m ls
    ∙ ap (◌∷◌ c) (append_assoc cs (46 ∷ l) (46 ∷ spell (m ∷ ls)))
