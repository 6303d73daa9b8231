-- ===== src/Protocols/Dns/Names.antt =====
-- Names of DNS messages, src/net/protocols/dns.cpp.
use pcap_analyzer.Prelude.{
  ℕ, zero, suc, ◌+◌, ◌-◌, ◌*◌, ◌≤◌, ◌<◌, ◌≡◌, ◌⊎◌, refl, ap, inl, subst, List, [], ◌∷◌, length,
  length-append, length-take, take, drop, arith,
}
use pcap_analyzer.Util.ParseError.{ParseError, Result, ok, err}
use pcap_analyzer.Util.Endian.{byte_at}
use pcap_analyzer.Protocols.Dns.{
  Scan, Round, fails, ends, again, end_name, follow, join, read_label, round, name_loop, start,
  name_fuel, parse_name,
}

-- The loop of `parseName` without a bound: what it returns from a state.
pub data Loop (msg : List ℕ) : Scan → Result (List ℕ × ℕ) → Type 0 where
  failed : {s : Scan} {code : ParseError} → round msg s ≡ fails code → Loop msg s (err code)
  ended : {s t : Scan} → round msg s ≡ ends t → Loop msg s (ok (t.name, t.span))
  went_on :
      {s t : Scan} {r : Result (List ℕ × ℕ)} → round msg s ≡ again t → Loop msg t r → Loop msg s r

-- What is left to do at most: the rest of the message, and all of it again for each jump.
abbrev left : List ℕ → Scan → ℕ
left msg s = (10 - s.jumps) * (length msg + 1) + (length msg - s.cur)

one_more : (k m : ℕ) → (k + 1) * m ≡ k * m + m
one_more k m = ground arith

jump_left :
    (j n a b : ℕ) → j + 1 ≤ 10 → (10 - (j + 1)) * (n + 1) + (n - a) < (10 - j) * (n + 1) + (n - b)
jump_left j n a b h =
    let e : 10 - j ≡ 10 - (j + 1) + 1 = omega arith in
    let p = one_more (10 - (j + 1)) (n + 1) in let q = ap (λ k. k * (n + 1)) e in omega arith

follow-left :
    (msg : List ℕ) (s t : Scan)
    → follow msg s ≡ again t
    → (left msg t < left msg s) × (t.jumps ≤ 10)
unfolding follow
follow-left msg s t e = ground (arith, jump_left s.jumps (length msg) t.cur s.cur)

read_label-left :
    (msg : List ℕ) (s t : Scan)
    → s.jumps ≤ 10
    → s.cur < length msg
    → read_label msg s ≡ again t
    → (left msg t < left msg s) × (t.jumps ≤ 10)
unfolding read_label
read_label-left msg s t j l e = ground arith

round-left :
    (msg : List ℕ) (s t : Scan)
    → s.jumps ≤ 10
    → round msg s ≡ again t
    → (left msg t < left msg s) × (t.jumps ≤ 10)
unfolding round end_name
round-left msg s t j e = ground (arith, follow-left msg s t, read_label-left msg s t j)

pick :
    (fuel : ℕ) (msg : List ℕ) (s : Scan) (r : Round)
    → round msg s ≡ r
    → ((t : Scan) → r ≡ again t → Loop msg t (name_loop fuel msg t))
    → Loop msg s (name_loop (suc fuel) msg s)
unfolding name_loop
pick fuel msg s (fails code) e k = rw (e, name_loop) (failed e)
pick fuel msg s (ends t) e k = rw (e, name_loop) (ended e)
pick fuel msg s (again t) e k = rw (e, name_loop) (went_on e (k t refl))

name_loop-Loop :
    (fuel : ℕ) (msg : List ℕ) (s : Scan)
    → left msg s < fuel
    → s.jumps ≤ 10
    → Loop msg s (name_loop fuel msg s)
name_loop-Loop zero msg s l j = absurd (omega arith)
name_loop-Loop (suc fuel) msg s l j = pick fuel msg s (round msg s) refl (λ t e.
    let (less, jumps) = round-left msg s t j e in name_loop-Loop fuel msg t (omega arith) jumps)

-- The loop of `parseName` ends on every message, from every offset: `parse_name` returns what the
-- loop without any bound on its rounds returns.
pub parse_name-ends : (msg : List ℕ) (at : ℕ) → Loop msg (start at) (parse_name msg at)
unfolding parse_name
parse_name-ends msg at = name_loop-Loop (name_fuel msg) msg (start at) (omega arith) (omega arith)

-- What holds in front of every round.
abbrev Sound : List ℕ → ℕ → Scan → Type 0
Sound msg at s =
    (length s.name ≤ s.octets - 1)
    × (s.octets ≤ 255)
    × (((s.jumps ≡ 0) × (at ≤ s.cur)) ⊎ ((1 ≤ s.jumps) × (at < s.span) × (s.span ≤ length msg)))

length-join :
    (name label : List ℕ) (octets : ℕ)
    → length name ≤ octets - 1
    → length (join name label) ≤ octets + length label
unfolding join
length-join [] label octets h = omega arith
length-join (c ∷ cs) label octets h = omega (arith, length-append (c ∷ cs) (46 ∷ label))

follow-Sound :
    (msg : List ℕ) (at : ℕ) (s t : Scan) → Sound msg at s → follow msg s ≡ again t → Sound msg at t
unfolding follow
follow-Sound msg at s t h e = ground arith

read_label-Sound :
    (msg : List ℕ) (at : ℕ) (s t : Scan)
    → Sound msg at s
    → read_label msg s ≡ again t
    → Sound msg at t
unfolding read_label
read_label-Sound msg at s t h e =
    let label = take (byte_at msg s.cur) (drop (s.cur + 1) msg) in
    ground (
      arith,
      length-join s.name label s.octets,
      length-take (byte_at msg s.cur) (drop (s.cur + 1) msg),
    )

round-Sound :
    (msg : List ℕ) (at : ℕ) (s t : Scan) → Sound msg at s → round msg s ≡ again t → Sound msg at t
unfolding round end_name
round-Sound msg at s t h e = ground (arith, follow-Sound msg at s t, read_label-Sound msg at s t)

round_last :
    (msg : List ℕ) (at : ℕ) (s t : Scan)
    → Sound msg at s
    → round msg s ≡ ends t
    → (length t.name ≤ 254) × (at < t.span) × (t.span ≤ length msg)
unfolding round end_name follow read_label
round_last msg at s t h e = ground arith

Within : List ℕ → ℕ → Result (List ℕ × ℕ) → Type 0
Within msg at (err code) = Unit {0}
Within msg at (ok (name, p)) = (length name ≤ 254) × (at < p) × (p ≤ length msg)

Loop-Within :
    (msg : List ℕ) (at : ℕ) (s : Scan) (r : Result (List ℕ × ℕ))
    → Loop msg s r
    → Sound msg at s
    → Within msg at r
unfolding Within
Loop-Within msg at s r (failed e) h = tt
Loop-Within msg at s r (ended {t = t} e) h = round_last msg at s t h e
Loop-Within msg at s r (went_on {t = t} e l) h =
    Loop-Within msg at t r l (round-Sound msg at s t h e)

-- A name that is accepted has at most 254 characters, with its dots, and the name takes at least one
-- byte of the message and none behind the end of it.
pub parse_name-bounds :
    (msg : List ℕ) (at : ℕ) {name : List ℕ} {p : ℕ}
    → parse_name msg at ≡ ok (name, p)
    → (length name ≤ 254) × (at < p) × (p ≤ length msg)
unfolding Within
parse_name-bounds msg at e =
    let start_Sound : Sound msg at (start at) =
      (omega arith, omega arith, inl (refl, omega arith)) in
    subst (Within msg at) e
      (Loop-Within msg at (start at) (parse_name msg at) (parse_name-ends msg at) start_Sound)
