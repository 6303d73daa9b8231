-- ===== src/Protocols/Addresses/Reading.antt =====
-- What the text forms of addresses stand for, src/net/protocols/ipv4.cpp and ipv6.cpp.
use pcap_analyzer.Prelude.{
  ℕ, ◌+◌, ◌-◌, ◌*◌, ◌/◌, ◌%◌, ◌≤◌, ◌<◌, ◌≡◌, refl, sym, ap, ◌∙◌, inl, inr, ltb, Bool-cases,
  if◌then◌else◌, List, [], ◌∷◌, ◌++◌, append-nil, length, length-append, take, drop, replicate,
  Option, none, some, Option-cases, IsByte, arith,
}
use pcap_analyzer.Protocols.Addresses.{
  end_octet, all_four, v4_loop, v4_from_string, v6_loop, assign, fill, v6_from_string,
}

-- What `printIp` writes for a byte.
abbrev pub decimal : ℕ → List ℕ
decimal n =
    if ltb n 10
    then (48 + n) ∷ []
    else if ltb n 100
    then (48 + n / 10) ∷ (48 + n % 10) ∷ []
    else (48 + n / 100) ∷ (48 + n / 10 % 10) ∷ (48 + n % 10) ∷ []

abbrev pub dotted : ℕ → ℕ → ℕ → ℕ → List ℕ
dotted a b c d = decimal a ++ (46 ∷ (decimal b ++ (46 ∷ (decimal c ++ (46 ∷ decimal d)))))

read_numeral :
    (k : ℕ) (cs out : List ℕ) (value digits next : ℕ)
    → k < 10
    → next ≡ value * 10 + k
    → next ≤ 255
    → digits < 3
    → v4_loop ((48 + k) ∷ cs) out value digits ≡ v4_loop cs out next (digits + 1)
unfolding v4_loop
read_numeral k cs out value digits next l e m d =
    let same : value * 10 + (48 + k - 48) ≡ next = omega arith in rw same (ground arith)

read_octet :
    (n : ℕ) (cs out : List ℕ)
    → n < 256
    → (d : ℕ) × (1 ≤ d) × (v4_loop (decimal n ++ cs) out 0 0 ≡ v4_loop cs out n d)
read_octet n cs out l = elim (Bool-cases (ltb n 10)) [
  | inl e ↦ rw e (
    1,
    omega arith,
    read_numeral n cs out 0 0 n (ground arith) (omega arith) (omega arith) (omega arith),
  )
  | inr e ↦ elim (Bool-cases (ltb n 100)) [
    | inl f ↦
        let small : n < 100 = ground arith in
        rw (e, f)
          (
            2,
            omega arith,
            read_numeral (n / 10) ((48 + n % 10) ∷ cs) out 0 0 (n / 10) (omega arith) (omega arith)
                  (omega arith) (omega arith)
                ∙ read_numeral (n % 10) cs out (n / 10) 1 n (omega arith) (omega arith)
                    (omega arith) (omega arith),
          )
    | inr f ↦
        rw (e, f)
          (
            3,
            omega arith,
            read_numeral (n / 100) ((48 + n / 10 % 10) ∷ (48 + n % 10) ∷ cs) out 0 0 (n / 100)
                  (omega arith) (omega arith) (omega arith) (omega arith)
                ∙ read_numeral (n / 10 % 10) ((48 + n % 10) ∷ cs) out (n / 100) 1 (n / 10)
                    (omega arith) (omega arith) (omega arith) (omega arith)
                ∙ read_numeral (n % 10) cs out (n / 10) 2 n (omega arith) (omega arith)
                    (omega arith) (omega arith),
          )
  ]
]

read_dot :
    (cs out : List ℕ) (n d : ℕ)
    → 1 ≤ d
    → length out ≤ 3
    → v4_loop (46 ∷ cs) out n d ≡ v4_loop cs (out ++ n ∷ []) 0 0
unfolding v4_loop end_octet
read_dot cs out n d l m = ground arith

-- An octet and the dot behind it.
octet_dot :
    (n : ℕ) (cs out : List ℕ)
    → n < 256
    → length out ≤ 3
    → v4_loop (decimal n ++ (46 ∷ cs)) out 0 0 ≡ v4_loop cs (out ++ n ∷ []) 0 0
octet_dot n cs out l m =
    let (d, some_digit, e) = read_octet n (46 ∷ cs) out l in e ∙ read_dot cs out n d some_digit m

last_octet :
    (n : ℕ) (out : List ℕ)
    → n < 256
    → length out ≡ 3
    → v4_loop (decimal n) out 0 0 ≡ some (out ++ n ∷ [])
unfolding v4_loop end_octet all_four
last_octet n out l m =
    let (d, some_digit, e) = read_octet n [] out l in
    let size = length-append out (n ∷ []) in
    ap (λ t. v4_loop t out 0 0) (sym (append-nil (decimal n))) ∙ e ∙ ground arith

-- The dotted form of an IPv4 address, as it is printed, is read back as the four bytes.
pub v4_from_string-dotted :
    (a b c d : ℕ)
    → IsByte a
    → IsByte b
    → IsByte c
    → IsByte d
    → v4_from_string (dotted a b c d) ≡ some (a ∷ b ∷ c ∷ d ∷ [])
unfolding v4_from_string
v4_from_string-dotted a b c d ha hb hc hd =
    octet_dot a (decimal b ++ (46 ∷ (decimal c ++ (46 ∷ decimal d)))) [] ha (omega arith)
    ∙ octet_dot b (decimal c ++ (46 ∷ decimal d)) (a ∷ []) hb (omega arith)
    ∙ octet_dot c (decimal d) (a ∷ b ∷ []) hc (omega arith)
    ∙ last_octet d (a ∷ b ∷ c ∷ []) hd refl

all_four-length : (o : Option (List ℕ)) (ip : List ℕ) → all_four o ≡ some ip → length ip ≡ 4
unfolding all_four
all_four-length none ip e = cc
all_four-length (some out) ip e = ground arith

v4_loop-length :
    (text out : List ℕ) (value digits : ℕ) (ip : List ℕ)
    → v4_loop text out value digits ≡ some ip
    → length ip ≡ 4
unfolding v4_loop
v4_loop-length [] out value digits ip e = all_four-length (end_octet out value digits) ip e
v4_loop-length (c ∷ cs) out value digits ip e = elim (Option-cases (end_octet out value digits)) [
  | inl n ↦ ground (arith, n, v4_loop-length cs out (value * 10 + (c - 48)) (digits + 1) ip)
  | inr (longer, n) ↦ ground (
    arith,
    n,
    v4_loop-length cs out (value * 10 + (c - 48)) (digits + 1) ip,
    v4_loop-length cs longer 0 0 ip,
  )
]

pub v4_from_string-length : (text ip : List ℕ) → v4_from_string text ≡ some ip → length ip ≡ 4
unfolding v4_from_string
v4_from_string-length text ip e = v4_loop-length text [] 0 0 ip e

length-assign : (ns : List ℕ) → length (assign ns) ≡ length ns + length ns
unfolding assign
length-assign [] = omega arith
length-assign (n ∷ ns) = omega (arith, length-assign ns)

fill-length : (o : Option (List ℕ × Option ℕ)) (ip : List ℕ) → fill o ≡ some ip → length ip ≡ 16
unfolding fill
fill-length none ip e = cc
fill-length (some (groups, none)) ip e = ground (arith, length-assign groups)
fill-length (some (groups, some gap)) ip e =
    let slots = take gap groups ++ replicate (8 - length groups) 0 ++ drop gap groups in
    ground (arith, length-assign slots)

pub v6_from_string-length : (text ip : List ℕ) → v6_from_string text ≡ some ip → length ip ≡ 16
unfolding v6_from_string
v6_from_string-length [] ip e = fill-length (some ([], none)) ip e
v6_from_string-length (c ∷ []) ip e = ground (arith, fill-length (v6_loop 1 (c ∷ []) [] none) ip)
v6_from_string-length (c ∷ d ∷ ds) ip e = ground (
  arith,
  fill-length (v6_loop (length ds) ds [] (some 0)) ip,
  fill-length (v6_loop (length ds + 2) (c ∷ d ∷ ds) [] none) ip,
)
