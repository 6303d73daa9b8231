-- ===== src/Util/Text/Numbers.antt =====
-- Decimal numbers and escaped strings, src/net/util/text.cpp.
use pcap_analyzer.Prelude.{
  ℕ, ◌+◌, ◌-◌, ◌*◌, ◌≤◌, ◌≡◌, ◌≢◌, ◌↔◌, refl, sym, ap, ◌∙◌, List, [], ◌∷◌, some, All, IsU64,
  u64_mod, ◌<◌, add64, sub64, mul64, arith,
}
use pcap_analyzer.Util.Text.{parse_digits, parse_uint}

abbrev pub IsDigit : ℕ → Type 0
IsDigit c = (48 ≤ c) × (c ≤ 57)

-- The number that decimal digits write behind a value.
abbrev pub number : List ℕ → ℕ → ℕ
number [] value = value
number (c ∷ cs) value = number cs (value * 10 + (c - 48))

-- A digit is taken up without wrap-around while the number fits into 64 bits.
pub small_product : (value : ℕ) → value * 10 < u64_mod → mul64 value 10 ≡ value * 10
unfolding mul64
small_product value h = omega arith

pub small_step :
    (value digit : ℕ)
    → value * 10 + digit < u64_mod
    → add64 (mul64 value 10) digit ≡ value * 10 + digit
unfolding add64 mul64
small_step value digit h = omega arith

pub number_grows : (cs : List ℕ) (value : ℕ) → value ≤ number cs value
number_grows [] value = omega arith
number_grows (c ∷ cs) value = omega (arith, number_grows cs (value * 10 + (c - 48)))

one_round :
    (c : ℕ) (cs : List ℕ) (max value : ℕ) {n : ℕ}
    → 9 ≤ max
    → IsU64 max
    → value ≤ max
    → parse_digits (c ∷ cs) max value ≡ some n
    → IsDigit c
      × (value * 10 + (c - 48) ≤ max)
      × (parse_digits cs max (value * 10 + (c - 48)) ≡ some n)
unfolding parse_digits sub64
one_round c cs max value l u h e = ground (arith, small_product value, small_step value (c - 48))

parse_digits_sound :
    (cs : List ℕ) (max value : ℕ) {n : ℕ}
    → 9 ≤ max
    → IsU64 max
    → value ≤ max
    → parse_digits cs max value ≡ some n
    → All IsDigit cs × (n ≡ number cs value) × (n ≤ max)
unfolding parse_digits sub64
parse_digits_sound [] max value l u h e = ground arith
parse_digits_sound (c ∷ cs) max value l u h e =
    let (digit, small, later) = one_round c cs max value l u h e in
    let (digits, same, bound) = parse_digits_sound cs max (value * 10 + (c - 48)) l u small later in
    ((digit, digits), same, bound)

parse_digits_complete :
    (cs : List ℕ) (max value : ℕ)
    → 9 ≤ max
    → IsU64 max
    → All IsDigit cs
    → number cs value ≤ max
    → parse_digits cs max value ≡ some (number cs value)
unfolding parse_digits sub64
parse_digits_complete [] max value l u d h = refl
parse_digits_complete (c ∷ cs) max value l u d h = ground (
  arith,
  small_product value,
  small_step value (c - 48),
  parse_digits_complete cs max (value * 10 + (c - 48)) l u,
  number_grows cs (value * 10 + (c - 48)),
)

pub not_empty : (c : ℕ) (cs : List ℕ) → c ∷ cs ≢ []
not_empty c cs = λ p. cc

-- For a maximum of at least 9 that is a 64-bit word: a text is read as a number exactly if it is not
-- empty, has decimal digits only and writes that number, which is at most the maximum. The products
-- and sums of the code wrap around at 2 to the 64; the number is the one without wrap-around.
pub parse_uint_iff :
    (text : List ℕ) (max n : ℕ)
    → 9 ≤ max
    → IsU64 max
    → (parse_uint text max ≡ some n)
      ↔ ((text ≢ []) × All IsDigit text × (n ≡ number text 0) × (n ≤ max))
unfolding parse_uint
parse_uint_iff [] max n l u = ground arith
parse_uint_iff (c ∷ cs) max n l u = (
  λ e.
      let (digits, same, bound) = parse_digits_sound (c ∷ cs) max 0 l u (omega arith) e in
      (not_empty c cs, digits, same, bound),
  λ (p, digits, same, bound).
      parse_digits_complete (c ∷ cs) max 0 l u digits (omega arith) ∙ ap some (sym same),
)
