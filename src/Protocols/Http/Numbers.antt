-- ===== src/Protocols/Http/Numbers.antt =====
-- The numbers of Content-Length fields, src/net/protocols/http.cpp.
use pcap_analyzer.Prelude.{
  ℕ, ◌+◌, ◌-◌, ◌*◌, ◌≤◌, ◌≡◌, ◌≢◌, ◌↔◌, refl, sym, ap, ◌∙◌, List, [], ◌∷◌, All, arith,
}
use pcap_analyzer.Util.ParseError.{ok}
use pcap_analyzer.Util.Text.Numbers.{IsDigit, number, number_grows, not_empty, small_step}
use pcap_analyzer.Protocols.Http.Text.{u64_max, decimal_loop, parse_decimal}

decimal_round :
    (c : ℕ) (cs : List ℕ) (value : ℕ) {n : ℕ}
    → decimal_loop (c ∷ cs) value ≡ ok n
    → IsDigit c
      × (value * 10 + (c - 48) ≤ u64_max)
      × (decimal_loop cs (value * 10 + (c - 48)) ≡ ok n)
unfolding decimal_loop
decimal_round c cs value e = ground (arith, small_step value (c - 48))

decimal_loop_sound :
    (cs : List ℕ) (value : ℕ) {n : ℕ}
    → value ≤ u64_max
    → decimal_loop cs value ≡ ok n
    → All IsDigit cs × (n ≡ number cs value) × (n ≤ u64_max)
unfolding decimal_loop
decimal_loop_sound [] value l e = ground arith
decimal_loop_sound (c ∷ cs) value l e =
    let (first, small, later) = decimal_round c cs value e in
    let (others, same, bound) = decimal_loop_sound cs (value * 10 + (c - 48)) small later in
    ((first, others), same, bound)

decimal_loop_complete :
    (cs : List ℕ) (value : ℕ)
    → All IsDigit cs
    → number cs value ≤ u64_max
    → decimal_loop cs value ≡ ok (number cs value)
unfolding decimal_loop
decimal_loop_complete [] value d h = refl
decimal_loop_complete (c ∷ cs) value d h = ground (
  arith,
  small_step value (c - 48),
  decimal_loop_complete cs (value * 10 + (c - 48)),
  number_grows cs (value * 10 + (c - 48)),
)

-- The value of a Content-Length field is accepted exactly if it is not empty, has decimal digits only
-- and writes a number of 64 bits, which is the result, without wrap-around.
pub parse_decimal_iff :
    (text : List ℕ) (n : ℕ)
    → (parse_decimal text ≡ ok n)
      ↔ ((text ≢ []) × All IsDigit text × (n ≡ number text 0) × (n ≤ u64_max))
unfolding parse_decimal
parse_decimal_iff [] n = ground arith
parse_decimal_iff (c ∷ cs) n = (
  λ e.
      let (digits, same, bound) = decimal_loop_sound (c ∷ cs) 0 (omega arith) e in
      (not_empty c cs, digits, same, bound),
  λ (p, digits, same, bound).
      decimal_loop_complete (c ∷ cs) 0 digits (omega arith) ∙ ap ok (sym same),
)
