-- ===== src/Util/Text/Indented.antt =====
-- Indented text, src/net/util/text.cpp.
use pcap_analyzer.Prelude.{
  ℕ, ◌+◌, ◌*◌, ◌≡◌, Bool, true, false, ◌==◌, List, [], ◌∷◌, length, length-append, arith,
}
use pcap_analyzer.Util.Text.{indent_from, indent}

-- How many lines begin in a text that is not at its end.
abbrev pub lines_from : Bool → List ℕ → ℕ
lines_from begins [] = 0
lines_from true (c ∷ cs) = 1 + lines_from (c == 10) cs
lines_from false (c ∷ cs) = lines_from (c == 10) cs

one_more_line : (k p : ℕ) → (1 + k) * p ≡ p + k * p
one_more_line k p = ground arith

length-indent_from :
    (begins : Bool) (text prefix : List ℕ)
    → length (indent_from begins text prefix) ≡ length text + lines_from begins text * length prefix
unfolding indent_from
length-indent_from true [] prefix = ground arith
length-indent_from false [] prefix = ground arith
length-indent_from true (c ∷ cs) prefix = omega (
  arith,
  length-append prefix (c ∷ indent_from (c == 10) cs prefix),
  length-indent_from (c == 10) cs prefix,
  one_more_line (lines_from (c == 10) cs) (length prefix),
)
length-indent_from false (c ∷ cs) prefix = omega (arith, length-indent_from (c == 10) cs prefix)

-- The prefix is written once for each line, and nothing else is added.
pub length-indent :
    (text prefix : List ℕ)
    → length (indent text prefix) ≡ length text + lines_from true text * length prefix
unfolding indent
length-indent text prefix = length-indent_from true text prefix
