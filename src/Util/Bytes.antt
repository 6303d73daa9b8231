-- ===== src/Util/Bytes.antt =====
-- Strings as lists of their codes, and what the parsers of text use of the standard library:
-- string views and `std::from_chars`. Search proves.
use Prim.Native.Char.{Char, code}
use Prim.Native.String.{String}
use pcap_analyzer.Prelude.{
  ℕ, ◌+◌, ◌-◌, ◌*◌, Bool, true, false, ◌&&◌, ◌==◌, ltb, leb, if◌then◌else◌, List, [], ◌∷◌, length,
  Option, none, some, u64_mod,
}
pub mod Search

abbrev pub codes : String → List ℕ
codes String.[] = []
codes (String.◌∷◌ c s) = code c ∷ codes s

abbrev pub behind : Option ℕ → Option ℕ
behind none = none
behind (some i) = some (i + 1)

-- `view.find(c)`; `npos` is `none`.
unfoldable pub index_of : ℕ → List ℕ → Option ℕ
index_of c [] = none
index_of c (b ∷ bs) = let later = behind (index_of c bs) in if b == c then some 0 else later

unfoldable pub same_text : List ℕ → List ℕ → Bool
same_text [] [] = true
same_text [] (y ∷ ys) = false
same_text (x ∷ xs) [] = false
same_text (x ∷ xs) (y ∷ ys) = let rest = same_text xs ys in if x == y then rest else false

-- `view.starts_with(front)`
unfoldable pub starts_with : List ℕ → List ℕ → Bool
starts_with [] view = true
starts_with (x ∷ front) [] = false
starts_with (x ∷ front) (y ∷ view) =
    let rest = starts_with front view in if x == y then rest else false

-- `std::from_chars` with base 16: the hexadecimal digits at the front are read. It fails without a
-- digit, or if the number has more than 64 bits.
unfoldable pub hex_value : ℕ → Option ℕ
hex_value c =
    if leb b'0' c && leb c b'9'
    then some (c - 48)
    else if leb b'a' c && leb c b'f'
    then some (c - 87)
    else if leb b'A' c && leb c b'F'
    then some (c - 55)
    else none

unfoldable pub hex_digits : List ℕ → List ℕ
unfolding hex_value
hex_digits [] = []
hex_digits (c ∷ cs) =
    let later = hex_digits cs in elim (hex_value c) [ none ↦ [] | some d ↦ d ∷ later ]

abbrev pub hex_number : List ℕ → ℕ → ℕ
hex_number [] value = value
hex_number (d ∷ ds) value = hex_number ds (value * 16 + d)

-- The number, and how many characters were read.
unfoldable pub from_chars_16 : List ℕ → Option (ℕ × ℕ)
unfolding hex_digits
from_chars_16 text =
    let digits = hex_digits text in
    if length digits == 0
    then none
    else if leb u64_mod (hex_number digits 0)
    then none
    else some (hex_number digits 0, length digits)
