-- ===== src/Util/Text.antt =====
-- include/net/util/text.h and src/net/util/text.cpp. A character is its code; a string is a list.
-- Numbers proves what parse_uint accepts, Indented how long an indented text is.
use pcap_analyzer.Prelude.{
  ℕ, ◌+◌, ◌-◌, ◌*◌, ◌/◌, ◌%◌, Bool, true, false, not, ◌&&◌, ◌||◌, ◌==◌, ltb, leb, if◌then◌else◌,
  List, [], ◌∷◌, ◌++◌, length, Option, none, some, add64, sub64, mul64,
}
pub mod Numbers
pub mod Indented

-- `std::tolower` in the C locale.
abbrev pub tolower : ℕ → ℕ
tolower c = if leb 65 c && leb c 90 then c + 32 else c

unfoldable pub same_letters : List ℕ → List ℕ → Bool
same_letters [] b = true
same_letters (x ∷ xs) [] = true
same_letters (x ∷ xs) (y ∷ ys) =
    let rest = same_letters xs ys in if not (tolower x == tolower y) then false else rest

unfoldable pub is_equals : List ℕ → List ℕ → Bool
unfolding same_letters
is_equals a b = if not (length a == length b) then false else same_letters a b

-- The loop of `parseUint` from the value so far.
unfoldable pub parse_digits : List ℕ → ℕ → ℕ → Option ℕ
unfolding add64 sub64 mul64
parse_digits [] max value = some value
parse_digits (c ∷ cs) max value =
    let digit = c - 48 in
    let rest = parse_digits cs max (add64 (mul64 value 10) digit) in
    if ltb c 48 || ltb 57 c
    then none
    else if ltb (max / 10) value || ltb (sub64 max digit) (mul64 value 10)
    then none
    else rest

unfoldable pub parse_uint : List ℕ → ℕ → Option ℕ
unfolding parse_digits
parse_uint [] max = none
parse_uint (c ∷ cs) max = parse_digits (c ∷ cs) max 0

-- A hexadecimal digit in lower case, as `%x` prints it.
abbrev hex_digit : ℕ → ℕ
hex_digit d = if ltb d 10 then 48 + d else 87 + d

-- What `jsonEscape` writes for one character.
unfoldable pub escape : ℕ → List ℕ
escape c =
    if c == 34
    then 92 ∷ 34 ∷ []
    else if c == 92
    then 92 ∷ 92 ∷ []
    else if c == 10
    then 92 ∷ 110 ∷ []
    else if c == 13
    then 92 ∷ 114 ∷ []
    else if c == 9
    then 92 ∷ 116 ∷ []
    else if c == 8
    then 92 ∷ 98 ∷ []
    else if c == 12
    then 92 ∷ 102 ∷ []
    else if ltb c 32
    then 92 ∷ 117 ∷ 48 ∷ 48 ∷ hex_digit (c / 16) ∷ hex_digit (c % 16) ∷ []
    else c ∷ []

unfoldable pub json_escape : List ℕ → List ℕ
unfolding escape
json_escape [] = []
json_escape (c ∷ cs) = escape c ++ json_escape cs

-- `indent`: the prefix in front of every line. The source goes from line feed to line feed; here the
-- flag says whether a line begins.
unfoldable pub indent_from : Bool → List ℕ → List ℕ → List ℕ
indent_from begins [] prefix = []
indent_from true (c ∷ cs) prefix = prefix ++ c ∷ indent_from (c == 10) cs prefix
indent_from false (c ∷ cs) prefix = c ∷ indent_from (c == 10) cs prefix

unfoldable pub indent : List ℕ → List ℕ → List ℕ
unfolding indent_from
indent text prefix = indent_from true text prefix
