-- ===== src/Protocols/Http/Text.antt =====
-- Lines, tokens and numbers, src/net/protocols/http.cpp. A character is its code.
use pcap_analyzer.Prelude.{
  ℕ, ◌+◌, ◌-◌, ◌/◌, Bool, true, false, not, ◌&&◌, ◌||◌, ◌==◌, ltb, leb, if◌then◌else◌, List, [],
  ◌∷◌, length, get_or, take, drop, Option, none, some, add64, mul64,
}
use pcap_analyzer.Util.ParseError.{Result, ok, err, fail_if, ◌>>◌, unexpected_eof, malformed_header}
use pcap_analyzer.Util.Bytes.{codes, index_of, from_chars_16}

-- Up to the first carriage return, which a line feed must follow.
unfoldable pub line_at : List ℕ → Option ℕ → Result (List ℕ × List ℕ)
line_at span none = err unexpected_eof
line_at span (some r) = do
  fail_if (leb (length span) (r + 1)) unexpected_eof
  fail_if (not (get_or span (r + 1) 0 == 10)) malformed_header
  ok (take r span, drop (r + 2) span)

unfoldable pub read_line_crlf : List ℕ → Result (List ℕ × List ℕ)
unfolding line_at
read_line_crlf span = line_at span (index_of 13 span)

abbrev pub is_digit : ℕ → Bool
is_digit c = leb b'0' c && leb c b'9'

abbrev pub found : Option ℕ → Bool
found none = false
found (some i) = true

abbrev pub has : ℕ → List ℕ → Bool
has c text = found (index_of c text)

unfoldable pub is_token_char : ℕ → Bool
is_token_char c =
    leb b'a' c && leb c b'z'
    || leb b'A' c && leb c b'Z'
    || is_digit c
    || has c (codes "!#$%&'*+-.^_`|~")

unfoldable pub all_token_chars : List ℕ → Bool
unfolding is_token_char
all_token_chars [] = true
all_token_chars (c ∷ cs) =
    let rest = all_token_chars cs in if not (is_token_char c) then false else rest

unfoldable pub is_token : List ℕ → Bool
unfolding all_token_chars
is_token [] = false
is_token (c ∷ cs) = all_token_chars (c ∷ cs)

-- A space or a tab.
abbrev pub is_ows : ℕ → Bool
is_ows c = c == 32 || c == 9

-- The two loops of `trimOws`.
unfoldable pub trim_front : List ℕ → List ℕ
trim_front [] = []
trim_front (c ∷ cs) = let rest = trim_front cs in if is_ows c then rest else c ∷ cs

abbrev pub keep : ℕ → List ℕ → List ℕ
keep c [] = if is_ows c then [] else c ∷ []
keep c (d ∷ ds) = c ∷ d ∷ ds

unfoldable pub trim_back : List ℕ → List ℕ
trim_back [] = []
trim_back (c ∷ cs) = keep c (trim_back cs)

unfoldable pub trim_ows : List ℕ → List ℕ
unfolding trim_front trim_back
trim_ows s = trim_back (trim_front s)

abbrev pub u64_max : ℕ
u64_max = 18446744073709551615

unfoldable pub decimal_loop : List ℕ → ℕ → Result ℕ
unfolding add64 mul64
decimal_loop [] value = ok value
decimal_loop (c ∷ cs) value =
    let rest = decimal_loop cs (add64 (mul64 value 10) (c - 48)) in
    if not (is_digit c)
    then err malformed_header
    else if ltb ((u64_max - (c - 48)) / 10) value
    then err malformed_header
    else rest

unfoldable pub parse_decimal : List ℕ → Result ℕ
unfolding decimal_loop
parse_decimal [] = err malformed_header
parse_decimal (c ∷ cs) = decimal_loop (c ∷ cs) 0

abbrev pub up_to : List ℕ → Option ℕ → List ℕ
up_to line none = line
up_to line (some ext) = take ext line

abbrev pub exactly : ℕ → Option (ℕ × ℕ) → Result ℕ
exactly n none = err malformed_header
exactly n (some (value, count)) = if count == n then ok value else err malformed_header

unfoldable pub parse_chunk_size : List ℕ → Result ℕ
unfolding trim_back index_of from_chars_16
parse_chunk_size line =
    let digits = trim_back (up_to line (index_of b';' line)) in
    if length digits == 0
    then err malformed_header
    else exactly (length digits) (from_chars_16 digits)
