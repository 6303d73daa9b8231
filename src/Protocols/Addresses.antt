-- ===== src/Protocols/Addresses.antt =====
-- The text forms of addresses and protocols: `addressFromString` of src/net/protocols/ipv4.cpp and
-- ipv6.cpp, `protocolFromName` of include/net/protocols/ip.h. Reading and Groups prove.
use pcap_analyzer.Prelude.{
  ℕ, zero, suc, ◌+◌, ◌-◌, ◌*◌, ◌/◌, ◌%◌, Bool, true, false, not, ◌&&◌, ◌||◌, ◌==◌, ltb, leb,
  if◌then◌else◌, List, [], ◌∷◌, ◌++◌, length, take, drop, replicate, Option, none, some,
}
use pcap_analyzer.Util.Bytes.{codes, hex_value}
use pcap_analyzer.Util.Text.{is_equals, parse_uint}
use pcap_analyzer.Decode.Packet.{protocol_tcp, protocol_udp, protocol_icmp, protocol_icmpv6}
pub mod Reading
pub mod Groups

-- The end of an octet, at a dot or at the end of the text.
unfoldable pub end_octet : List ℕ → ℕ → ℕ → Option (List ℕ)
end_octet out value digits =
    if digits == 0 || ltb 3 (length out) then none else some (out ++ value ∷ [])

unfoldable pub all_four : Option (List ℕ) → Option (List ℕ)
all_four none = none
all_four (some out) = if length out == 4 then some out else none

-- The loop of the IPv4 form.
unfoldable pub v4_loop : List ℕ → List ℕ → ℕ → ℕ → Option (List ℕ)
unfolding end_octet all_four
v4_loop [] out value digits = all_four (end_octet out value digits)
v4_loop (c ∷ cs) out value digits =
    let next : ℕ = value * 10 + (c - 48) in
    let later = v4_loop cs out next (digits + 1) in
    let behind = elim (end_octet out value digits) as (λ o. Option (List ℕ)) [
      | none ↦ none
      | some longer ↦ v4_loop cs longer 0 0
    ] in
    if leb b'0' c && leb c b'9'
    then if ltb 255 next || ltb 3 (digits + 1) then none else later
    else if c == b'.'
    then behind
    else none

unfoldable pub v4_from_string : List ℕ → Option (List ℕ)
unfolding v4_loop
v4_from_string text = v4_loop text [] 0 0

-- The hexadecimal digits of a group: its value, how many there are, and the rest.
unfoldable pub group_loop : List ℕ → ℕ → ℕ → Option (ℕ × ℕ × List ℕ)
unfolding hex_value
group_loop [] value digits = some (value, digits, [])
group_loop (c ∷ cs) value digits = elim (hex_value c) [
  | none ↦ some (value, digits, c ∷ cs)
  | some d ↦ if ltb 4 (digits + 1) then none else group_loop cs (value * 16 + d) (digits + 1)
]

-- What a round over a group does: refuse, end, or go on. The gap is where `::` stands.
pub data GroupRound : Type 0 where
  refused : GroupRound
  finished : List ℕ → Option ℕ → GroupRound
  go_on : List ℕ → List ℕ → Option ℕ → GroupRound

-- Behind the first colon.
unfoldable pub after_colon : List ℕ → List ℕ → Option ℕ → GroupRound
after_colon [] groups gap = refused
after_colon (c ∷ []) groups none =
    if c == b':' then finished groups (some (length groups)) else go_on (c ∷ []) groups none
after_colon (c ∷ d ∷ ds) groups none =
    if c == b':'
    then go_on (d ∷ ds) groups (some (length groups))
    else go_on (c ∷ d ∷ ds) groups none
after_colon (c ∷ cs) groups (some gap) =
    if c == b':' then refused else go_on (c ∷ cs) groups (some gap)

unfoldable pub after_group : List ℕ → List ℕ → Option ℕ → GroupRound
unfolding after_colon
after_group [] groups gap = finished groups gap
after_group (c ∷ cs) groups gap = if c == b':' then after_colon cs groups gap else refused

unfoldable pub group_round : Option (ℕ × ℕ × List ℕ) → List ℕ → Option ℕ → GroupRound
unfolding after_group
group_round none groups gap = refused
group_round (some (value, digits, rest)) groups gap =
    if digits == 0 || leb 8 (length groups)
    then refused
    else after_group rest (groups ++ value % 65536 ∷ []) gap

unfoldable pub v6_loop : ℕ → List ℕ → List ℕ → Option ℕ → Option (List ℕ × Option ℕ)
unfolding group_round group_loop
v6_loop zero text groups gap = some (groups, gap)
v6_loop (suc fuel) [] groups gap = some (groups, gap)
v6_loop (suc fuel) (c ∷ cs) groups gap = elim (group_round (group_loop (c ∷ cs) 0 0) groups gap) [
  | refused ↦ none
  | finished all last ↦ some (all, last)
  | go_on text all last ↦ v6_loop fuel text all last
]

-- The two bytes of each group.
unfoldable pub assign : List ℕ → List ℕ
assign [] = []
assign (n ∷ ns) = n / 256 % 256 ∷ n % 256 ∷ assign ns

unfoldable pub fill : Option (List ℕ × Option ℕ) → Option (List ℕ)
unfolding assign
fill none = none
fill (some (groups, none)) = if length groups == 8 then some (assign groups) else none
fill (some (groups, some gap)) =
    let slots = take gap groups ++ replicate (8 - length groups) 0 ++ drop gap groups in
    if leb 8 (length groups) then none else if length slots == 8 then some (assign slots) else none

-- Each group takes one byte of the text at least.
unfoldable pub v6_from_string : List ℕ → Option (List ℕ)
unfolding v6_loop fill
v6_from_string [] = fill (some ([], none))
v6_from_string (c ∷ []) = if c == b':' then none else fill (v6_loop 1 (c ∷ []) [] none)
v6_from_string (c ∷ d ∷ ds) =
    if c == b':'
    then if d == b':' then fill (v6_loop (length ds) ds [] (some 0)) else none
    else fill (v6_loop (length ds + 2) (c ∷ d ∷ ds) [] none)

unfoldable pub protocol_from_name : List ℕ → Option ℕ
unfolding is_equals parse_uint
protocol_from_name name =
    if is_equals name (codes "tcp")
    then some protocol_tcp
    else if is_equals name (codes "udp")
    then some protocol_udp
    else if is_equals name (codes "icmp")
    then some protocol_icmp
    else if is_equals name (codes "icmpv6")
    then some protocol_icmpv6
    else parse_uint name 255
