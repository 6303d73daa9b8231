-- ===== src/Flow/FlowKey.antt =====
-- include/net/flow/flow_key.h and src/net/flow/flow_key.cpp: the key of a flow, a connection or an
-- exchange of datagrams. Laws proves how keys are normalized and compared.
use pcap_analyzer.Prelude.{
  ℕ, Bool, true, false, not, ◌&&◌, ◌||◌, ◌==◌, ltb, if◌then◌else◌, List, [], ◌∷◌,
}
pub mod Laws

-- `memcmp(a, b, 16)`, as the sign of what it returns. The arrays have the same length; otherwise the
-- longer one would be the larger.
pub data Sign : Type 0 where
  below same above : Sign

unfoldable pub memcmp : List ℕ → List ℕ → Sign
memcmp [] [] = same
memcmp [] (y ∷ ys) = below
memcmp (x ∷ xs) [] = above
memcmp (x ∷ xs) (y ∷ ys) =
    let rest = memcmp xs ys in if x == y then rest else if ltb x y then below else above

abbrev pub is_same : Sign → Bool
is_same same = true
is_same _ = false

abbrev pub is_above : Sign → Bool
is_above above = true
is_above _ = false

pub record FlowKey : Type 0 where
  pub is_ipv4 : Bool
  pub src_ip : List ℕ
  pub dst_ip : List ℕ
  pub src_port : ℕ
  pub dst_port : ℕ
  pub protocol : ℕ

abbrev pub same_family : Bool → Bool → Bool
same_family true b = b
same_family false b = not b

-- `FlowKey::operator==`
unfoldable pub equals : FlowKey → FlowKey → Bool
unfolding memcmp
equals k o =
    same_family k.is_ipv4 o.is_ipv4
    && is_same (memcmp k.src_ip o.src_ip)
    && is_same (memcmp k.dst_ip o.dst_ip)
    && k.src_port == o.src_port
    && k.dst_port == o.dst_port
    && k.protocol == o.protocol

-- The key of the packets that go the other way.
abbrev pub swap : FlowKey → FlowKey
swap k = record k {
  src_ip = k.dst_ip;
  dst_ip = k.src_ip;
  src_port = k.dst_port;
  dst_port = k.src_port;
}

-- The key after the call, and what the call returns.
unfoldable pub normalize : FlowKey → FlowKey × Bool
unfolding memcmp
normalize k =
    let cmp = memcmp k.src_ip k.dst_ip in
    if is_above cmp || (is_same cmp && ltb k.dst_port k.src_port)
    then (swap k, true)
    else (k, false)

unfoldable pub any_non_zero : List ℕ → Bool
any_non_zero [] = false
any_non_zero (b ∷ bs) = not (b == 0) || any_non_zero bs

unfoldable pub is_non_zero : FlowKey → Bool
unfolding any_non_zero
is_non_zero k =
    not (k.protocol == 0)
    || not (k.src_port == 0)
    || not (k.dst_port == 0)
    || any_non_zero k.src_ip
    || any_non_zero k.dst_ip

-- `filter.matches(pkt)`: a zero in the filter matches everything.
unfoldable pub matches : FlowKey → FlowKey → Bool
unfolding any_non_zero memcmp
matches k pkt =
    if not (k.protocol == 0) && not (k.protocol == pkt.protocol)
    then false
    else if not (k.src_port == 0) && not (k.src_port == pkt.src_port)
    then false
    else if not (k.dst_port == 0) && not (k.dst_port == pkt.dst_port)
    then false
    else if any_non_zero k.src_ip
        && (not (same_family k.is_ipv4 pkt.is_ipv4) || not (is_same (memcmp k.src_ip pkt.src_ip)))
    then false
    else if any_non_zero k.dst_ip
        && (not (same_family k.is_ipv4 pkt.is_ipv4) || not (is_same (memcmp k.dst_ip pkt.dst_ip)))
    then false
    else true
