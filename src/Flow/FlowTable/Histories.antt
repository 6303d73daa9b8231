-- ===== src/Flow/FlowTable/Histories.antt =====
-- Histories of a flow table, src/net/flow/flow_table.cpp: calls of `addPacket`, failed ones too, and
-- of `flush`, in any order.
use pcap_analyzer.Prelude.{
  ℕ, ◌+◌, ◌%◌, ◌≡◌, ◌≢◌, ◌⊎◌, inl, inr, refl, sym, ap, ◌∙◌, subst, Bool, true, false, Bool-cases,
  if◌then◌else◌, List, [], ◌∷◌, some, add64, u64_mod, arith,
}
use pcap_analyzer.Util.ParseError.{Result, ok, err, ◌>>=◌}
use pcap_analyzer.Decode.Packet.{is_arp}
use pcap_analyzer.Flow.FlowKey.{FlowKey, normalize}
use pcap_analyzer.Flow.FlowTable.{
  Flow, FlowTable, Capture, find, file_packet, key_from_packet, Filed, no_flow, filed, add_packet,
  flush,
}
use pcap_analyzer.Flow.FlowTable.Lookup.{Distinct}
use pcap_analyzer.Flow.FlowTable.Counting.{bytes, packets, total, sum-append}
use pcap_analyzer.Flow.FlowTable.Filing.{
  file_packet-total_bytes, file_packet-Distinct, file_packet-find_other, file_packet-find,
  file_packet-bytes, file_packet-packets,
}

pub data Op : Type 0 where
  sees : Capture → Op
  flushes : Op

abbrev table_or : FlowTable → Result (FlowTable × Filed) → FlowTable
table_or t (err code) = t
table_or t (ok r) = r.0

unfoldable pub after : FlowTable → Op → FlowTable
unfolding add_packet flush
after t (sees c) = table_or t (add_packet t c)
after t flushes = flush t

unfoldable pub run : FlowTable → List Op → FlowTable
unfolding after
run t [] = t
run t (op ∷ ops) = run (after t op) ops

abbrev ok_or_zero : Result FlowKey → ℕ → ℕ
ok_or_zero (err code) n = 0
ok_or_zero (ok key) n = n

-- The weight of a capture whose packet has a flow; ARP packets and packets without a key have none.
abbrev pub weight : (Capture → ℕ) → Op → ℕ
weight n (sees c) = if is_arp c.pkt.network then 0 else ok_or_zero (key_from_packet c.pkt) (n c)
weight n flushes = 0

abbrev pub load : (Capture → ℕ) → List Op → ℕ
load n [] = 0
load n (op ∷ ops) = weight n op + load n ops

abbrev pub size_of : Capture → ℕ
size_of c = c.incl_len

abbrev pub one : Capture → ℕ
one c = 1

-- The table has counted `b` bytes in `p` packets, each in one flow, up to the wrap of its 64-bit
-- counters, and no key has two current flows.
pub record IsTable (t : FlowTable) (b p : ℕ) : Type 0 where
  pub counted : t.total_bytes ≡ b % u64_mod
  pub in_flows : total bytes t % u64_mod ≡ b % u64_mod
  pub packets_in_flows : total packets t % u64_mod ≡ p % u64_mod
  pub distinct : Distinct t.flows

recount : (t : FlowTable) (b b' p p' : ℕ) → b ≡ b' → p ≡ p' → IsTable t b p → IsTable t b' p'
recount t b b' p p' e f h = subst (λ n. IsTable t n p') e (subst (λ m. IsTable t b m) f h)

abbrev pub empty : ℕ → ℕ → FlowTable
empty active idle = record {
  active_timeout_us = active;
  idle_timeout_us = idle;
  total_bytes = 0;
  flows = [];
  completed = [];
}

file_packet-IsTable :
    (t : FlowTable) (key : FlowKey) (reversed : Bool) (c : Capture) (b p : ℕ)
    → IsTable t b p
    → IsTable (file_packet t key reversed c).0 (b + c.incl_len) (p + 1)
file_packet-IsTable t key reversed c b p h =
    let counted = h.counted in
    let in_flows = h.in_flows in
    let in_packets = h.packets_in_flows in
    record {
      counted = file_packet-total_bytes t key reversed c ∙ unfold add64 in omega arith;
      in_flows = omega (arith, file_packet-bytes t key reversed c);
      packets_in_flows = omega (arith, file_packet-packets t key reversed c);
      distinct = file_packet-Distinct t key reversed c h.distinct;
    }

add_packet_cases {ℓ} :
    (P : FlowTable → ℕ → ℕ → Type ℓ) (t : FlowTable) (c : Capture)
    → P t 0 0
    → ((key : FlowKey) (reversed : Bool) → P (file_packet t key reversed c).0 c.incl_len 1)
    → P (table_or t (add_packet t c)) (weight size_of (sees c)) (weight one (sees c))
unfolding add_packet
add_packet_cases P t c same more = elim (Bool-cases (is_arp c.pkt.network)) [
  | inl e ↦ rw (e, add_packet) same
  | inr e ↦ rw (e, add_packet) (keyed (key_from_packet c.pkt))
]
  where
    keyed :
        (r : Result FlowKey)
        → P
            (table_or t (
              r >>= λ key.
              let (normal, reversed) = normalize key in
              let (t', is_new) = file_packet t normal reversed c in ok (t', filed normal is_new)))
            (ok_or_zero r c.incl_len)
            (ok_or_zero r 1)
    keyed (err code) = same
    keyed (ok key) = more (normalize key).0 (normalize key).1

after-IsTable :
    (t : FlowTable) (op : Op) (b p : ℕ)
    → IsTable t b p
    → IsTable (after t op) (b + weight size_of op) (p + weight one op)
unfolding after flush
after-IsTable t (sees c) b p h =
    add_packet_cases (λ s n m. IsTable s (b + n) (p + m)) t c
      (recount t b (b + 0) p (p + 0) (omega arith) (omega arith) h)
      (λ key reversed. file_packet-IsTable t key reversed c b p h)
after-IsTable t flushes b p h =
    let counted = h.counted in
    let in_flows = h.in_flows in
    let in_packets = h.packets_in_flows in
    record {
      counted = omega arith;
      in_flows = omega (arith, sum-append bytes t.completed t.flows);
      packets_in_flows = omega (arith, sum-append packets t.completed t.flows);
      distinct = tt;
    }

run-IsTable :
    (ops : List Op) (t : FlowTable) (b p : ℕ)
    → IsTable t b p
    → IsTable (run t ops) (b + load size_of ops) (p + load one ops)
unfolding run
run-IsTable [] t b p h = recount t b (b + 0) p (p + 0) (omega arith) (omega arith) h
run-IsTable (op ∷ ops) t b p h =
    recount _ _ (b + load size_of (op ∷ ops)) _ (p + load one (op ∷ ops)) (omega arith)
      (omega arith) (run-IsTable ops (after t op) _ _ (after-IsTable t op b p h))

-- After any history of captures and flushes of a new table: `total_bytes`, the bytes of all flows
-- together and the sizes of the captures that were filed are the same number modulo 2 ^ 64, the
-- packets of all flows are, again modulo 2 ^ 64, as many as those captures, and no key has two
-- current flows.
pub run_counts :
    (active idle : ℕ) (ops : List Op)
    → IsTable (run (empty active idle) ops) (load size_of ops) (load one ops)
run_counts active idle ops =
    recount _ _ (load size_of ops) _ (load one ops) (omega arith) (omega arith)
      (run-IsTable ops (empty active idle) 0 0 start)
  where
    start : IsTable (empty active idle) 0 0
    start = record { counted = refl; in_flows = refl; packets_in_flows = refl; distinct = tt }

abbrev filing : FlowTable → Capture → FlowKey → Result (FlowTable × Filed)
filing t c key =
    let (normal, reversed) = normalize key in
    let (t', is_new) = file_packet t normal reversed c in ok (t', filed normal is_new)

pairs : (a b : FlowTable) (x y : Bool) → a ≡ b → x ≡ y → ◌≡◌ {A = FlowTable × Bool} (a, x) (b, y)
pairs a b x y e f = cc

filed_parts :
    (a b : FlowTable) (k l : FlowKey) (x y : Bool)
    → ◌≡◌ {A = Result (FlowTable × Filed)} (ok (a, filed k x)) (ok (b, filed l y))
    → (k ≡ l) × (a ≡ b) × (x ≡ y)
filed_parts a b k l x y h = (cc, cc, cc)

add_packet_filed :
    (t : FlowTable) (c : Capture) {t' : FlowTable} {key : FlowKey} {is_new : Bool}
    → add_packet t c ≡ ok (t', filed key is_new)
    → (reversed : Bool) × (file_packet t key reversed c ≡ (t', is_new))
unfolding add_packet
add_packet_filed t c {t' = t'} {key = key} {is_new = is_new} h =
    from (is_arp c.pkt.network) (key_from_packet c.pkt) h
  where
    from :
        (is : Bool) (r : Result FlowKey)
        → (if is then ok (t, no_flow) else r >>= filing t c) ≡ ok (t', filed key is_new)
        → (reversed : Bool) × (file_packet t key reversed c ≡ (t', is_new))
    from true r h = cc
    from false (err code) h = cc
    from false (ok k) h =
        let (n, a, b) = filed_parts _ t' _ key _ is_new h in
        ((normalize k).1, ap (λ j. file_packet t j (normalize k).1 c) (sym n) ∙ pairs _ _ _ _ a b)

-- Filing a packet under a key leaves the current flow of every other key as it was.
pub add_packet-find_other :
    (t : FlowTable) (c : Capture) {t' : FlowTable} {key : FlowKey} {is_new : Bool} (other : FlowKey)
    → add_packet t c ≡ ok (t', filed key is_new)
    → other ≢ key
    → find other t'.flows ≡ find other t.flows
add_packet-find_other t c {key = key} other h ne =
    let (reversed, e) = add_packet_filed t c h in
    ap (λ r. find other r.0.flows) (sym e) ∙ file_packet-find_other t key reversed c other ne

-- A packet that is filed is in the current flow of its key: that flow was last seen at the time of
-- the capture, and a new flow was first seen then.
pub add_packet-find :
    (t : FlowTable) (c : Capture) {t' : FlowTable} {key : FlowKey} {is_new : Bool}
    → add_packet t c ≡ ok (t', filed key is_new)
    → (f : Flow) × (find key t'.flows ≡ some f)
      × (f.last_seen ≡ c.ts_us)
      × ((is_new ≡ false) ⊎ (f.first_seen ≡ c.ts_us))
add_packet-find t c {key = key} h =
    let (reversed, e) = add_packet_filed t c h in
    subst
      (λ r.
        (f : Flow) × (find key r.0.flows ≡ some f)
        × (f.last_seen ≡ c.ts_us)
        × ((r.1 ≡ false) ⊎ (f.first_seen ≡ c.ts_us)))
      e (file_packet-find t key reversed c)
