-- ===== src/Witnesses/Flows.antt =====
-- Concrete packets of two flows, src/net/flow/flow_key.cpp and src/net/flow/flow_table.cpp.
use pcap_analyzer.Prelude.{
  ℕ, ◌≡◌, ◌↔◌, ◌⊎◌, ap, refl, true, false, List, [], ◌∷◌, ◌++◌, replicate, some, arith,
}
use pcap_analyzer.Util.ParseError.{ok}
use pcap_analyzer.Decode.Packet.{Packet, no_datalink, ipv4, tcp, blank_ipv4, blank_tcp}
use pcap_analyzer.Flow.FlowKey.{FlowKey, swap, normalize, matches}
use pcap_analyzer.Flow.FlowKey.Laws.{normalize_iff, matches_iff, Passes}
use pcap_analyzer.Flow.FlowTable.{
  Flow, FlowTable, Capture, filed, find, add_packet, is_expired, new_flow, touch, blank_key,
}
use pcap_analyzer.Flow.FlowTable.Histories.{
  Op, sees, flushes, run, load, size_of, one, IsTable, empty, run_counts, add_packet-find,
  add_packet-find_other, after,
}
use pcap_analyzer.Flow.FlowTable.Expiry.{is_expired_early}

abbrev request : FlowKey
request = record {
  is_ipv4 = true;
  src_ip = 10 ∷ 0 ∷ 0 ∷ 9 ∷ replicate 12 0;
  dst_ip = 10 ∷ 0 ∷ 0 ∷ 1 ∷ replicate 12 0;
  src_port = 4000;
  dst_port = 80;
  protocol = 6;
}

normalize_iff_example :
    ((normalize request).0 ≡ (normalize (swap request)).0)
    ↔ ((request ≡ swap request) ⊎ (request ≡ swap (swap request)))
normalize_iff_example = normalize_iff request (swap request)

abbrev to_web : FlowKey
to_web = record blank_key { dst_port = 80; protocol = 6 }

matches_iff_example : (matches to_web request ≡ true) ↔ Passes to_web request
matches_iff_example = matches_iff to_web request

abbrev packet_between : ℕ → ℕ → Packet
packet_between src dst = record {
  datalink = no_datalink;
  vlan_tags = [];
  network = ipv4 (record blank_ipv4 { src_ip = src; dst_ip = dst });
  ipv6_ext = [];
  transport = tcp (record blank_tcp { src_port = 4000; dst_port = 80 });
  payload = [];
}

abbrev seen_at : ℕ → Capture
seen_at ts = record { pkt = packet_between 9 1; incl_len = 60; ts_us = ts }

abbrev history : List Op
history =
    sees (seen_at 5)
    ∷ sees (record { pkt = packet_between 1 7; incl_len = 90; ts_us = 6 })
    ∷ flushes
    ∷ sees (seen_at 7)
    ∷ []

run_counts_example :
    IsTable (run (empty 0 30000000) history) (load size_of history) (load one history)
run_counts_example = run_counts 0 30000000 history

-- A flow of the table after the first packet.
abbrev young : Flow
young = touch (new_flow request 1000) false (seen_at 1000)

-- Its second packet has an earlier time than the first.
abbrev disordered : Flow
disordered = touch young false (seen_at 990)

is_expired_early_example : is_expired (empty 300000000 30000000) disordered 995 ≡ true
unfolding touch new_flow
is_expired_early_example =
    is_expired_early (empty 300000000 30000000) disordered 995 (omega arith) (omega arith)
      (omega arith) (omega arith) (omega arith)

abbrev one_flow : FlowTable
one_flow = after (empty 0 30000000) (sees (seen_at 5))

abbrev web_flow : FlowKey
web_flow = record {
  is_ipv4 = true;
  src_ip = replicate 3 0 ++ 1 ∷ replicate 12 0;
  dst_ip = replicate 3 0 ++ 9 ∷ replicate 12 0;
  src_port = 80;
  dst_port = 4000;
  protocol = 6;
}

abbrev other_flow : FlowKey
other_flow = record web_flow { protocol = 17 }

filed_example : add_packet (empty 0 30000000) (seen_at 5) ≡ ok (one_flow, filed web_flow true)
unfolding after add_packet
filed_example = refl

add_packet-find_example :
    (f : Flow) × (find web_flow one_flow.flows ≡ some f)
    × (f.last_seen ≡ 5)
    × ((true ≡ false) ⊎ (f.first_seen ≡ 5))
add_packet-find_example = add_packet-find (empty 0 30000000) (seen_at 5) filed_example

add_packet-find_other_example :
    find other_flow one_flow.flows ≡ find other_flow (empty 0 30000000).flows
add_packet-find_other_example =
    add_packet-find_other (empty 0 30000000) (seen_at 5) other_flow filed_example
      (λ e. let p = ap (λ k. k.protocol) e in omega arith)
