-- ===== src/Witnesses/Reassembly.antt =====
-- Concrete segments of a stream whose sequence numbers wrap, src/net/flow/tcp_reassembler.cpp.
use pcap_analyzer.Prelude.{
  ℕ, ◌+◌, ◌%◌, ◌≤◌, ◌<◌, ◌≡◌, refl, true, inl, inr, ltb, ltb→lt, ltb→le, Bool-cases, List, [], ◌∷◌,
  ◌++◌, length, take, drop, All, u32_mod, sub32, arith,
}
use pcap_analyzer.Protocols.Tcp.{Header, rst, fin}
use pcap_analyzer.Decode.Packet.{blank_tcp}
use pcap_analyzer.Flow.TcpReassembler.State.{Reassembler}
use pcap_analyzer.Flow.TcpReassembler.Handlers.{on_sent}
use pcap_analyzer.Flow.TcpReassembler.Reading.{peek, consume}
use pcap_analyzer.Flow.TcpReassembler.Control.{peek-consume}
use pcap_analyzer.Flow.TcpReassembler.Reassembly.{Event, packet, reads, IsData, run}
use pcap_analyzer.Flow.TcpReassembler.Runs.{opened, Covers, run_prefix, run_whole}
use pcap_analyzer.Flow.TcpReassembler.Bounds.{
  fresh, Reach, here, next, sends, IsSound, Reach-IsSound,
}

abbrev stream : List ℕ
stream = 10 ∷ 20 ∷ 30 ∷ 40 ∷ 50 ∷ 60 ∷ []

-- The first number of the stream: the third byte has number 0.
abbrev isn : ℕ
isn = 4294967294

abbrev segment : ℕ → Header
segment seq = record blank_tcp { seq_number = seq; flags = 16 }

-- The tail comes first, then a head that overlaps it; two bytes are read in between.
abbrev tail_first : List Event
tail_first =
    packet (segment 1) (40 ∷ 50 ∷ 60 ∷ [])
    ∷ packet (segment 4294967294) (10 ∷ 20 ∷ 30 ∷ 40 ∷ [])
    ∷ reads 2
    ∷ []

tail_first-IsData : All (IsData stream isn) tail_first
unfolding sub32 rst fin
tail_first-IsData = (
  (omega arith, refl, refl, record { same = refl; inside = omega arith }),
  ((omega arith, refl, refl, record { same = refl; inside = omega arith }), (tt, tt)),
)

run_prefix_example :
    (k : ℕ) × (k ≤ length stream)
    × ((run (opened isn) tail_first).0.next_seq ≡ (isn + k) % u32_mod)
    × ((run (opened isn) tail_first).1 ++ peek (run (opened isn) tail_first).0 ≡ take k stream)
run_prefix_example = run_prefix stream isn (omega arith) (omega arith) tail_first tail_first-IsData

all_covered : (i : ℕ) → i < length stream → Covers isn tail_first i
unfolding sub32
all_covered i h = elim (Bool-cases (ltb i 4)) [
  | inl low ↦ let l = ltb→lt i 4 low in inr (inl (omega arith, omega arith))
  | inr high ↦ let l = ltb→le i 4 high in inl (omega arith, omega arith)
]

run_whole_example : (run (opened isn) tail_first).1 ++ peek (run (opened isn) tail_first).0 ≡ stream
run_whole_example =
    run_whole stream isn (omega arith) (omega arith) tail_first tail_first-IsData (omega arith)
      all_covered

-- A reassembler that has seen a SYN and a data packet out of order.
abbrev busy : Reassembler
busy =
    on_sent (on_sent (fresh true) (record blank_tcp { seq_number = 7; flags = 2 }) []) (segment 12)
      (1 ∷ 2 ∷ [])

busy-Reach : Reach (fresh true) busy
busy-Reach =
    next
      (next here
        (sends (fresh true) (record blank_tcp { seq_number = 7; flags = 2 }) [] (omega arith)))
      (sends _ (segment 12) (1 ∷ 2 ∷ []) (omega arith))

Reach-IsSound_example : IsSound busy
Reach-IsSound_example = Reach-IsSound true busy-Reach

abbrev readable : Reassembler
readable = on_sent (opened 5) (segment 5) (1 ∷ 2 ∷ 3 ∷ [])

peek-consume_example : peek (consume readable 2) ≡ drop 2 (peek readable)
peek-consume_example = peek-consume readable 2
