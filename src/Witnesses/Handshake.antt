-- ===== src/Witnesses/Handshake.antt =====
-- Concrete openings and closings of a connection, src/net/decode/decoder.cpp.
use pcap_analyzer.Prelude.{ℕ, ◌≡◌, refl, true, false, [], add32, arith}
use pcap_analyzer.Protocols.Tcp.{Header, rst, syn, ack, fin}
use pcap_analyzer.Decode.Packet.{blank_tcp}
use pcap_analyzer.Flow.TcpReassembler.State.{time_wait, closed}
use pcap_analyzer.Flow.TcpReassembler.Runs.{opened}
use pcap_analyzer.Flow.Connection.{exchange, fresh, handshake, teardown}

abbrev control : ℕ → ℕ → ℕ → Header
control flags seq acked = record blank_tcp { seq_number = seq; ack_number = acked; flags = flags }

handshake_example :
    exchange
      (exchange (exchange fresh false (control 2 4294967295 0) []) true (control 18 9 0) [])
      false
      (control 16 0 10)
      []
    ≡ record { fwd = opened (add32 4294967295 1); rev = opened (add32 9 1) }
unfolding rst syn ack fin add32
handshake_example =
    handshake (control 2 4294967295 0) (control 18 9 0) (control 16 0 10) (refl, refl, refl)
      (refl, refl, refl) (refl, refl, refl, refl) refl

teardown_example :
    exchange
      (exchange
        (exchange
          (exchange
            (record { fwd = opened 4294967295; rev = opened 10 })
            false
            (control 17 4294967295 10)
            [])
          true
          (control 16 10 0)
          [])
        true
        (control 17 10 0)
        [])
      false
      (control 16 0 11)
      []
    ≡ record {
      fwd = record (opened (add32 4294967295 1)) { state = time_wait; fin_seq = 4294967295 };
      rev = record (opened (add32 10 1)) { state = closed; fin_seq = 10 };
    }
unfolding rst syn ack fin add32
teardown_example =
    teardown 4294967295 10 (control 17 4294967295 10) (control 16 10 0) (control 17 10 0)
      (control 16 0 11) (omega arith) (omega arith) (refl, refl, refl, refl) refl
      (refl, refl, refl, refl) refl refl (refl, refl, refl, refl) refl (refl, refl, refl, refl) refl
