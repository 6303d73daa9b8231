-- ===== src/Flow/TcpReassembler/State.antt =====
-- include/net/flow/tcp_reassembler.h: the state of a reassembler.
-- A `size_t` that counts bytes of a buffer is an exact number; sequence numbers wrap at 2 ^ 32.
-- The capacity of `assembled` (reserve, shrink_to_fit) does not change its contents: it is left out.
use pcap_analyzer.Prelude.{ℕ, Bool, true, false, List, []}

pub data TcpState : Type 0 where
  unknown closed listen syn_sent syn_received established : TcpState
  fin_wait1 fin_wait2 close_wait closing last_ack time_wait : TcpState

abbrev pub max_ooo_bytes : ℕ
max_ooo_bytes = 1048576

abbrev pub min_compact_bytes : ℕ
min_compact_bytes = 4096

pub record Segment : Type 0 where
  pub seq : ℕ
  pub bytes : List ℕ

pub record Reassembler : Type 0 where
  pub state : TcpState
  pub next_seq : ℕ
  pub ooo_bytes : ℕ
  pub out_of_order : List Segment
  pub assembled : List ℕ
  pub fin_seen : Bool
  pub fin_seq : ℕ
  pub seeded : Bool
  pub keep_payload : Bool
  pub read_pos : ℕ

abbrev pub init : Reassembler
init = record {
  state = unknown;
  next_seq = 0;
  ooo_bytes = 0;
  out_of_order = [];
  assembled = [];
  fin_seen = false;
  fin_seq = 0;
  seeded = false;
  keep_payload = true;
  read_pos = 0;
}
