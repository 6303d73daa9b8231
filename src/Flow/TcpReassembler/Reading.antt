-- ===== src/Flow/TcpReassembler/Reading.antt =====
-- src/net/flow/tcp_reassembler.cpp: what the application layer reads and consumes.
use pcap_analyzer.Prelude.{
  ℕ, ◌+◌, ◌-◌, ◌/◌, min, Bool, true, false, ◌&&◌, ltb, if◌then◌else◌, List, length, drop,
}
use pcap_analyzer.Flow.TcpReassembler.State.{
  TcpState, established, fin_wait1, fin_wait2, Reassembler, min_compact_bytes,
}

unfoldable pub available : Reassembler → ℕ
available r = length r.assembled - r.read_pos

unfoldable pub peek : Reassembler → List ℕ
peek r = drop r.read_pos r.assembled

-- The second half of `consume`: bytes already read are dropped once they fill half of the buffer.
unfoldable pub compact : Reassembler → Reassembler
compact r =
    if ltb min_compact_bytes r.read_pos && ltb (length r.assembled / 2) r.read_pos
    then record r { assembled = drop r.read_pos r.assembled; read_pos = 0 }
    else r

unfoldable pub consume : Reassembler → ℕ → Reassembler
unfolding available compact
consume r n = compact (record r { read_pos = r.read_pos + min n (available r) })

unfoldable pub has_readable_data : TcpState → Bool
has_readable_data established = true
has_readable_data fin_wait1 = true
has_readable_data fin_wait2 = true
has_readable_data _ = false
