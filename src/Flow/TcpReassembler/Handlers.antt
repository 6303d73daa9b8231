-- ===== src/Flow/TcpReassembler/Handlers.antt =====
-- src/net/flow/tcp_reassembler.cpp: `onSent`, `onReceived` and `onData`.
use pcap_analyzer.Prelude.{
  ℕ, ◌%◌, Bool, true, false, not, ◌&&◌, if◌then◌else◌, List, length, u32_mod, add32, sub32,
  is_negative,
}
use pcap_analyzer.Protocols.Tcp.{Header, ack, rst, syn, fin}
use pcap_analyzer.Flow.TcpReassembler.State.{
  TcpState, unknown, closed, listen, syn_sent, syn_received, established, fin_wait1, fin_wait2,
  close_wait, closing, last_ack, time_wait, Reassembler,
}
use pcap_analyzer.Flow.TcpReassembler.Ingest.{ingest}

abbrev after_fin : TcpState → TcpState
after_fin close_wait = last_ack
after_fin _ = fin_wait1

-- The FIN is recorded, and it takes effect once every byte before it is there.
unfoldable pub note_fin : Reassembler → Header → List ℕ → Reassembler
note_fin r header span =
    if fin header
    then record r { fin_seen = true; fin_seq = add32 header.seq_number (length span % u32_mod) }
    else r

unfoldable pub take_fin : Reassembler → Reassembler
take_fin r =
    if r.fin_seen && not (is_negative (sub32 r.next_seq r.fin_seq))
    then record r { next_seq = add32 r.next_seq 1; fin_seen = false; state = after_fin r.state }
    else r

unfoldable pub on_data : Reassembler → Header → List ℕ → Reassembler
unfolding note_fin take_fin
on_data r header span = take_fin (note_fin (ingest r header.seq_number span) header span)

abbrev keep_close_wait : TcpState → TcpState
keep_close_wait close_wait = close_wait
keep_close_wait _ = established

-- The first packet that this side is seen to send.
unfoldable pub seed : Reassembler → Header → List ℕ → Reassembler
seed r header span =
    if syn header
    then ingest
        (record r {
          next_seq = add32 header.seq_number 1;
          state = if ack header then syn_received else syn_sent;
          seeded = true;
        })
        (add32 header.seq_number 1) span
    else if ack header
    then on_data
        (record r { next_seq = header.seq_number; seeded = true; state = keep_close_wait r.state })
        header span
    else r

-- The switch of `onSent`.
unfoldable pub sent_in : TcpState → Reassembler → Header → List ℕ → Reassembler
sent_in syn_sent r header span =
    if ack header && not (syn header)
    then on_data (record r { state = established }) header span
    else r
sent_in established r header span = on_data r header span
sent_in close_wait r header span = on_data r header span
sent_in _ r header span = r

unfoldable pub on_sent : Reassembler → Header → List ℕ → Reassembler
unfolding seed sent_in
on_sent r header span =
    if rst header
    then record r { state = closed }
    else if not r.seeded
    then seed r header span
    else sent_in r.state r header span

-- The state of this side after the peer's packet, by the switch of `onReceived`; `acked` is
-- `static_cast<int32_t>(header.ack_number - next_seq) >= 0`.
unfoldable pub received_in : TcpState → Header → Bool → TcpState
received_in unknown header acked =
    if syn header && not (ack header)
    then listen
    else if ack header && not (syn header)
    then if fin header then close_wait else established
    else unknown
received_in closed header acked =
    if syn header && not (ack header)
    then listen
    else if ack header && not (syn header)
    then if fin header then close_wait else established
    else closed
received_in listen header acked =
    if syn header && not (ack header)
    then listen
    else if ack header && not (syn header)
    then if fin header then close_wait else established
    else listen
received_in syn_sent header acked =
    if syn header && not (ack header) then syn_received else syn_sent
received_in syn_received header acked =
    if ack header && not (syn header)
    then if fin header then close_wait else established
    else syn_received
received_in established header acked = if fin header then close_wait else established
received_in fin_wait1 header acked =
    if fin header && ack header && acked
    then time_wait
    else if fin header
    then closing
    else if ack header && acked
    then fin_wait2
    else fin_wait1
received_in fin_wait2 header acked = if fin header then time_wait else fin_wait2
received_in closing header acked = if ack header && acked then time_wait else closing
received_in last_ack header acked = if ack header && acked then closed else last_ack
received_in time_wait header acked = time_wait
received_in close_wait header acked = close_wait

unfoldable pub on_received : Reassembler → Header → Reassembler
unfolding received_in
on_received r header = if rst header then record r { state = closed } else record r {
  state = received_in r.state header (not (is_negative (sub32 header.ack_number r.next_seq)));
}
