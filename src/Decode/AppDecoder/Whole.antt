-- ===== src/Decode/AppDecoder/Whole.antt =====
-- The decoder with the application decoder in it, src/net/decode/decoder.cpp.
use pcap_analyzer.Prelude.{
  ℕ, Bool, List, [], ◌∷◌, Option, none, some, Bool-cases, Option-cases, inl, inr, arith,
}
use pcap_analyzer.Util.ParseError.{Result, ok, err}
use pcap_analyzer.Flow.FlowKey.{FlowKey}
use pcap_analyzer.Flow.FlowTable.{Flow, FlowTable, Filed, no_flow, filed, find, flush, add_packet}
use pcap_analyzer.Decode.Packet.{Packet, reset}
use pcap_analyzer.Decode.PacketDecoder.{decode_packet}
use pcap_analyzer.Decode.Decoder.{
  Decoder, reassemble, advance, after_filing, settle_filed, filtered_out, file_decoded, decode,
  finish,
}
use pcap_analyzer.Decode.AppDecoder.State.{AppDecoder}
use pcap_analyzer.Decode.AppDecoder.Flows.{Entries, poll, prune_entries, prune}
use pcap_analyzer.Decode.AppDecoder.Entries.{AllBounded, poll-AllBounded}

abbrev pub Bounded : Decoder AppDecoder → Type 0
Bounded d = AllBounded d.app.flows

advance-Bounded :
    (d : Decoder AppDecoder) (t : FlowTable) (key : FlowKey) (is_new : Bool) (pkt : Packet)
    (flow : Option Flow)
    → Bounded d
    → Bounded (advance poll d t key is_new pkt flow)
unfolding advance
advance-Bounded d t key is_new pkt none h = h
advance-Bounded d t key is_new pkt (some flow) h =
    ground
      (arith, poll-AllBounded key (reassemble pkt.transport pkt.payload flow) is_new pkt d.app h)

settle_filed-Bounded :
    (d : Decoder AppDecoder) (pkt : Packet) (r : Result (FlowTable × Filed))
    → Bounded d
    → Bounded (settle_filed poll d pkt r).0
unfolding settle_filed after_filing
settle_filed-Bounded d pkt (err code) h = h
settle_filed-Bounded d pkt (ok (t, no_flow)) h = h
settle_filed-Bounded d pkt (ok (t, filed key is_new)) h =
    advance-Bounded d t key is_new pkt (find key t.flows) h

file_decoded-Bounded :
    (d : Decoder AppDecoder) (incl_len ts_us : ℕ) (r : Result Packet)
    → Bounded d
    → Bounded (file_decoded poll d incl_len ts_us r).0
unfolding file_decoded
file_decoded-Bounded d incl_len ts_us (err code) h = h
file_decoded-Bounded d incl_len ts_us (ok pkt) h = elim (Bool-cases (filtered_out d.config pkt)) [
  | inl e ↦ rw (e, file_decoded) h
  | inr e ↦
      rw (e, file_decoded)
        (settle_filed-Bounded d pkt
          (add_packet d.flow_table (record { pkt = pkt; incl_len = incl_len; ts_us = ts_us })) h)
]

-- Whatever frame is decoded, and whether it is an error or not, no direction of a flow has more than
-- MAX_PENDING_REQUESTS requests that wait for their response, if none had before.
pub decode-Bounded :
    (d : Decoder AppDecoder) (span : List ℕ) (pkt : Packet) (incl_len ts_us : ℕ)
    → Bounded d
    → Bounded (decode poll d span pkt incl_len ts_us).0
unfolding decode
decode-Bounded d span pkt incl_len ts_us h =
    file_decoded-Bounded d incl_len ts_us (decode_packet span (reset pkt) d.config.verify_checksum)
      h

prune_entries-AllBounded :
    (table : FlowTable) (l : Entries) → AllBounded l → AllBounded (prune_entries table l)
unfolding prune_entries
prune_entries-AllBounded table [] h = tt
prune_entries-AllBounded table ((k, a) ∷ rest) (h, hs) = elim (Option-cases (find k table.flows)) [
  | inl e ↦ rw (e, prune_entries) (prune_entries-AllBounded table rest hs)
  | inr (flow, e) ↦ rw (e, prune_entries) (h, prune_entries-AllBounded table rest hs)
]

-- The end of the capture keeps the bound.
pub finish-Bounded : (d : Decoder AppDecoder) → Bounded d → Bounded (finish prune d)
unfolding finish prune
finish-Bounded d h = prune_entries-AllBounded (flush d.flow_table) d.app.flows h
