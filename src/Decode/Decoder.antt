-- ===== src/Decode/Decoder.antt =====
-- include/net/decode/decoder.h and src/net/decode/decoder.cpp: one frame through all the layers. The
-- polls of the application decoder are a parameter: they take the key, the flow, whether it is new
-- and the packet, and may consume what the flow has assembled. Timing is left out.
use pcap_analyzer.Prelude.{
  ℕ, Bool, true, false, not, ◌&&◌, if◌then◌else◌, List, Option, none, some, add64,
}
use pcap_analyzer.Util.ParseError.{Result, ok, err, filtered}
use pcap_analyzer.Decode.Packet.{Packet, reset, TransportHeader, tcp, udp}
use pcap_analyzer.Decode.PacketDecoder.{decode_packet}
use pcap_analyzer.Flow.Connection.{exchange}
use pcap_analyzer.Flow.FlowKey.{FlowKey, is_non_zero, matches}
use pcap_analyzer.Flow.FlowTable.{
  Flow, FlowTable, Filed, no_flow, filed, find, put, add_packet, key_from_packet, flush,
}

pub record Config : Type 0 where
  pub verify_checksum : Bool
  pub filter : FlowKey

pub record Decoder {ℓ} (A : Type ℓ) : Type ℓ where
  pub config : Config
  pub flow_table : FlowTable
  pub app : A
  pub decoded : ℕ

-- `!(keyFromPacket(...) != None || !filter.matches(key))`
abbrev pub selected : FlowKey → Result FlowKey → Bool
selected filter (err code) = false
selected filter (ok key) = matches filter key

unfoldable pub filtered_out : Config → Packet → Bool
unfolding is_non_zero key_from_packet matches
filtered_out config pkt =
    is_non_zero config.filter && not (selected config.filter (key_from_packet pkt))

-- Only a TCP packet is reassembled, from `flow->is_reverse`.
unfoldable pub reassemble : TransportHeader → List ℕ → Flow → Flow
unfolding exchange
reassemble (tcp header) payload flow = record flow {
  sides = exchange flow.sides flow.is_reverse header payload;
}
reassemble _ payload flow = flow

abbrev pub has_app : TransportHeader → Bool
has_app (tcp h) = true
has_app (udp h) = true
has_app _ = false

module _ {ℓ} {A : Type ℓ} (poll : FlowKey → Flow → Bool → Packet → A → Flow × A) where
  -- What is done with the flow of a packet that was filed.
  unfoldable pub advance : Decoder A → FlowTable → FlowKey → Bool → Packet → Option Flow → Decoder A
  unfolding reassemble put
  advance d t key is_new pkt none = record d { flow_table = t }
  advance d t key is_new pkt (some flow) =
      let assembled = reassemble pkt.transport pkt.payload flow in
      if has_app pkt.transport
      then record d {
        flow_table = record t { flows = put key (poll key assembled is_new pkt d.app).0 t.flows };
        app = (poll key assembled is_new pkt d.app).1;
      }
      else record d { flow_table = record t { flows = put key assembled t.flows } }

  unfoldable pub after_filing : Decoder A → Packet → FlowTable × Filed → Decoder A
  unfolding advance find
  after_filing d pkt (t, no_flow) = record d { flow_table = t }
  after_filing d pkt (t, filed key is_new) = advance d t key is_new pkt (find key t.flows)

  -- The end of the call, with the result of `addPacket`. On an error the table is as it was.
  unfoldable pub settle_filed :
      Decoder A → Packet → Result (FlowTable × Filed) → Decoder A × Result Packet
  unfolding after_filing add64
  settle_filed d pkt (err code) = (d, err code)
  settle_filed d pkt (ok r) =
      let d' = after_filing d pkt r in (record d' { decoded = add64 d'.decoded 1 }, ok pkt)

  -- The call from the filter on, with the result of `decodePacket`.
  unfoldable pub file_decoded : Decoder A → ℕ → ℕ → Result Packet → Decoder A × Result Packet
  unfolding filtered_out add_packet settle_filed
  file_decoded d incl_len ts_us (err code) = (d, err code)
  file_decoded d incl_len ts_us (ok pkt) =
      if filtered_out d.config pkt
      then (d, err filtered)
      else settle_filed d pkt
          (add_packet d.flow_table (record { pkt = pkt; incl_len = incl_len; ts_us = ts_us }))

  -- `decode`: the decoder afterwards, and the packet or the error.
  unfoldable pub decode : Decoder A → List ℕ → Packet → ℕ → ℕ → Decoder A × Result Packet
  unfolding file_decoded decode_packet reset
  decode d span pkt incl_len ts_us =
      file_decoded d incl_len ts_us (decode_packet span (reset pkt) d.config.verify_checksum)

-- `finish`; `prune` is that of the application decoder.
unfoldable pub finish {ℓ} : {A : Type ℓ} → (FlowTable → A → A) → Decoder A → Decoder A
unfolding flush
finish prune d = record d {
  decoded = 0;
  flow_table = flush d.flow_table;
  app = prune (flush d.flow_table) d.app;
}
