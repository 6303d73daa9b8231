-- ===== src/Witnesses/Polls.antt =====
-- Streams that are polled, src/net/decode/app_decoder.cpp.
use pcap_analyzer.Prelude.{
  ℕ, ◌+◌, ◌-◌, ◌≡◌, refl, true, false, List, [], ◌∷◌, ◌++◌, length, replicate, arith,
}
use pcap_analyzer.Util.Text.{is_equals, same_letters}
use pcap_analyzer.Util.Bytes.{codes, index_of, same_text, starts_with}
use pcap_analyzer.Protocols.Http.Text.{
  line_at, read_line_crlf, is_token_char, all_token_chars, is_token, trim_front, trim_back,
  trim_ows, decimal_loop, parse_decimal,
}
use pcap_analyzer.Protocols.Http.Fields.{
  status_line, start_words, parse_start_line, field_at, parse_field, field_of, line_round,
  fields_loop, parse_fields,
}
use pcap_analyzer.Protocols.Http.Message.{
  framing_step, framing_loop, settle_framing, parse_framing, parse, body_forbidden,
}
use pcap_analyzer.Flow.TcpReassembler.State.{Reassembler, TcpState, init}
use pcap_analyzer.Flow.TcpReassembler.Reading.{available, peek, consume}
use pcap_analyzer.Flow.FlowTable.{blank_key}
use pcap_analyzer.Flow.FlowTable.Histories.{empty}
use pcap_analyzer.Decode.Packet.{Packet, ethernet, blank_ethernet, no_network, no_transport}
use pcap_analyzer.Decode.Decoder.{Decoder, decode}
use pcap_analyzer.Decode.AppDecoder.State.{AppDecoder, empty_applications}
use pcap_analyzer.Decode.AppDecoder.HttpRound.{Http, stop, again, http_round}
use pcap_analyzer.Decode.AppDecoder.Streams.{DnsStream, dns_loop, http_loop}
use pcap_analyzer.Decode.AppDecoder.Flows.{poll}
use pcap_analyzer.Decode.AppDecoder.Loops.{Loop, NoMessage, http_loop-ends, dns_loop-ends}
use pcap_analyzer.Decode.AppDecoder.Heads.{IsPartial, waiting, body_of, partial_response_twice}
use pcap_analyzer.Decode.AppDecoder.Whole.{Bounded, decode-Bounded}
use pcap_analyzer.Witnesses.Messages.{head, header}
use pcap_analyzer.Witnesses.Names.{message}

abbrev stream : Reassembler
stream = record init { state = TcpState.established; assembled = head ++ codes "hel" }

-- The peer has asked with GET and then with HEAD.
abbrev polled : Http
polled = record {
  stream = stream;
  applications = empty_applications;
  peer_state = record empty_applications { pending_head_requests = false ∷ true ∷ [] };
}

http_loop-ends_example : Loop polled (http_loop (available stream + 1) polled)
http_loop-ends_example = http_loop-ends polled

abbrev dns_polled : DnsStream
dns_polled = record {
  stream = record stream { assembled = 0 ∷ 1 ∷ 7 ∷ 0 ∷ 9 ∷ [] };
  applications = empty_applications;
  dns_table = [];
}

dns_loop-ends_example : NoMessage (dns_loop (available dns_polled.stream + 1) dns_polled)
dns_loop-ends_example = dns_loop-ends dns_polled

polled-IsPartial : IsPartial polled header (codes "hel")
unfolding parse parse_start_line read_line_crlf line_at index_of start_words status_line starts_with
    same_text parse_fields fields_loop line_round field_of parse_field field_at trim_ows trim_front
    trim_back is_token all_token_chars is_token_char parse_framing framing_loop framing_step
    settle_framing is_equals same_letters parse_decimal decimal_loop available peek body_forbidden
polled-IsPartial = record {
  no_skip = refl;
  not_until_close = refl;
  parsed = refl;
  response = refl;
  final = omega arith;
  with_body = refl;
  not_chunked = refl;
  sized = refl;
  short = omega arith;
  small = omega arith;
}

partial_response_twice_example :
    (http_round polled ≡ stop (waiting polled (true ∷ [])))
    × (http_round (waiting polled (true ∷ []))
        ≡ again (record (waiting polled []) {
          stream = consume stream (length (peek stream) - length (body_of polled (codes "hel")));
          applications = record empty_applications { http_messages = [] ++ header ∷ [] };
        }))
partial_response_twice_example =
    partial_response_twice polled header (codes "hel") [] polled-IsPartial refl

abbrev decoder : Decoder AppDecoder
decoder = record {
  config = record { verify_checksum = false; filter = blank_key };
  flow_table = empty 0 30000000;
  app = record { flows = []; dns_table = [] };
  decoded = 0;
}

abbrev unset : Packet
unset = record {
  datalink = ethernet blank_ethernet;
  vlan_tags = [];
  network = no_network;
  ipv6_ext = [];
  transport = no_transport;
  payload = [];
}

-- The response of Names in a UDP packet.
abbrev dns_frame : List ℕ
dns_frame =
    replicate 12 2
    ++ 8 ∷ 0 ∷ 69 ∷ 0 ∷ 0 ∷ 66 ∷ 0 ∷ 0 ∷ 0 ∷ 0 ∷ 64 ∷ 17 ∷ 0 ∷ 0 ∷ 10 ∷ 0 ∷ 0 ∷ 53 ∷ 10 ∷ 0 ∷ 0 ∷ 1
      ∷ []
    ++ 0 ∷ 53 ∷ 48 ∷ 57 ∷ 0 ∷ 46 ∷ 0 ∷ 0 ∷ []
    ++ message

decode-Bounded_example : Bounded (decode poll decoder dns_frame unset 80 0).0
decode-Bounded_example = decode-Bounded decoder dns_frame unset 80 0 tt
