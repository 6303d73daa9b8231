-- ===== src/Decode/AppDecoder/Streams.antt =====
-- `pollStream`, src/net/decode/app_decoder.cpp.
use pcap_analyzer.Prelude.{
  ℕ, zero, suc, ◌+◌, ◌*◌, Bool, not, ◌||◌, ◌==◌, ltb, if◌then◌else◌, List, [], ◌∷◌, ◌++◌, take,
  drop,
}
use pcap_analyzer.Util.ParseError.{Result, ok, err}
use pcap_analyzer.Util.Endian.{Endian, byte_at}
use pcap_analyzer.Protocols.Dns as Dns
use pcap_analyzer.Protocols.Http.Header as Http
use pcap_analyzer.Analysis.DnsTable.{DnsTable, record_message}
use pcap_analyzer.Flow.FlowKey.{FlowKey}
use pcap_analyzer.Flow.TcpReassembler.State.{Reassembler}
use pcap_analyzer.Flow.TcpReassembler.Reading.{available, peek, consume, has_readable_data}
use pcap_analyzer.Decode.AppDecoder.State.{Applications}
use pcap_analyzer.Decode.AppDecoder.HttpRound.{Http, stop, again, http_round}

-- What is done with a DNS message, in a stream or in a datagram.
unfoldable pub take_dns :
    Result (Dns.Header × ℕ) → Applications → DnsTable → Applications × DnsTable
unfolding record_message
take_dns (err code) a t = (record a { decode_failures = a.decode_failures + 1 }, t)
take_dns (ok (header, end)) a t =
    (record a { dns_messages = a.dns_messages ++ header ∷ [] }, record_message header t)

-- The two bytes in front of a message in a stream.
abbrev pub msg_len : List ℕ → ℕ
msg_len bytes = byte_at bytes 0 * 256 + byte_at bytes 1

-- The objects that the DNS loop changes.
pub record DnsStream : Type 0 where
  pub stream : Reassembler
  pub applications : Applications
  pub dns_table : DnsTable

unfoldable pub dns_round : DnsStream → ℕ → DnsStream
unfolding take_dns peek consume Dns.parse
dns_round s len =
    let (a, t) =
      take_dns (Dns.parse (take len (drop 2 (peek s.stream))) Endian.big) s.applications
        s.dns_table in
    record { stream = consume s.stream (2 + len); applications = a; dns_table = t }

unfoldable pub dns_loop : ℕ → DnsStream → DnsStream
unfolding dns_round available peek
dns_loop zero s = s
dns_loop (suc fuel) s =
    let len = msg_len (peek s.stream) in
    let later = dns_loop fuel (dns_round s len) in
    if ltb (available s.stream) 2
    then s
    else if ltb (available s.stream) (2 + len)
    then s
    else later

unfoldable pub http_loop : ℕ → Http → Http
unfolding http_round
http_loop zero s = s
http_loop (suc fuel) s = elim (http_round s) [ stop t ↦ t | again t ↦ http_loop fuel t ]

abbrev pub has_port : ℕ → FlowKey → Bool
has_port port key = key.src_port == port || key.dst_port == port

-- What a poll changes: the stream, the state of the two directions and the table.
pub record Polled : Type 0 where
  pub stream : Reassembler
  pub applications : Applications
  pub peer_state : Applications
  pub dns_table : DnsTable

-- Each round of a loop consumes some byte of the stream.
unfoldable pub poll_stream : FlowKey → Polled → Polled
unfolding dns_loop http_loop has_readable_data available
poll_stream key s =
    let dns =
      dns_loop (available s.stream + 1)
        (record { stream = s.stream; applications = s.applications; dns_table = s.dns_table }) in
    let http =
      http_loop (available s.stream + 1)
        (record { stream = s.stream; applications = s.applications; peer_state = s.peer_state }) in
    if not (has_readable_data s.stream.state)
    then s
    else if has_port Dns.port key
    then record s {
      stream = dns.stream;
      applications = dns.applications;
      dns_table = dns.dns_table;
    }
    else if has_port Http.port key
    then record s {
      stream = http.stream;
      applications = http.applications;
      peer_state = http.peer_state;
    }
    else s
