-- ===== src/Lib.antt =====
-- pcap-analyzer: a reader of capture files that decodes packets layer by layer, groups them into
-- flows, puts the bytes of TCP connections back in order and reads DNS and HTTP messages in them.
--
-- A capture file is a file header and records. `Reader` (src/net/capture/pcap_reader.cpp) takes one
-- record after the other and hands its frame to `Decoder` (src/net/decode/decoder.cpp), which parses
-- the layers with `decodePacket` (src/net/decode/packet_decoder.cpp, src/net/protocols), drops what
-- a filter does not select, files the packet in `FlowTable` (src/net/flow/flow_table.cpp) under a
-- normalized `FlowKey` (src/net/flow/flow_key.cpp), and gives the payload of a TCP packet to the two
-- `TcpReassembler`s of the flow (src/net/flow/tcp_reassembler.cpp). `AppDecoder`
-- (src/net/decode/app_decoder.cpp) then polls the flow: it parses DNS messages
-- (src/net/protocols/dns.cpp) of datagrams and streams and HTTP messages
-- (src/net/protocols/http.cpp) of streams, consumes what it has read, and records the names that
-- DNS gives for addresses in `DnsTable` (src/net/analysis/dns_table.cpp).
--
-- The files:
--   Prelude: tests and lists on native numbers, machine words.
--   Util.ParseError, Util.Endian, Util.Checksum with Fold: include/net/util, src/net/util/checksum.cpp.
--   Util.Text, with Numbers and Indented: src/net/util/text.cpp.
--   Util.Bytes, with Search: strings as lists of codes, with the searches of the standard library.
--   Protocols.*: the header and the parse function of each protocol; Protocols.Bounds proves.
--   Protocols.Addresses, with Reading: the text forms of addresses, and names of protocols.
--   Protocols.Dns, with Names, Spelling, Encoding, Sections: DNS messages.
--   Protocols.Http.Header, Text, Fields, Message, Body: HTTP messages; Numbers, Stable, Progress,
--   Framing, Chunks and Resume prove.
--   Analysis.DnsTable, with Answers and Tidy: the names of addresses. Analysis.Benchmark: the timing of
--   phases.
--   Decode.Packet, Decode.PacketDecoder: `Packet` and `decodePacket`; Decode.Limits proves.
--   Decode.Decoder: `Decoder::decode` and `finish`; Decode.Outcomes and Selection prove.
--   Decode.AppDecoder.State, Resync, HttpRound, Streams, Flows: the application decoder; Limits,
--   Entries, Ends, Loops and Heads prove; Whole puts it into the decoder.
--   Flow.TcpReassembler.State, Ingest, Handlers, Reading: the reassembler; Stream, Assembly,
--   Position, Delivery, Control, Reassembly, Holding, Complete, Runs and Bounds prove.
--   Flow.Connection: the two reassemblers of a flow, and its opening and closing.
--   Flow.FlowKey, with Laws; Flow.FlowTable, with Lookup, Counting, Filing, Histories, Expiry.
--   Capture.Pcap, with Records; Capture.Reader, with Progress.
--   Cli.Options, Cli.Parse: the command line, src/cli/cli.cpp; Ranges, Accepted and Rounds prove.
--   Witnesses.*: the theorems at concrete packets.
--
-- How the code is read. A span is the list of its bytes; a parser returns what it writes through
-- its references and the rest of the span, or the error code. A 16-, 32- or 64-bit word is a number
-- with its wrap-around written out; a `size_t` that counts bytes of a buffer is exact. An object
-- that a method changes is passed in and returned. The hash map of flows is a list of entries. A
-- condition of `if` is a Boolean, with the tests in the order of the source.
--
-- Fuel. `fold_loop` of the checksum has the sum itself, which each round makes smaller.
-- `read_loop` and `read_all` have one round more than there are bytes left, since each round takes a
-- record header. `name_loop` has eleven times the size of the message and more: each round goes
-- forward, or is one of ten jumps. The loops over lines and chunks have one round more than there
-- are bytes, and the polls one more than the stream has. The loops over VLAN tags and extension
-- headers count down the room that MAX_TAGS and MAX_HEADERS leave. `args_loop` has a round for each
-- argument, and `v6_loop` one for each byte of the text, of which a group takes at least one.
--
-- Not modelled: text output (toString, toJson, operator<<, the statistics), the clock, the
-- mapping of files, the printers of addresses, what the program does with its options, and the
-- capacity of vectors. The pointer from a flow to its application state is left out, since it leads
-- to the entry of the flow's key.
pub mod Prelude
pub mod Util
pub mod Protocols
pub mod Decode
pub mod Flow
pub mod Witnesses
pub mod Capture
pub mod Analysis
pub mod Cli
