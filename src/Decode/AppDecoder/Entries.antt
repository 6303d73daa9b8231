-- ===== src/Decode/AppDecoder/Entries.antt =====
-- What every entry of the application decoder keeps, src/net/decode/app_decoder.cpp.
use pcap_analyzer.Prelude.{
  ℕ, zero, suc, ◌+◌, ◌≡◌, Bool, true, false, Bool-cases, inl, inr, refl, List, [], ◌∷◌, take, drop,
  arith,
}
use pcap_analyzer.Util.ParseError.{Result, ok, err}
use pcap_analyzer.Util.Endian.{Endian}
use pcap_analyzer.Protocols.Dns as Dns
use pcap_analyzer.Analysis.DnsTable.{DnsTable}
use pcap_analyzer.Flow.Connection.{Connection}
use pcap_analyzer.Flow.FlowKey.{FlowKey, equals}
use pcap_analyzer.Flow.FlowTable.{Flow}
use pcap_analyzer.Flow.TcpReassembler.Reading.{available, peek}
use pcap_analyzer.Decode.Packet.{Packet, TransportHeader, no_transport, tcp, udp, icmp, icmpv6}
use pcap_analyzer.Decode.AppDecoder.State.{Applications, FlowApplications, AppDecoder}
use pcap_analyzer.Decode.AppDecoder.Streams.{
  take_dns, msg_len, DnsStream, dns_round, dns_loop, Polled, poll_stream,
}
use pcap_analyzer.Decode.AppDecoder.Flows.{
  Entries, find_entry, put_entry, app_state_for, poll_side, entry_after, or_empty, with_side, side,
  poll_flow, poll_datagram, poll,
}
use pcap_analyzer.Decode.AppDecoder.Limits.{IsBounded, http_loop-BothBounded}

take_dns-IsBounded :
    (r : Result (Dns.Header × ℕ)) (a : Applications) (t : DnsTable)
    → IsBounded a
    → IsBounded (take_dns r a t).0
unfolding take_dns
take_dns-IsBounded (err code) a t l = l
take_dns-IsBounded (ok (header, end)) a t l = l

dns_loop-IsBounded :
    (fuel : ℕ) (s : DnsStream) → IsBounded s.applications → IsBounded (dns_loop fuel s).applications
unfolding dns_loop dns_round
dns_loop-IsBounded zero s l = l
dns_loop-IsBounded (suc fuel) s l =
    let len = msg_len (peek s.stream) in
    let r = Dns.parse (take len (drop 2 (peek s.stream))) Endian.big in
    ground (
      arith,
      dns_loop-IsBounded fuel (dns_round s len) (take_dns-IsBounded r s.applications s.dns_table l),
    )

abbrev PolledBounded : Polled → Type 0
PolledBounded s = IsBounded s.applications × IsBounded s.peer_state

poll_stream-PolledBounded :
    (key : FlowKey) (s : Polled) → PolledBounded s → PolledBounded (poll_stream key s)
unfolding poll_stream
poll_stream-PolledBounded key s (l, m) =
    let fuel = available s.stream + 1 in
    ground (
      arith,
      dns_loop-IsBounded fuel
          (record { stream = s.stream; applications = s.applications; dns_table = s.dns_table }) l,
      http_loop-BothBounded fuel
          (record { stream = s.stream; applications = s.applications; peer_state = s.peer_state })
          (l, m),
    )

abbrev pub EntryBounded : FlowApplications → Type 0
EntryBounded entry = IsBounded entry.fwd × IsBounded entry.rev

abbrev pub AllBounded : Entries → Type 0
AllBounded [] = Unit {0}
AllBounded ((k, entry) ∷ rest) = EntryBounded entry × AllBounded rest

or_empty-EntryBounded :
    (key : FlowKey) (l : Entries) → AllBounded l → EntryBounded (or_empty (find_entry key l))
unfolding find_entry
or_empty-EntryBounded key [] h = (omega arith, omega arith)
or_empty-EntryBounded key ((k, b) ∷ rest) (h, hs) = elim (Bool-cases (equals k key)) [
  | inl n ↦ rw (n, find_entry) h
  | inr n ↦ rw (n, find_entry) (or_empty-EntryBounded key rest hs)
]

app_state_for-EntryBounded :
    (key : FlowKey) (is_new : Bool) (l : Entries)
    → AllBounded l
    → EntryBounded (app_state_for key is_new l)
unfolding app_state_for
app_state_for-EntryBounded key true l h = (omega arith, omega arith)
app_state_for-EntryBounded key false l h = or_empty-EntryBounded key l h

put_entry-AllBounded :
    (key : FlowKey) (entry : FlowApplications) (l : Entries)
    → EntryBounded entry
    → AllBounded l
    → AllBounded (put_entry key entry l)
unfolding put_entry
put_entry-AllBounded key entry [] b h = (b, tt)
put_entry-AllBounded key entry ((k, c) ∷ rest) b (h, hs) = elim (Bool-cases (equals k key)) [
  | inl n ↦ rw (n, put_entry) (b, hs)
  | inr n ↦ rw (n, put_entry) (h, put_entry-AllBounded key entry rest b hs)
]

poll_side-PolledBounded :
    (key : FlowKey) (sides : Connection) (reverse : Bool) (entry : FlowApplications)
    (d : AppDecoder)
    → EntryBounded entry
    → EntryBounded (entry_after reverse (poll_side key sides reverse entry d))
poll_side-PolledBounded key sides true entry d (l, m) =
    let p =
      poll_stream-PolledBounded key
        (record {
          stream = sides.rev;
          applications = entry.rev;
          peer_state = entry.fwd;
          dns_table = d.dns_table;
        })
        (m, l) in
    (p.1, p.0)
poll_side-PolledBounded key sides false entry d l =
    poll_stream-PolledBounded key
      (record {
        stream = sides.fwd;
        applications = entry.fwd;
        peer_state = entry.rev;
        dns_table = d.dns_table;
      })
      l

poll_flow-AllBounded :
    (key : FlowKey) (flow : Flow) (is_new : Bool) (d : AppDecoder)
    → AllBounded d.flows
    → AllBounded (poll_flow key flow is_new d).1.flows
unfolding poll_flow
poll_flow-AllBounded key flow is_new d h =
    let entry = app_state_for key is_new d.flows in
    let p = poll_side key flow.sides flow.is_reverse entry d in
    let b =
      poll_side-PolledBounded key flow.sides flow.is_reverse entry d
        (app_state_for-EntryBounded key is_new d.flows h) in
    ground (arith, put_entry-AllBounded key (entry_after flow.is_reverse p) d.flows b h)

with_side-EntryBounded :
    (reverse : Bool) (a : Applications) (entry : FlowApplications)
    → IsBounded a
    → EntryBounded entry
    → EntryBounded (with_side reverse a entry)
with_side-EntryBounded true a entry l h = (h.0, l)
with_side-EntryBounded false a entry l h = (l, h.1)

side-IsBounded :
    (reverse : Bool) (entry : FlowApplications)
    → EntryBounded entry
    → IsBounded (side reverse entry)
side-IsBounded true entry h = h.1
side-IsBounded false entry h = h.0

poll_datagram-AllBounded :
    (key : FlowKey) (flow : Flow) (payload : List ℕ) (is_new : Bool) (d : AppDecoder)
    → AllBounded d.flows
    → AllBounded (poll_datagram key flow payload is_new d).flows
unfolding poll_datagram
poll_datagram-AllBounded key flow payload is_new d h =
    let entry = app_state_for key is_new d.flows in
    let r = Dns.parse payload Endian.big in
    let e = app_state_for-EntryBounded key is_new d.flows h in
    let a = (take_dns r (side flow.is_reverse entry) d.dns_table).0 in
    let l =
      take_dns-IsBounded r (side flow.is_reverse entry) d.dns_table
        (side-IsBounded flow.is_reverse entry e) in
    ground (
      arith,
      put_entry-AllBounded key (with_side flow.is_reverse a entry) d.flows
          (with_side-EntryBounded flow.is_reverse a entry l e) h,
    )

-- A poll keeps the bound on what is remembered: if in no direction of any flow more than
-- MAX_PENDING_REQUESTS requests wait for their response, this holds after the poll too, whatever the
-- packet, the flow and the bytes in it.
pub poll-AllBounded :
    (key : FlowKey) (flow : Flow) (is_new : Bool) (pkt : Packet) (d : AppDecoder)
    → AllBounded d.flows
    → AllBounded (poll key flow is_new pkt d).1.flows
unfolding poll
poll-AllBounded key flow is_new pkt d h = by_transport pkt.transport refl
  where
    by_transport :
        (t : TransportHeader) → pkt.transport ≡ t → AllBounded (poll key flow is_new pkt d).1.flows
    by_transport no_transport e = rw (e, poll) h
    by_transport (tcp header) e = rw (e, poll) (poll_flow-AllBounded key flow is_new d h)
    by_transport (udp header) e =
        rw (e, poll) (poll_datagram-AllBounded key flow pkt.payload is_new d h)
    by_transport (icmp header) e = rw (e, poll) h
    by_transport (icmpv6 header) e = rw (e, poll) h
