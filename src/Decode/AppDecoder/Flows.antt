-- ===== src/Decode/AppDecoder/Flows.antt =====
-- The decoder's state for each flow, src/net/decode/app_decoder.cpp. The pointer `app_state` of a flow
-- is null or points to the entry of the flow's key, so it is that entry.
use pcap_analyzer.Prelude.{
  ℕ, Bool, true, false, not, ◌&&◌, ◌||◌, ◌==◌, if◌then◌else◌, List, [], ◌∷◌, length, Option, none,
  some,
}
use pcap_analyzer.Util.Endian.{Endian}
use pcap_analyzer.Protocols.Dns as Dns
use pcap_analyzer.Protocols.Http.Header as Http
use pcap_analyzer.Flow.Connection.{Connection}
use pcap_analyzer.Flow.FlowKey.{FlowKey, equals}
use pcap_analyzer.Flow.FlowTable.{Flow, FlowTable, find}
use pcap_analyzer.Decode.Packet.{Packet, tcp, udp}
use pcap_analyzer.Decode.AppDecoder.State.{
  Applications, FlowApplications, AppDecoder, empty_applications,
}
use pcap_analyzer.Decode.AppDecoder.Streams.{has_port, take_dns, Polled, poll_stream}

abbrev pub Entries : Type 0
Entries = List (FlowKey × FlowApplications)

unfoldable pub find_entry : FlowKey → Entries → Option FlowApplications
unfolding equals
find_entry key [] = none
find_entry key ((k, a) ∷ rest) =
    let later = find_entry key rest in if equals k key then some a else later

unfoldable pub put_entry : FlowKey → FlowApplications → Entries → Entries
unfolding equals
put_entry key a [] = (key, a) ∷ []
put_entry key a ((k, b) ∷ rest) =
    let later = put_entry key a rest in if equals k key then (k, a) ∷ rest else (k, b) ∷ later

unfoldable pub erase_entry : FlowKey → Entries → Entries
unfolding equals
erase_entry key [] = []
erase_entry key ((k, a) ∷ rest) =
    let later = erase_entry key rest in if equals k key then rest else (k, a) ∷ later

abbrev pub empty_entry : FlowApplications
empty_entry = record { fwd = empty_applications; rev = empty_applications }

abbrev pub or_empty : Option FlowApplications → FlowApplications
or_empty none = empty_entry
or_empty (some a) = a

-- The entry of a key; for a new flow it is blank.
unfoldable pub app_state_for : FlowKey → Bool → Entries → FlowApplications
unfolding find_entry
app_state_for key is_new flows = if is_new then empty_entry else or_empty (find_entry key flows)

-- The direction that the packet belongs to, and the other one.
abbrev pub poll_side : FlowKey → Connection → Bool → FlowApplications → AppDecoder → Polled
poll_side key sides true a d = poll_stream key (record {
  stream = sides.rev;
  applications = a.rev;
  peer_state = a.fwd;
  dns_table = d.dns_table;
})
poll_side key sides false a d = poll_stream key (record {
  stream = sides.fwd;
  applications = a.fwd;
  peer_state = a.rev;
  dns_table = d.dns_table;
})

abbrev sides_after : Connection → Bool → Polled → Connection
sides_after sides true p = record sides { rev = p.stream }
sides_after sides false p = record sides { fwd = p.stream }

abbrev pub entry_after : Bool → Polled → FlowApplications
entry_after true p = record { fwd = p.peer_state; rev = p.applications }
entry_after false p = record { fwd = p.applications; rev = p.peer_state }

unfoldable pub poll_flow : FlowKey → Flow → Bool → AppDecoder → Flow × AppDecoder
unfolding poll_stream app_state_for put_entry
poll_flow key flow is_new d =
    let p = poll_side key flow.sides flow.is_reverse (app_state_for key is_new d.flows) d in
    if not (has_port Dns.port key) && not (has_port Http.port key) then (flow, d) else (
      record flow { sides = sides_after flow.sides flow.is_reverse p },
      record {
        flows = put_entry key (entry_after flow.is_reverse p) d.flows;
        dns_table = p.dns_table;
      },
    )

abbrev pub with_side : Bool → Applications → FlowApplications → FlowApplications
with_side true a entry = record entry { rev = a }
with_side false a entry = record entry { fwd = a }

abbrev pub side : Bool → FlowApplications → Applications
side true entry = entry.rev
side false entry = entry.fwd

unfoldable pub poll_datagram : FlowKey → Flow → List ℕ → Bool → AppDecoder → AppDecoder
unfolding app_state_for put_entry take_dns Dns.parse
poll_datagram key flow payload is_new d =
    let entry = app_state_for key is_new d.flows in
    let (a, t) = take_dns (Dns.parse payload Endian.big) (side flow.is_reverse entry) d.dns_table in
    if length payload == 0 || not (has_port Dns.port key)
    then d
    else record { flows = put_entry key (with_side flow.is_reverse a entry) d.flows; dns_table = t }

-- The polls of `Decoder::decode`.
unfoldable pub poll : FlowKey → Flow → Bool → Packet → AppDecoder → Flow × AppDecoder
unfolding poll_flow poll_datagram
poll key flow is_new pkt d = elim pkt.transport [
  | tcp header ↦ poll_flow key flow is_new d
  | udp header ↦ (flow, poll_datagram key flow pkt.payload is_new d)
  | _ ↦ (flow, d)
]

-- `AppDecoder::reset`
unfoldable pub forget : FlowKey → AppDecoder → AppDecoder
unfolding erase_entry
forget key d = record d { flows = erase_entry key d.flows }

unfoldable pub prune_entries : FlowTable → Entries → Entries
unfolding find
prune_entries table [] = []
prune_entries table ((k, a) ∷ rest) =
    let later = prune_entries table rest in
    elim (find k table.flows) [ none ↦ later | some flow ↦ (k, a) ∷ later ]

unfoldable pub prune : FlowTable → AppDecoder → AppDecoder
unfolding prune_entries
prune table d = record d { flows = prune_entries table d.flows }

abbrev side_of : Bool → Option FlowApplications → Option Applications
side_of is_reverse none = none
side_of is_reverse (some entry) = some (side is_reverse entry)

unfoldable pub get_applications : FlowKey → Bool → AppDecoder → Option Applications
unfolding find_entry
get_applications key is_reverse d = side_of is_reverse (find_entry key d.flows)
