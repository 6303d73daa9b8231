-- ===== src/Flow/FlowTable.antt =====
-- include/net/flow/flow_table.h and src/net/flow/flow_table.cpp: the table of flows. The hash map is
-- a list of its entries, in some order; the application state of a flow belongs to the decoder of
-- the applications. Counting and Lookup prove.
use pcap_analyzer.Prelude.{
  ℕ, ◌+◌, ◌*◌, ◌/◌, ◌%◌, Bool, true, false, not, ◌&&◌, ◌||◌, ◌==◌, ltb, if◌then◌else◌, List, [],
  ◌∷◌, ◌++◌, replicate, Option, none, some, add64, sub64, u16_mod,
}
use pcap_analyzer.Util.ParseError.{
  Result, ok, err, ◌>>=◌, unsupported_network_type, unsupported_transport_type,
}
use pcap_analyzer.Protocols.Icmp
use pcap_analyzer.Protocols.Icmpv6
use pcap_analyzer.Decode.Packet.{
  NetworkHeader, no_network, ipv4, ipv6, arp, TransportHeader, no_transport, tcp, udp, icmp, icmpv6,
  Packet, is_arp, protocol_tcp, protocol_udp, protocol_icmp, protocol_icmpv6,
}
use pcap_analyzer.Flow.TcpReassembler.State.{Reassembler, init}
use pcap_analyzer.Flow.Connection.{Connection}
use pcap_analyzer.Flow.FlowKey.{FlowKey, equals, normalize}
pub mod Lookup
pub mod Counting
pub mod Filing
pub mod Histories
pub mod Expiry

pub record FlowStats : Type 0 where
  pub packets : ℕ
  pub bytes : ℕ

-- `sides` holds `fwd_tcp` and `rev_tcp`.
pub record Flow : Type 0 where
  pub first_seen : ℕ
  pub last_seen : ℕ
  pub fwd_stats : FlowStats
  pub rev_stats : FlowStats
  pub sides : Connection
  pub is_reverse : Bool

pub record FlowTable : Type 0 where
  pub active_timeout_us : ℕ
  pub idle_timeout_us : ℕ
  pub total_bytes : ℕ
  pub flows : List (FlowKey × Flow)
  pub completed : List (FlowKey × Flow)

-- What `addPacket` reads of a capture.
pub record Capture : Type 0 where
  pub pkt : Packet
  pub incl_len : ℕ
  pub ts_us : ℕ

abbrev pub dns_port : ℕ
dns_port = 53

abbrev pub http_port : ℕ
http_port = 80

unfoldable pub port_has_app_decoder : FlowKey → Bool
port_has_app_decoder key =
    key.src_port == dns_port
    || key.dst_port == dns_port
    || key.src_port == http_port
    || key.dst_port == http_port

abbrev pub blank_key : FlowKey
blank_key = record {
  is_ipv4 = false;
  src_ip = replicate 16 0;
  dst_ip = replicate 16 0;
  src_port = 0;
  dst_port = 0;
  protocol = 0;
}

-- The four bytes of an IPv4 address at the front of the array.
abbrev pub address_bytes : ℕ → List ℕ
address_bytes ip =
    ip / 16777216 % 256 ∷ ip / 65536 % 256 ∷ ip / 256 % 256 ∷ ip % 256 ∷ replicate 12 0

-- `none` stands for `false`.
unfoldable pub set_network : NetworkHeader → FlowKey → Option FlowKey
set_network no_network out = none
set_network (ipv4 h) out = some (record out {
  src_ip = address_bytes h.src_ip;
  dst_ip = address_bytes h.dst_ip;
  is_ipv4 = true;
})
set_network (ipv6 h) out =
    some (record out { src_ip = h.src_ip; dst_ip = h.dst_ip; is_ipv4 = false })
set_network (arp h) out = none

-- `static_cast<uint16_t>(h.type << 8) | h.code`
abbrev type_and_code : ℕ → ℕ → ℕ
type_and_code type code = type * 256 % u16_mod + code

unfoldable pub set_ports : TransportHeader → FlowKey → Option FlowKey
set_ports no_transport out = none
set_ports (tcp h) out =
    some (record out { src_port = h.src_port; dst_port = h.dst_port; protocol = protocol_tcp })
set_ports (udp h) out =
    some (record out { src_port = h.src_port; dst_port = h.dst_port; protocol = protocol_udp })
set_ports (icmp h) out =
    let ports : ℕ × ℕ =
      if Icmp.is_echo h.type
      then (Icmp.echo_id h.body, Icmp.echo_id h.body)
      else (type_and_code h.type h.code, 0) in
    some (record out { src_port = ports.0; dst_port = ports.1; protocol = protocol_icmp })
set_ports (icmpv6 h) out =
    let ports : ℕ × ℕ =
      if Icmpv6.is_echo h.type
      then (Icmpv6.echo_id h.body, Icmpv6.echo_id h.body)
      else (type_and_code h.type h.code, 0) in
    some (record out { src_port = ports.0; dst_port = ports.1; protocol = protocol_icmpv6 })

unfoldable pub key_from_packet : Packet → Result FlowKey
unfolding set_network set_ports
key_from_packet pkt = elim (set_network pkt.network blank_key) [
  | none ↦ err unsupported_network_type
  | some key ↦ elim (set_ports pkt.transport key) [
    | none ↦ err unsupported_transport_type
    | some out ↦ ok out
  ]
]

-- `flows_.find`, `flows_.erase` and the write to the entry of a key, which is new when there is none.
unfoldable pub find : FlowKey → List (FlowKey × Flow) → Option Flow
find key [] = none
find key ((k, f) ∷ rest) = let later = find key rest in if equals k key then some f else later

unfoldable pub erase : FlowKey → List (FlowKey × Flow) → List (FlowKey × Flow)
erase key [] = []
erase key ((k, f) ∷ rest) =
    let later = erase key rest in if equals k key then rest else (k, f) ∷ later

unfoldable pub put : FlowKey → Flow → List (FlowKey × Flow) → List (FlowKey × Flow)
put key flow [] = (key, flow) ∷ []
put key flow ((k, f) ∷ rest) =
    let later = put key flow rest in if equals k key then (k, flow) ∷ rest else (k, f) ∷ later

unfoldable pub is_expired : FlowTable → Flow → ℕ → Bool
unfolding sub64
is_expired t flow ts_us =
    if ltb ts_us flow.last_seen
    then false
    else ltb t.idle_timeout_us (sub64 ts_us flow.last_seen)
      || (not (t.active_timeout_us == 0) && ltb t.active_timeout_us (sub64 ts_us flow.first_seen))

abbrev pub no_stats : FlowStats
no_stats = record { packets = 0; bytes = 0 }

-- `try_emplace` and the initialisation of a flow: payload is kept only where a decoder reads it.
unfoldable pub new_flow : FlowKey → ℕ → Flow
unfolding port_has_app_decoder
new_flow key ts_us =
    let side : Reassembler = record init { keep_payload = port_has_app_decoder key } in
    record {
      first_seen = ts_us;
      last_seen = 0;
      fwd_stats = no_stats;
      rev_stats = no_stats;
      sides = record { fwd = side; rev = side };
      is_reverse = false;
    }

abbrev pub count : FlowStats → ℕ → FlowStats
count s incl_len = record { packets = add64 s.packets 1; bytes = add64 s.bytes incl_len }

-- The end of `addPacket`: the packet is counted in its direction.
unfoldable pub touch : Flow → Bool → Capture → Flow
unfolding add64
touch flow reversed capture =
    if reversed
    then record flow {
      last_seen = capture.ts_us;
      is_reverse = true;
      rev_stats = count flow.rev_stats capture.incl_len;
    }
    else record flow {
      last_seen = capture.ts_us;
      is_reverse = false;
      fwd_stats = count flow.fwd_stats capture.incl_len;
    }

-- An expired flow is moved to the completed ones.
unfoldable pub retire : FlowTable → FlowKey → ℕ → FlowTable
unfolding find erase is_expired
retire t key ts_us = elim (find key t.flows) [
  | none ↦ t
  | some flow ↦
      if is_expired t flow ts_us
      then record t { completed = t.completed ++ (key, flow) ∷ []; flows = erase key t.flows }
      else t
]

-- The flow of a key, and whether it is new.
unfoldable pub flow_of : FlowTable → FlowKey → ℕ → Flow × Bool
unfolding find new_flow
flow_of t key ts_us = elim (find key t.flows) [
  | none ↦ (new_flow key ts_us, true)
  | some flow ↦ (flow, false)
]

-- `addPacket` for a key that is normalized: the table and `out_is_new`.
unfoldable pub file_packet : FlowTable → FlowKey → Bool → Capture → FlowTable × Bool
unfolding retire flow_of put touch add64
file_packet t key reversed capture =
    let t' : FlowTable =
      retire (record t { total_bytes = add64 t.total_bytes capture.incl_len }) key capture.ts_us in
    let (flow, is_new) = flow_of t' key capture.ts_us in
    (record t' { flows = put key (touch flow reversed capture) t'.flows }, is_new)

-- What a successful call says of the packet: it has no flow, or the key of its flow and whether the
-- flow is new.
pub data Filed : Type 0 where
  no_flow : Filed
  filed : FlowKey → Bool → Filed

-- On an error the table is left as it was.
unfoldable pub add_packet : FlowTable → Capture → Result (FlowTable × Filed)
unfolding key_from_packet normalize file_packet
add_packet t capture =
    if is_arp capture.pkt.network
    then ok (t, no_flow)
    else key_from_packet capture.pkt >>= λ key.
        let (normal, reversed) = normalize key in
        let (t', is_new) = file_packet t normal reversed capture in ok (t', filed normal is_new)

unfoldable pub flush : FlowTable → FlowTable
flush t = record t { completed = t.completed ++ t.flows; flows = [] }
