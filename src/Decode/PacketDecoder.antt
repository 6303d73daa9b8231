-- ===== src/Decode/PacketDecoder.antt =====
-- src/net/decode/packet_decoder.cpp: the layers of one frame. On an error the packet is dropped, so
-- what an unfinished call has written into it is not modelled.
use pcap_analyzer.Prelude.{
  ℕ, zero, suc, ◌-◌, Bool, true, false, ◌&&◌, ◌||◌, ◌==◌, if◌then◌else◌, List, [], ◌∷◌, ◌++◌,
  length,
}
use pcap_analyzer.Util.ParseError.{
  Result, ok, err, ◌>>=◌, ◌>>◌, fail_if, malformed_header, invalid_field_value,
  unsupported_linktype, unsupported_network_type, unsupported_transport_type,
}
use pcap_analyzer.Util.Endian.{Endian}
use pcap_analyzer.Protocols.Ethernet
use pcap_analyzer.Protocols.Vlan
use pcap_analyzer.Protocols.Ipv4
use pcap_analyzer.Protocols.Ipv6
use pcap_analyzer.Protocols.Ipv6Ext
use pcap_analyzer.Protocols.Arp
use pcap_analyzer.Protocols.Tcp
use pcap_analyzer.Protocols.Udp
use pcap_analyzer.Protocols.Icmp
use pcap_analyzer.Protocols.Icmpv6
use pcap_analyzer.Decode.Packet.{
  DataLinkHeader, no_datalink, ethernet, NetworkHeader, no_network, ipv4, ipv6, arp,
  TransportHeader, no_transport, tcp, udp, icmp, icmpv6, Packet, set_network_from_ethertype,
  set_transport_from_protocol, is_arp,
}

abbrev pub is_vlan : ℕ → Bool
is_vlan ethertype = ethertype == Ethernet.ethertype_vlan || ethertype == Ethernet.ethertype_vlan_qq

-- The loop over VLAN tags. `room` is how many tags still fit, MAX_TAGS less the tags so far.
unfoldable pub decode_tags :
    ℕ → List ℕ → ℕ → List Vlan.Header → Result (ℕ × List Vlan.Header × List ℕ)
decode_tags zero span ethertype tags =
    if is_vlan ethertype then err malformed_header else ok (ethertype, tags, span)
decode_tags (suc room) span ethertype tags =
    if is_vlan ethertype
    then (Vlan.parse span Endian.big >>= λ r. decode_tags room r.1 r.0.ethertype (tags ++ r.0 ∷ []))
    else ok (ethertype, tags, span)

unfoldable pub decode_ethernet : List ℕ → Packet → Result (Packet × List ℕ)
unfolding decode_tags set_network_from_ethertype
decode_ethernet span out = do
  (eth, after_eth) ← Ethernet.parse span Endian.big
  (ethertype, tags, rest) ←
      decode_tags (Vlan.max_tags - length out.vlan_tags) after_eth eth.ethertype out.vlan_tags
  let out' : Packet = record out {
    datalink = ethernet (record eth { ethertype = ethertype });
    vlan_tags = tags;
  }
  ok (set_network_from_ethertype out' ethertype, rest)

unfoldable pub layer2_of : DataLinkHeader → List ℕ → Packet → Result (Packet × List ℕ)
unfolding decode_ethernet
layer2_of (ethernet _) span out = decode_ethernet span out
layer2_of no_datalink span out = err unsupported_linktype

abbrev pub decode_layer2 : List ℕ → Packet → Result (Packet × List ℕ)
decode_layer2 span out = layer2_of out.datalink span out

-- What the loop over extension headers ends with: a fragment, or the protocol behind the chain.
pub data Chain : Type 0 where
  fragment : List Ipv6Ext.Header → List ℕ → Chain
  upper : ℕ → List Ipv6Ext.Header → List ℕ → Chain

abbrev pub non_empty : List Ipv6Ext.Header → Bool
non_empty [] = false
non_empty (e ∷ es) = true

-- `room` is how many extension headers still fit, MAX_HEADERS less those so far.
unfoldable pub decode_exts : ℕ → List ℕ → ℕ → List Ipv6Ext.Header → Result Chain
decode_exts zero span next_header exts =
    if Ipv6Ext.is_extension next_header
    then err malformed_header
    else ok (upper next_header exts span)
decode_exts (suc room) span next_header exts =
    if Ipv6Ext.is_extension next_header
    then fail_if (next_header == Ipv6Ext.protocol_hopopt && non_empty exts) invalid_field_value
      >> (Ipv6Ext.parse span next_header Endian.big >>= λ r.
          if Ipv6Ext.is_fragment r.0
          then ok (fragment (exts ++ r.0 ∷ []) r.1)
          else decode_exts room r.1 r.0.next_header (exts ++ r.0 ∷ []))
    else ok (upper next_header exts span)

-- A fragment leaves the transport header unset.
unfoldable pub after_chain : Packet → Chain → Packet × List ℕ
unfolding set_transport_from_protocol
after_chain out (fragment exts rest) = (record out { ipv6_ext = exts }, rest)
after_chain out (upper protocol exts rest) =
    (set_transport_from_protocol (record out { ipv6_ext = exts }) protocol, rest)

unfoldable pub layer3_of : NetworkHeader → List ℕ → Packet → Bool → Result (Packet × List ℕ)
unfolding decode_exts after_chain set_transport_from_protocol
layer3_of no_network span out verify = err unsupported_network_type
layer3_of (ipv4 _) span out verify = do
  (v4, rest) ← Ipv4.parse span Endian.big verify
  ok (set_transport_from_protocol (record out { network = ipv4 v4 }) v4.protocol, rest)
layer3_of (ipv6 _) span out verify = do
  (v6, rest) ← Ipv6.parse span Endian.big
  chain ← decode_exts (Ipv6Ext.max_headers - length out.ipv6_ext) rest v6.next_header out.ipv6_ext
  ok (after_chain (record out { network = ipv6 v6 }) chain)
layer3_of (arp _) span out verify = do
  (header, rest) ← Arp.parse span Endian.big
  ok (record out { network = arp header }, rest)

abbrev pub decode_layer3 : List ℕ → Packet → Bool → Result (Packet × List ℕ)
decode_layer3 span out verify = layer3_of out.network span out verify

unfoldable pub transport_v4 :
    TransportHeader → List ℕ → Ipv4.Header → Bool → Result (TransportHeader × List ℕ)
transport_v4 no_transport span ip verify = err unsupported_transport_type
transport_v4 (tcp _) span ip verify = do
  (h, rest) ← Tcp.parse_v4 span ip Endian.big verify
  ok (tcp h, rest)
transport_v4 (udp _) span ip verify = do
  (h, rest) ← Udp.parse_v4 span ip Endian.big verify
  ok (udp h, rest)
transport_v4 (icmp _) span ip verify = do
  (h, rest) ← Icmp.parse span Endian.big verify
  ok (icmp h, rest)
transport_v4 (icmpv6 _) span ip verify = err unsupported_transport_type

unfoldable pub transport_v6 :
    TransportHeader → List ℕ → Ipv6.Header → Bool → Result (TransportHeader × List ℕ)
transport_v6 no_transport span ip verify = err unsupported_transport_type
transport_v6 (tcp _) span ip verify = do
  (h, rest) ← Tcp.parse_v6 span ip Endian.big verify
  ok (tcp h, rest)
transport_v6 (udp _) span ip verify = do
  (h, rest) ← Udp.parse_v6 span ip Endian.big verify
  ok (udp h, rest)
transport_v6 (icmp _) span ip verify = err unsupported_transport_type
transport_v6 (icmpv6 _) span ip verify = do
  (h, rest) ← Icmpv6.parse span ip Endian.big verify
  ok (icmpv6 h, rest)

-- The header that the upper layers' checksums cover.
unfoldable pub upper_header : Ipv6.Header → List Ipv6Ext.Header → ℕ → Ipv6.Header
upper_header fixed [] size = fixed
upper_header fixed (ext ∷ exts) size = Ipv6Ext.pseudo_header fixed (ext ∷ exts) size

unfoldable pub layer4_of : NetworkHeader → List ℕ → Packet → Bool → Result (Packet × List ℕ)
unfolding transport_v4 transport_v6 upper_header
layer4_of no_network span out verify = err unsupported_transport_type
layer4_of (ipv4 ip) span out verify = do
  (transport, rest) ← transport_v4 out.transport span ip verify
  ok (record out { transport = transport }, rest)
layer4_of (ipv6 fixed) span out verify = do
  (transport, rest) ←
      transport_v6 out.transport span (upper_header fixed out.ipv6_ext (length span)) verify
  ok (record out { transport = transport }, rest)
layer4_of (arp _) span out verify = ok (out, span)

abbrev pub decode_layer4 : List ℕ → Packet → Bool → Result (Packet × List ℕ)
decode_layer4 span out verify = layer4_of out.network span out verify

-- The payload is what is left of the frame behind the transport header.
unfoldable pub finish_packet : Packet → List ℕ → Bool → Result Packet
unfolding layer4_of
finish_packet out span verify = elim (is_arp out.network) [
  | true ↦ ok out
  | false ↦ decode_layer4 span out verify >>= λ r. ok (record r.0 { payload = r.1 })
]

unfoldable pub decode_packet : List ℕ → Packet → Bool → Result Packet
unfolding layer2_of layer3_of finish_packet
decode_packet span out verify = do
  (out2, span2) ← decode_layer2 span out
  (out3, span3) ← decode_layer3 span2 out2 verify
  finish_packet out3 span3 verify
