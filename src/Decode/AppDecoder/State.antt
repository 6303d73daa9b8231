-- ===== src/Decode/AppDecoder/State.antt =====
-- include/net/decode/app_decoder.h: what the decoder keeps for each direction of a flow.
use pcap_analyzer.Prelude.{ℕ, Bool, false, List, []}
use pcap_analyzer.Protocols.Dns as Dns
use pcap_analyzer.Protocols.Http.Header as Http
use pcap_analyzer.Flow.FlowKey.{FlowKey}
use pcap_analyzer.Analysis.DnsTable.{DnsTable}

abbrev pub max_http_header_bytes : ℕ
max_http_header_bytes = 32768

abbrev pub max_http_message_bytes : ℕ
max_http_message_bytes = 8388608

abbrev pub max_pending_requests : ℕ
max_pending_requests = 1024

pub record Applications : Type 0 where
  pub decode_failures : ℕ
  pub http_bodies_skipped : ℕ
  pub dns_messages : List Dns.Header
  pub http_messages : List Http.Header
  pub http_chunk_prefix : ℕ
  pub http_resync_scanned : ℕ
  pub http_skip : ℕ
  pub pending_head_requests : List Bool
  pub http_body_until_close : Bool

abbrev pub empty_applications : Applications
empty_applications = record {
  decode_failures = 0;
  http_bodies_skipped = 0;
  dns_messages = [];
  http_messages = [];
  http_chunk_prefix = 0;
  http_resync_scanned = 0;
  http_skip = 0;
  pending_head_requests = [];
  http_body_until_close = false;
}

pub record FlowApplications : Type 0 where
  pub fwd : Applications
  pub rev : Applications

-- The map of flows is a list of its entries, in some order. The table of DNS names, which the source
-- holds by reference, is a part of the state.
pub record AppDecoder : Type 0 where
  pub flows : List (FlowKey × FlowApplications)
  pub dns_table : DnsTable
