-- ===== src/Cli/Options.antt =====
-- The options of src/cli/cli.cpp and what sets those with a value.
use pcap_analyzer.Prelude.{
  ℕ, ◌*◌, ◌/◌, Bool, true, false, not, ◌&&◌, ◌==◌, if◌then◌else◌, List, [], ◌++◌, length, replicate,
  Option, none, some,
}
use pcap_analyzer.Util.Text.{parse_uint}
use pcap_analyzer.Protocols.Addresses.{v4_from_string, v6_from_string, protocol_from_name}
use pcap_analyzer.Flow.FlowKey.{FlowKey}
use pcap_analyzer.Flow.FlowTable.{blank_key}

-- `config` is a part of the record; `idle_timeout_us`, which is never read, is left out.
pub record Options : Type 0 where
  pub path : List ℕ
  pub show_flows : Bool
  pub show_http : Bool
  pub show_dns : Bool
  pub show_summary : Bool
  pub show_bench : Bool
  pub show_packets : Bool
  pub json : Bool
  pub out_dir : List ℕ
  pub print_limit : ℕ
  pub verify_checksum : Bool
  pub flow_active_timeout_us : ℕ
  pub flow_idle_timeout_us : ℕ
  pub filter : FlowKey
  pub help : Bool
  pub version : Bool

abbrev pub default_options : Options
default_options = record {
  path = [];
  show_flows = false;
  show_http = false;
  show_dns = false;
  show_summary = false;
  show_bench = false;
  show_packets = false;
  json = false;
  out_dir = [];
  print_limit = 0;
  verify_checksum = true;
  flow_active_timeout_us = 0;
  flow_idle_timeout_us = 30000000;
  filter = blank_key;
  help = false;
  version = false;
}

-- The options so far, and the local `ip_version`.
pub record State : Type 0 where
  pub out : Options
  pub ip_version : ℕ

abbrev pub u64_max : ℕ
u64_max = 18446744073709551615

abbrev pub padded : Option (List ℕ) → Option (Bool × List ℕ)
padded none = none
padded (some ip) = some (false, ip)

unfoldable pub parse_filter_ip : List ℕ → Option (Bool × List ℕ)
unfolding v4_from_string v6_from_string
parse_filter_ip text = elim (v4_from_string text) [
  | some ip ↦ some (true, ip ++ replicate 12 0)
  | none ↦ padded (v6_from_string text)
]

unfoldable pub set_out_dir : State → List ℕ → Option State
set_out_dir s v =
    if length v == 0 then none else some (record s { out = record s.out { out_dir = v } })

unfoldable pub set_limit : State → List ℕ → Option State
unfolding parse_uint
set_limit s v = elim (parse_uint v u64_max) [
  | none ↦ none
  | some value ↦ some (record s { out = record s.out { print_limit = value } })
]

unfoldable pub set_timeout : State → List ℕ → Option State
unfolding parse_uint
set_timeout s v = elim (parse_uint v (u64_max / 1000000)) [
  | none ↦ none
  | some sec ↦ some (record s { out = record s.out { flow_active_timeout_us = sec * 1000000 } })
]

unfoldable pub set_idle : State → List ℕ → Option State
unfolding parse_uint
set_idle s v = elim (parse_uint v (u64_max / 1000000)) [
  | none ↦ none
  | some sec ↦ some (record s { out = record s.out { flow_idle_timeout_us = sec * 1000000 } })
]

-- The filter with the address of one end; `is_dst` is `arg[2] == 'd'`.
abbrev pub with_ip : FlowKey → Bool → Bool → List ℕ → FlowKey
with_ip f is_ipv4 true ip = record f { is_ipv4 = is_ipv4; dst_ip = ip }
with_ip f is_ipv4 false ip = record f { is_ipv4 = is_ipv4; src_ip = ip }

abbrev pub version_of : Bool → ℕ
version_of true = 4
version_of false = 6

unfoldable pub set_ip : State → Bool → Option (Bool × List ℕ) → Option State
set_ip s is_dst none = none
set_ip s is_dst (some (is_ipv4, ip)) =
    if not (s.ip_version == 0) && not (s.ip_version == version_of is_ipv4)
    then none
    else some (record {
      out = record s.out { filter = with_ip s.out.filter is_ipv4 is_dst ip };
      ip_version = version_of is_ipv4;
    })

abbrev pub with_port : FlowKey → Bool → ℕ → FlowKey
with_port f true port = record f { dst_port = port }
with_port f false port = record f { src_port = port }

unfoldable pub set_port : State → Bool → List ℕ → Option State
unfolding parse_uint
set_port s is_dst v = elim (parse_uint v 65535) [
  | none ↦ none
  | some value ↦
      if value == 0
      then none
      else some (record s { out = record s.out { filter = with_port s.out.filter is_dst value } })
]

unfoldable pub set_proto : State → List ℕ → Option State
unfolding protocol_from_name
set_proto s v = elim (protocol_from_name v) [
  | none ↦ none
  | some proto ↦
      if proto == 0
      then none
      else some
          (record s { out = record s.out { filter = record s.out.filter { protocol = proto } } })
]
