-- ===== src/Witnesses/Arguments.antt =====
-- A command line, src/cli/cli.cpp, and the address in it.
use pcap_analyzer.Prelude.{ℕ, ◌≡◌, refl, true, List, [], ◌∷◌, replicate, some, sub64, arith}
use pcap_analyzer.Util.Bytes.{codes, same_text}
use pcap_analyzer.Util.Text.{parse_uint, parse_digits}
use pcap_analyzer.Protocols.Addresses.{v4_from_string, v4_loop, end_octet, all_four}
use pcap_analyzer.Protocols.Addresses.Reading.{dotted, v4_from_string-dotted}
use pcap_analyzer.Flow.FlowTable.{blank_key}
use pcap_analyzer.Cli.Options.{Options, default_options, parse_filter_ip, set_ip, set_idle}
use pcap_analyzer.Cli.Parse.{
  is_option, with_value, flag, positional, valued, look_at, with_sections, settle, args_loop,
  parse_args,
}
use pcap_analyzer.Cli.Accepted.{IsReady, parse_args-IsReady}

v4_from_string-dotted_example :
    v4_from_string (dotted 192 168 7 20) ≡ some (192 ∷ 168 ∷ 7 ∷ 20 ∷ [])
v4_from_string-dotted_example =
    v4_from_string-dotted 192 168 7 20 (omega arith) (omega arith) (omega arith) (omega arith)

abbrev command : List (List ℕ)
command = codes "-i" ∷ codes "60" ∷ codes "cap.pcap" ∷ codes "--dst-ip" ∷ codes "10.0.0.1" ∷ []

abbrev options : Options
options = record default_options {
  path = codes "cap.pcap";
  flow_idle_timeout_us = 60000000;
  filter = record blank_key { is_ipv4 = true; dst_ip = 10 ∷ 0 ∷ 0 ∷ 1 ∷ replicate 12 0 };
  show_summary = true;
  show_flows = true;
}

accepted : parse_args command ≡ some options
unfolding parse_args args_loop look_at is_option same_text flag valued with_value set_idle
    parse_uint parse_digits sub64 set_ip parse_filter_ip v4_from_string v4_loop end_octet all_four
    positional settle with_sections
accepted = refl

parse_args-IsReady_example : IsReady options
parse_args-IsReady_example = parse_args-IsReady command options accepted
