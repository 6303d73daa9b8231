-- ===== src/Cli/Ranges.antt =====
-- What sets an option with a value keeps it in range, src/cli/cli.cpp.
use pcap_analyzer.Prelude.{
  ℕ, ◌/◌, ◌≤◌, ◌≡◌, inl, inr, refl, Bool, true, false, ◌==◌, Bool-cases, Option-cases, List, length,
  length-append, replicate, Option, none, some, IsU64, arith,
}
use pcap_analyzer.Util.Text.{parse_uint}
use pcap_analyzer.Util.Text.Numbers.{parse_uint_iff}
use pcap_analyzer.Protocols.Addresses.{v4_from_string, v6_from_string, protocol_from_name}
use pcap_analyzer.Protocols.Addresses.Reading.{v4_from_string-length, v6_from_string-length}
use pcap_analyzer.Flow.FlowKey.{FlowKey}
use pcap_analyzer.Cli.Options.{
  Options, State, u64_max, parse_filter_ip, set_out_dir, set_limit, set_timeout, set_idle, set_ip,
  set_port, with_port, set_proto,
}

-- The fields of the filter are words of their size, and nothing has overflowed.
abbrev pub IsFilter : FlowKey → Type 0
IsFilter f =
    (length f.src_ip ≡ 16)
    × (length f.dst_ip ≡ 16)
    × (f.src_port ≤ 65535)
    × (f.dst_port ≤ 65535)
    × (f.protocol ≤ 255)

abbrev pub InRange : Options → Type 0
InRange o =
    (o.print_limit ≤ u64_max)
    × (o.flow_active_timeout_us ≤ u64_max)
    × (o.flow_idle_timeout_us ≤ u64_max)
    × IsFilter o.filter

number_bound : (v : List ℕ) (max n : ℕ) → 9 ≤ max → IsU64 max → parse_uint v max ≡ some n → n ≤ max
number_bound v max n l u e =
    let (full, digits, same, bound) = (parse_uint_iff v max n l u).0 e in bound

abbrev pub Ranged : Option State → Type 0
Ranged none = Unit {0}
Ranged (some s) = InRange s.out

pub set_out_dir-Ranged : (s : State) (v : List ℕ) → InRange s.out → Ranged (set_out_dir s v)
unfolding set_out_dir
set_out_dir-Ranged s v h = elim (Bool-cases (length v == 0)) [
  | inl e ↦ rw (e, set_out_dir) tt
  | inr e ↦ rw (e, set_out_dir) h
]

pub set_limit-Ranged : (s : State) (v : List ℕ) → InRange s.out → Ranged (set_limit s v)
unfolding set_limit
set_limit-Ranged s v (l, a, i, f) = elim (Option-cases (parse_uint v u64_max)) [
  | inl e ↦ rw (e, set_limit) tt
  | inr (n, e) ↦ rw (e, set_limit) (number_bound v u64_max n (omega arith) (omega arith) e, a, i, f)
]

pub set_timeout-Ranged : (s : State) (v : List ℕ) → InRange s.out → Ranged (set_timeout s v)
unfolding set_timeout
set_timeout-Ranged s v (l, a, i, f) = elim (Option-cases (parse_uint v (u64_max / 1000000))) [
  | inl e ↦ rw (e, set_timeout) tt
  | inr (n, e) ↦
      let b = number_bound v (u64_max / 1000000) n (omega arith) (omega arith) e in
      rw (e, set_timeout) (l, omega arith, i, f)
]

pub set_idle-Ranged : (s : State) (v : List ℕ) → InRange s.out → Ranged (set_idle s v)
unfolding set_idle
set_idle-Ranged s v (l, a, i, f) = elim (Option-cases (parse_uint v (u64_max / 1000000))) [
  | inl e ↦ rw (e, set_idle) tt
  | inr (n, e) ↦
      let b = number_bound v (u64_max / 1000000) n (omega arith) (omega arith) e in
      rw (e, set_idle) (l, a, omega arith, f)
]

pub parse_filter_ip-length :
    (text : List ℕ) (is_ipv4 : Bool) (ip : List ℕ)
    → parse_filter_ip text ≡ some (is_ipv4, ip)
    → length ip ≡ 16
unfolding parse_filter_ip
parse_filter_ip-length text is_ipv4 ip e = elim (Option-cases (v4_from_string text)) [
  | inl n ↦ elim (Option-cases (v6_from_string text)) [
    | inl m ↦ ground (arith, n, m)
    | inr (b, m) ↦ ground (arith, n, m, v6_from_string-length text b m)
  ]
  | inr (b, n) ↦ ground (arith, n, v4_from_string-length text b n, length-append b (replicate 12 0))
]

pub set_ip-Ranged :
    (s : State) (is_dst : Bool) (o : Option (Bool × List ℕ))
    → ((is_ipv4 : Bool) (ip : List ℕ) → o ≡ some (is_ipv4, ip) → length ip ≡ 16)
    → InRange s.out
    → Ranged (set_ip s is_dst o)
unfolding set_ip
set_ip-Ranged s is_dst none k h = tt
set_ip-Ranged s true (some (is_ipv4, ip)) k (l, a, i, (src, dst, sp, dp, p)) =
    let size = k is_ipv4 ip refl in ground arith
set_ip-Ranged s false (some (is_ipv4, ip)) k (l, a, i, (src, dst, sp, dp, p)) =
    let size = k is_ipv4 ip refl in ground arith

port_Ranged :
    (s : State) (is_dst : Bool) (n : ℕ)
    → n ≤ 65535
    → InRange s.out
    → IsFilter (with_port s.out.filter is_dst n)
port_Ranged s true n b (l, a, i, (src, dst, sp, dp, p)) = (src, dst, sp, b, p)
port_Ranged s false n b (l, a, i, (src, dst, sp, dp, p)) = (src, dst, b, dp, p)

pub set_port-Ranged :
    (s : State) (is_dst : Bool) (v : List ℕ) → InRange s.out → Ranged (set_port s is_dst v)
unfolding set_port
set_port-Ranged s is_dst v h = elim (Option-cases (parse_uint v 65535)) [
  | inl e ↦ rw (e, set_port) tt
  | inr (n, e) ↦
      let b = number_bound v 65535 n (omega arith) (omega arith) e in
      elim (Bool-cases (n == 0)) [
        | inl z ↦ rw (e, z, set_port) tt
        | inr z ↦ rw (e, z, set_port) (h.0, h.1, h.2, port_Ranged s is_dst n b h)
      ]
]

protocol_bound : (v : List ℕ) (n : ℕ) → protocol_from_name v ≡ some n → n ≤ 255
unfolding protocol_from_name
protocol_bound v n e = ground (arith, number_bound v 255 n (omega arith) (omega arith))

pub set_proto-Ranged : (s : State) (v : List ℕ) → InRange s.out → Ranged (set_proto s v)
unfolding set_proto
set_proto-Ranged s v (l, a, i, (src, dst, sp, dp, p)) = elim (Option-cases (protocol_from_name v)) [
  | inl e ↦ rw (e, set_proto) tt
  | inr (n, e) ↦ elim (Bool-cases (n == 0)) [
    | inl z ↦ rw (e, z, set_proto) tt
    | inr z ↦ rw (e, z, set_proto) (l, a, i, (src, dst, sp, dp, protocol_bound v n e))
  ]
]
