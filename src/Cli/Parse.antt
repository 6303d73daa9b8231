-- ===== src/Cli/Parse.antt =====
-- `parseArgs` of src/cli/cli.cpp. An argument is the list of its characters, without the 0 at the end.
-- The names of the options exclude each other, so the order of these tests does not matter: those
-- without a value come first.
use pcap_analyzer.Prelude.{
  ℕ, zero, suc, Bool, true, false, not, ◌&&◌, ◌||◌, ◌==◌, if◌then◌else◌, List, [], ◌∷◌, length,
  get_or, Option, none, some,
}
use pcap_analyzer.Util.Bytes.{codes, same_text}
use pcap_analyzer.Cli.Options.{
  Options, default_options, State, parse_filter_ip, set_out_dir, set_limit, set_timeout, set_idle,
  set_ip, set_port, set_proto,
}

-- One round of the loop: `false` is returned, `true` is returned at once, or the next argument is
-- looked at.
pub data Round : Type 0 where
  refuse : Round
  leave : Options → Round
  next : List (List ℕ) → State → Round

unfoldable pub is_option : List ℕ → List ℕ → List ℕ → Bool
unfolding same_text
is_option arg short long = same_text arg short || same_text arg long

-- `nextValue`, and what is done with the value.
unfoldable pub with_value : List (List ℕ) → (List ℕ → Option State) → Round
with_value [] use_value = refuse
with_value (v ∷ rest) use_value = elim (use_value v) [ none ↦ refuse | some s ↦ next rest s ]

-- The options without a value.
unfoldable pub flag : List ℕ → Options → Option Options
unfolding is_option
flag arg o =
    if is_option arg (codes "-f") (codes "--flows")
    then some (record o { show_flows = true })
    else if is_option arg (codes "-H") (codes "--http")
    then some (record o { show_http = true })
    else if is_option arg (codes "-d") (codes "--dns")
    then some (record o { show_dns = true })
    else if is_option arg (codes "-s") (codes "--summary")
    then some (record o { show_summary = true })
    else if is_option arg (codes "-b") (codes "--bench")
    then some (record o { show_bench = true })
    else if is_option arg (codes "-p") (codes "--packets")
    then some (record o { show_packets = true })
    else if is_option arg (codes "-j") (codes "--json")
    then some (record o { json = true })
    else if is_option arg (codes "-a") (codes "--all")
    then some (record o {
      show_summary = true;
      show_flows = true;
      show_http = true;
      show_dns = true;
      show_bench = true;
    })
    else if is_option arg (codes "-C") (codes "--no-checksum")
    then some (record o { verify_checksum = false })
    else none

-- What is no option: the path, once.
unfoldable pub positional : List ℕ → List (List ℕ) → State → Round
positional arg rest s =
    if get_or arg 0 0 == b'-' && not (get_or arg 1 0 == 0)
    then refuse
    else if length s.out.path == 0
    then next rest (record s { out = record s.out { path = arg } })
    else refuse

unfoldable pub valued : List ℕ → List (List ℕ) → State → Round
unfolding is_option same_text with_value set_out_dir set_limit set_timeout set_idle set_ip
    parse_filter_ip set_port set_proto positional
valued arg rest s =
    let is_dst = get_or arg 2 0 == b'd' in
    if is_option arg (codes "-o") (codes "--out")
    then with_value rest (set_out_dir s)
    else if is_option arg (codes "-n") (codes "--limit")
    then with_value rest (set_limit s)
    else if is_option arg (codes "-t") (codes "--timeout")
    then with_value rest (set_timeout s)
    else if is_option arg (codes "-i") (codes "--idle")
    then with_value rest (set_idle s)
    else if is_option arg (codes "--src-ip") (codes "--dst-ip")
    then with_value rest (λ v. set_ip s is_dst (parse_filter_ip v))
    else if is_option arg (codes "--src-port") (codes "--dst-port")
    then with_value rest (set_port s is_dst)
    else if same_text arg (codes "--proto")
    then with_value rest (set_proto s)
    else positional arg rest s

unfoldable pub look_at : List ℕ → List (List ℕ) → State → Round
unfolding is_option flag valued
look_at arg rest s =
    if is_option arg (codes "-h") (codes "--help")
    then leave (record s.out { help = true })
    else if is_option arg (codes "-V") (codes "--version")
    then leave (record s.out { version = true })
    else elim (flag arg s.out) as (λ o. Round) [
      | some o ↦ next rest (record s { out = o })
      | none ↦ valued arg rest s
    ]

-- The sections that are shown when none was asked for.
unfoldable pub with_sections : Options → Options
with_sections o =
    if o.show_flows || o.show_http || o.show_dns || o.show_summary || o.show_bench || o.show_packets
    then o
    else if length o.out_dir == 0
    then record o { show_summary = true; show_flows = true }
    else record o {
      show_summary = true;
      show_flows = true;
      show_http = true;
      show_dns = true;
      show_bench = true;
      show_packets = true;
    }

-- The end of the call: without help and version, a path is needed.
unfoldable pub settle : Options → Option Options
unfolding with_sections
settle o =
    if not o.help && not o.version && length o.path == 0 then none else some (with_sections o)

-- Each round takes one argument at least.
unfoldable pub args_loop : ℕ → List (List ℕ) → State → Option Options
unfolding look_at settle
args_loop zero args s = settle s.out
args_loop (suc fuel) [] s = settle s.out
args_loop (suc fuel) (arg ∷ rest) s = elim (look_at arg rest s) [
  | refuse ↦ none
  | leave o ↦ some o
  | next later t ↦ args_loop fuel later t
]

-- `none` stands for `false`.
unfoldable pub parse_args : List (List ℕ) → Option Options
unfolding args_loop
parse_args args = args_loop (length args) args (record { out = default_options; ip_version = 0 })
