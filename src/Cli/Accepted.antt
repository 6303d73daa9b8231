-- ===== src/Cli/Accepted.antt =====
-- What the options are when the command line is accepted, src/cli/cli.cpp.
use pcap_analyzer.Prelude.{
  ℕ, zero, suc, ◌<◌, ◌≡◌, ◌⊎◌, inl, inr, refl, sym, ap, ◌∙◌, subst, true, false, not, ◌||◌, ◌&&◌,
  ◌==◌, Bool-cases, then_of, else_of, Option-cases, List, [], ◌∷◌, length, Option, none, some,
  get_or, arith,
}
use pcap_analyzer.Cli.Options.{
  Options, default_options, State, parse_filter_ip, set_out_dir, set_limit, set_timeout, set_idle,
  set_ip, set_port, set_proto,
}
use pcap_analyzer.Cli.Parse.{
  Round, refuse, leave, next, with_value, flag, positional, valued, look_at, with_sections, settle,
  args_loop, parse_args,
}
use pcap_analyzer.Cli.Ranges.{
  InRange, Ranged, set_out_dir-Ranged, set_limit-Ranged, set_timeout-Ranged, set_idle-Ranged,
  parse_filter_ip-length, set_ip-Ranged, set_port-Ranged, set_proto-Ranged,
}

Kept : Round → Type 0
Kept refuse = Unit {0}
Kept (leave o) = InRange o × ((o.help ≡ true) ⊎ (o.version ≡ true))
Kept (next args s) = InRange s.out

with_value-Kept :
    (args : List (List ℕ)) (f : List ℕ → Option State)
    → ((v : List ℕ) → Ranged (f v))
    → Kept (with_value args f)
unfolding with_value Kept
with_value-Kept [] f k = tt
with_value-Kept (v ∷ rest) f k = from (f v) refl (k v)
  where
    from : (o : Option State) → f v ≡ o → Ranged o → Kept (with_value (v ∷ rest) f)
    from none e r = rw (e, with_value) tt
    from (some s) e r = rw (e, with_value) r

flag-InRange : (arg : List ℕ) (o p : Options) → flag arg o ≡ some p → InRange o → InRange p
unfolding flag
flag-InRange arg o p e h = ground arith

positional-Kept :
    (arg : List ℕ) (rest : List (List ℕ)) (s : State) → InRange s.out → Kept (positional arg rest s)
unfolding positional Kept
positional-Kept arg rest s h = ground arith

valued-Kept :
    (arg : List ℕ) (rest : List (List ℕ)) (s : State) → InRange s.out → Kept (valued arg rest s)
unfolding valued
valued-Kept arg rest s h =
    let is_dst = get_or arg 2 0 == b'd' in
    ground (
      arith,
      with_value-Kept rest (set_out_dir s) (λ v. set_out_dir-Ranged s v h),
      with_value-Kept rest (set_limit s) (λ v. set_limit-Ranged s v h),
      with_value-Kept rest (set_timeout s) (λ v. set_timeout-Ranged s v h),
      with_value-Kept rest (set_idle s) (λ v. set_idle-Ranged s v h),
      with_value-Kept rest (λ v. set_ip s is_dst (parse_filter_ip v))
          (λ v. set_ip-Ranged s is_dst (parse_filter_ip v) (parse_filter_ip-length v) h),
      with_value-Kept rest (set_port s is_dst) (λ v. set_port-Ranged s is_dst v h),
      with_value-Kept rest (set_proto s) (λ v. set_proto-Ranged s v h),
      positional-Kept arg rest s h,
    )

look_at-Kept :
    (arg : List ℕ) (rest : List (List ℕ)) (s : State) → InRange s.out → Kept (look_at arg rest s)
unfolding look_at Kept
look_at-Kept arg rest s h = elim (Option-cases (flag arg s.out)) [
  | inl e ↦ ground (arith, e, valued-Kept arg rest s h)
  | inr (o, e) ↦ ground (arith, e, flag-InRange arg s.out o e h)
]

abbrev Shows : Options → Type 0
Shows o =
    (o.show_flows || o.show_http || o.show_dns || o.show_summary || o.show_bench || o.show_packets)
    ≡ true

-- Options that the program can run with.
abbrev pub IsReady : Options → Type 0
IsReady o = InRange o × ((o.help ≡ true) ⊎ ((o.version ≡ true) ⊎ ((0 < length o.path) × Shows o)))

with_sections-Shows : (o : Options) → Shows (with_sections o)
unfolding with_sections
with_sections-Shows o = ground arith

with_sections_kept :
    (o : Options)
    → InRange o
    → InRange (with_sections o)
      × ((with_sections o).path ≡ o.path)
      × ((with_sections o).help ≡ o.help)
      × ((with_sections o).version ≡ o.version)
unfolding with_sections
with_sections_kept o h = ground arith

runs :
    (o : Options)
    → (not o.help && not o.version && length o.path == 0) ≡ false
    → (o.help ≡ true) ⊎ ((o.version ≡ true) ⊎ (0 < length o.path))
runs o e = ground arith

settled_IsReady :
    (o : Options)
    → InRange o
    → (o.help ≡ true) ⊎ ((o.version ≡ true) ⊎ (0 < length o.path))
    → IsReady (with_sections o)
settled_IsReady o h r =
    let (range, path, help, version) = with_sections_kept o h in
    let shows = with_sections-Shows o in (range, from path help version shows r)
  where
    from :
        (with_sections o).path ≡ o.path
        → (with_sections o).help ≡ o.help
        → (with_sections o).version ≡ o.version
        → Shows (with_sections o)
        → (o.help ≡ true) ⊎ ((o.version ≡ true) ⊎ (0 < length o.path))
        → ((with_sections o).help ≡ true)
          ⊎ (((with_sections o).version ≡ true)
              ⊎ ((0 < length (with_sections o).path) × Shows (with_sections o)))
    from path help version shows (inl e) = inl (help ∙ e)
    from path help version shows (inr (inl e)) = inr (inl (version ∙ e))
    from path help version shows (inr (inr l)) =
        let size = ap length path in inr (inr (omega arith, shows))

settle-IsReady : (o p : Options) → InRange o → settle o ≡ some p → IsReady p
unfolding settle
settle-IsReady o p h e = elim (Bool-cases (not o.help && not o.version && length o.path == 0)) [
  | inl n ↦ let refused : none ≡ some p = sym (then_of none (some (with_sections o)) n) ∙ e in cc
  | inr n ↦
      let same : some (with_sections o) ≡ some p =
        sym (else_of none (some (with_sections o)) n) ∙ e in
      let equal : with_sections o ≡ p = cc in subst IsReady equal (settled_IsReady o h (runs o n))
]

pub Round-cases :
    (r : Round)
    → (r ≡ refuse)
      ⊎ (((o : Options) × (r ≡ leave o))
          ⊎ ((args : List (List ℕ)) × (s : State) × (r ≡ next args s)))
Round-cases refuse = inl refl
Round-cases (leave o) = inr (inl (o, refl))
Round-cases (next args s) = inr (inr (args, s, refl))

module _ (fuel : ℕ) (arg : List ℕ) (rest : List (List ℕ)) (s : State) where
  pub loop_refuse : look_at arg rest s ≡ refuse → args_loop (suc fuel) (arg ∷ rest) s ≡ none
  unfolding args_loop
  loop_refuse e = rw (e, args_loop) refl

  pub loop_leave :
      (o : Options) → look_at arg rest s ≡ leave o → args_loop (suc fuel) (arg ∷ rest) s ≡ some o
  unfolding args_loop
  loop_leave o e = rw (e, args_loop) refl

  pub loop_next :
      (later : List (List ℕ)) (t : State)
      → look_at arg rest s ≡ next later t
      → args_loop (suc fuel) (arg ∷ rest) s ≡ args_loop fuel later t
  unfolding args_loop
  loop_next later t e = rw (e, args_loop) refl

left_IsReady : (o : Options) → Kept (leave o) → IsReady o
unfolding Kept
left_IsReady o (h, inl e) = (h, inl e)
left_IsReady o (h, inr e) = (h, inr (inl e))

next_InRange : (later : List (List ℕ)) (t : State) → Kept (next later t) → InRange t.out
unfolding Kept
next_InRange later t h = h

args_loop-IsReady :
    (fuel : ℕ) (args : List (List ℕ)) (s : State) (o : Options)
    → InRange s.out
    → args_loop fuel args s ≡ some o
    → IsReady o
unfolding args_loop
args_loop-IsReady zero args s o h e = settle-IsReady s.out o h e
args_loop-IsReady (suc fuel) [] s o h e = settle-IsReady s.out o h e
args_loop-IsReady (suc fuel) (arg ∷ rest) s o h e =
    let kept = look_at-Kept arg rest s h in
    elim (Round-cases (look_at arg rest s)) [
      | inl n ↦ let f : none ≡ some o = sym (loop_refuse fuel arg rest s n) ∙ e in absurd cc
      | inr (inl (p, n)) ↦
          let f : some p ≡ some o = sym (loop_leave fuel arg rest s p n) ∙ e in
          let same : p ≡ o = cc in subst IsReady same (left_IsReady p (subst Kept n kept))
      | inr (inr (later, t, n)) ↦
          args_loop-IsReady fuel later t o (next_InRange later t (subst Kept n kept))
            (sym (loop_next fuel arg rest s later t n) ∙ e)
    ]

-- The options of a command line that is accepted can be used: numbers and both timeouts, in
-- microseconds, fit their 64 bits, the addresses of the filter have 16 bytes, its ports 16 bits and
-- its protocol 8; and help or the version was asked for, or there is a path and at least one section
-- is shown.
pub parse_args-IsReady : (args : List (List ℕ)) (o : Options) → parse_args args ≡ some o → IsReady o
unfolding parse_args
parse_args-IsReady args o e =
    args_loop-IsReady (length args) args (record { out = default_options; ip_version = 0 }) o
      (omega arith, omega arith, omega arith, (refl, refl, omega arith, omega arith, omega arith)) e
