-- ===== src/Cli/Rounds.antt =====
-- The loop over the arguments has enough rounds, src/cli/cli.cpp.
use pcap_analyzer.Prelude.{
  ℕ, zero, suc, ◌≤◌, ◌≡◌, refl, sym, ◌∙◌, inl, inr, subst, ◌==◌, List, [], ◌∷◌, length, get_or,
  Option, Option-cases, arith,
}
use pcap_analyzer.Cli.Options.{
  State, parse_filter_ip, set_out_dir, set_limit, set_timeout, set_idle, set_ip, set_port,
  set_proto,
}
use pcap_analyzer.Cli.Parse.{
  Round, refuse, leave, next, with_value, flag, positional, valued, look_at, args_loop,
}
use pcap_analyzer.Cli.Accepted.{Round-cases, loop_refuse, loop_leave, loop_next}

-- A round that goes on leaves no more than the arguments behind its own.
AtMost : ℕ → Round → Type 0
AtMost n refuse = Unit {0}
AtMost n (leave o) = Unit {0}
AtMost n (next args s) = length args ≤ n

with_value-AtMost :
    (args : List (List ℕ)) (f : List ℕ → Option State) → AtMost (length args) (with_value args f)
unfolding with_value AtMost
with_value-AtMost [] f = tt
with_value-AtMost (v ∷ rest) f = elim (Option-cases (f v)) [
  | inl e ↦ rw (e, with_value) tt
  | inr (s, e) ↦ rw (e, with_value) (omega arith)
]

positional-AtMost :
    (arg : List ℕ) (rest : List (List ℕ)) (s : State) → AtMost (length rest) (positional arg rest s)
unfolding positional AtMost
positional-AtMost arg rest s = ground arith

valued-AtMost :
    (arg : List ℕ) (rest : List (List ℕ)) (s : State) → AtMost (length rest) (valued arg rest s)
unfolding valued
valued-AtMost arg rest s =
    let is_dst = get_or arg 2 0 == b'd' in
    ground (
      arith,
      with_value-AtMost rest (set_out_dir s),
      with_value-AtMost rest (set_limit s),
      with_value-AtMost rest (set_timeout s),
      with_value-AtMost rest (set_idle s),
      with_value-AtMost rest (λ v. set_ip s is_dst (parse_filter_ip v)),
      with_value-AtMost rest (set_port s is_dst),
      with_value-AtMost rest (set_proto s),
      positional-AtMost arg rest s,
    )

look_at-AtMost :
    (arg : List ℕ) (rest : List (List ℕ)) (s : State) → AtMost (length rest) (look_at arg rest s)
unfolding look_at AtMost
look_at-AtMost arg rest s = elim (Option-cases (flag arg s.out)) [
  | inl e ↦ ground (arith, e, valued-AtMost arg rest s)
  | inr (o, e) ↦ ground (arith, e)
]

next_AtMost :
    (n : ℕ) (later : List (List ℕ)) (t : State) → AtMost n (next later t) → length later ≤ n
unfolding AtMost
next_AtMost n later t h = h

-- One round for each argument is enough: more fuel changes nothing.
pub args_loop_enough :
    (fuel fuel2 : ℕ) (args : List (List ℕ)) (s : State)
    → length args ≤ fuel
    → length args ≤ fuel2
    → args_loop fuel args s ≡ args_loop fuel2 args s
unfolding args_loop
args_loop_enough zero zero args s l m = refl
args_loop_enough zero (suc fuel2) [] s l m = refl
args_loop_enough zero (suc fuel2) (arg ∷ rest) s l m = absurd (omega arith)
args_loop_enough (suc fuel) zero [] s l m = refl
args_loop_enough (suc fuel) zero (arg ∷ rest) s l m = absurd (omega arith)
args_loop_enough (suc fuel) (suc fuel2) [] s l m = refl
args_loop_enough (suc fuel) (suc fuel2) (arg ∷ rest) s l m =
    elim (Round-cases (look_at arg rest s)) [
      | inl n ↦ loop_refuse fuel arg rest s n ∙ sym (loop_refuse fuel2 arg rest s n)
      | inr (inl (o, n)) ↦ loop_leave fuel arg rest s o n ∙ sym (loop_leave fuel2 arg rest s o n)
      | inr (inr (later, t, n)) ↦
          let less =
            next_AtMost (length rest) later t
              (subst (AtMost (length rest)) n (look_at-AtMost arg rest s)) in
          loop_next fuel arg rest s later t n
          ∙ args_loop_enough fuel fuel2 later t (omega arith) (omega arith)
          ∙ sym (loop_next fuel2 arg rest s later t n)
    ]
