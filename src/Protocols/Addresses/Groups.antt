-- ===== src/Protocols/Addresses/Groups.antt =====
-- The loop over the groups of an IPv6 address has enough rounds, src/net/protocols/ipv6.cpp.
use pcap_analyzer.Prelude.{
  ℕ, zero, suc, ◌+◌, ◌*◌, ◌%◌, ◌≤◌, ◌<◌, ◌≡◌, ◌⊎◌, inl, inr, refl, sym, subst, ◌∙◌, List, [], ◌∷◌,
  ◌++◌, length, Option, none, some, Option-cases, arith,
}
use pcap_analyzer.Util.Bytes.{hex_value}
use pcap_analyzer.Protocols.Addresses.{
  GroupRound, refused, finished, go_on, group_loop, after_colon, after_group, group_round, v6_loop,
}

-- What a round that goes on leaves.
Leaves : ℕ → GroupRound → Type 0
Leaves n refused = Unit {0}
Leaves n (finished groups gap) = Unit {0}
Leaves n (go_on text groups gap) = length text < n

after_colon-Leaves :
    (cs groups : List ℕ) (gap : Option ℕ) → Leaves (suc (length cs)) (after_colon cs groups gap)
unfolding after_colon Leaves
after_colon-Leaves [] groups gap = tt
after_colon-Leaves (c ∷ []) groups none = ground arith
after_colon-Leaves (c ∷ d ∷ ds) groups none = ground arith
after_colon-Leaves (c ∷ []) groups (some gap) = ground arith
after_colon-Leaves (c ∷ d ∷ ds) groups (some gap) = ground arith

after_group-Leaves :
    (cs groups : List ℕ) (gap : Option ℕ) → Leaves (length cs) (after_group cs groups gap)
unfolding after_group Leaves
after_group-Leaves [] groups gap = tt
after_group-Leaves (c ∷ cs) groups gap = ground (arith, after_colon-Leaves cs groups gap)

less_Leaves : (m n : ℕ) (r : GroupRound) → m ≤ n → Leaves m r → Leaves n r
unfolding Leaves
less_Leaves m n refused l h = tt
less_Leaves m n (finished groups gap) l h = tt
less_Leaves m n (go_on text groups gap) l h = omega arith

group_loop-length :
    (text : List ℕ) (value digits v d : ℕ) (rest : List ℕ)
    → group_loop text value digits ≡ some (v, d, rest)
    → length rest ≤ length text
unfolding group_loop
group_loop-length [] value digits v d rest e = ground arith
group_loop-length (c ∷ cs) value digits v d rest e = elim (Option-cases (hex_value c)) [
  | inl n ↦ ground (arith, n)
  | inr (h, n) ↦ ground (arith, n, group_loop-length cs (value * 16 + h) (digits + 1) v d rest)
]

group_round-Leaves :
    (o : Option (ℕ × ℕ × List ℕ)) (n : ℕ) (groups : List ℕ) (gap : Option ℕ)
    → ((v d : ℕ) (rest : List ℕ) → o ≡ some (v, d, rest) → length rest ≤ n)
    → Leaves n (group_round o groups gap)
unfolding group_round
group_round-Leaves none n groups gap k = unfold Leaves in tt
group_round-Leaves (some (v, d, rest)) n groups gap k =
    let h =
      less_Leaves (length rest) n (after_group rest (groups ++ v % 65536 ∷ []) gap)
        (k v d rest refl) (after_group-Leaves rest (groups ++ v % 65536 ∷ []) gap) in
    unfold Leaves in ground (arith, h)

GroupRound-cases :
    (r : GroupRound)
    → (r ≡ refused)
      ⊎ (((groups : List ℕ) × (gap : Option ℕ) × (r ≡ finished groups gap))
          ⊎ ((text : List ℕ) × (groups : List ℕ) × (gap : Option ℕ) × (r ≡ go_on text groups gap)))
GroupRound-cases refused = inl refl
GroupRound-cases (finished groups gap) = inr (inl (groups, gap, refl))
GroupRound-cases (go_on text groups gap) = inr (inr (text, groups, gap, refl))

module _ (fuel : ℕ) (c : ℕ) (cs groups : List ℕ) (gap : Option ℕ) where
  loop_refused :
      group_round (group_loop (c ∷ cs) 0 0) groups gap ≡ refused
      → v6_loop (suc fuel) (c ∷ cs) groups gap ≡ none
  unfolding v6_loop
  loop_refused e = rw (e, v6_loop) refl

  loop_finished :
      (all : List ℕ) (last : Option ℕ)
      → group_round (group_loop (c ∷ cs) 0 0) groups gap ≡ finished all last
      → v6_loop (suc fuel) (c ∷ cs) groups gap ≡ some (all, last)
  unfolding v6_loop
  loop_finished all last e = rw (e, v6_loop) refl

  loop_go_on :
      (text all : List ℕ) (last : Option ℕ)
      → group_round (group_loop (c ∷ cs) 0 0) groups gap ≡ go_on text all last
      → v6_loop (suc fuel) (c ∷ cs) groups gap ≡ v6_loop fuel text all last
  unfolding v6_loop
  loop_go_on text all last e = rw (e, v6_loop) refl

go_on_less :
    (n : ℕ) (text groups : List ℕ) (gap : Option ℕ)
    → Leaves n (go_on text groups gap)
    → length text < n
unfolding Leaves
go_on_less n text groups gap h = h

-- One round for each byte is enough: more fuel changes nothing.
pub v6_loop_enough :
    (fuel fuel2 : ℕ) (text groups : List ℕ) (gap : Option ℕ)
    → length text ≤ fuel
    → length text ≤ fuel2
    → v6_loop fuel text groups gap ≡ v6_loop fuel2 text groups gap
unfolding v6_loop
v6_loop_enough zero zero text groups gap l m = refl
v6_loop_enough zero (suc fuel2) [] groups gap l m = refl
v6_loop_enough zero (suc fuel2) (c ∷ cs) groups gap l m = absurd (omega arith)
v6_loop_enough (suc fuel) zero [] groups gap l m = refl
v6_loop_enough (suc fuel) zero (c ∷ cs) groups gap l m = absurd (omega arith)
v6_loop_enough (suc fuel) (suc fuel2) [] groups gap l m = refl
v6_loop_enough (suc fuel) (suc fuel2) (c ∷ cs) groups gap l m =
    let r = group_round (group_loop (c ∷ cs) 0 0) groups gap in
    elim (GroupRound-cases r) [
      | inl n ↦ loop_refused fuel c cs groups gap n ∙ sym (loop_refused fuel2 c cs groups gap n)
      | inr (inl (all, last, n)) ↦
          loop_finished fuel c cs groups gap all last n
          ∙ sym (loop_finished fuel2 c cs groups gap all last n)
      | inr (inr (text, all, last, n)) ↦
          let leaves =
            group_round-Leaves (group_loop (c ∷ cs) 0 0) (length (c ∷ cs)) groups gap
              (group_loop-length (c ∷ cs) 0 0) in
          let less =
            go_on_less (length (c ∷ cs)) text all last
              (subst (Leaves (length (c ∷ cs))) n leaves) in
          loop_go_on fuel c cs groups gap text all last n
          ∙ v6_loop_enough fuel fuel2 text all last (omega arith) (omega arith)
          ∙ sym (loop_go_on fuel2 c cs groups gap text all last n)
    ]
